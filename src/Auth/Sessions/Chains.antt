-- ===== src/Auth/Sessions/Chains.antt =====
-- What rotation and revocation do to the tokens of a family.
use technical_assignment.Common.{first_row-select-exists}
use technical_assignment.Common.{first_row-select-append, ==_refl, ==_iff, first_row-select-exists}
use technical_assignment.Auth.Db.{
  Db, RefreshTokenRow, with_token_id, live_in_family, with_hash, revoked_row, is_unrevoked,
}
use technical_assignment.Common.{
  ◌≡◌, refl, inl, inr, ℕ, update_where, steady, exists_where, first_row, count_where, select, false,
  some, count_where-update_where-zero, ok, ◌+◌, ◌*◌, ◌++◌, arith, ◌∷◌, [], ◌≤◌, List,
  count_where-update_where-eq, ◌==◌, one_if, Bool-cases, suc, count_where-update_where_one,
  count_where-append, first_row-select-append,
}
use technical_assignment.Auth.Sessions.{
  rotate, new_token, Host, revoke_family, Env, ℕ, Draw, RefreshTokenRow, Db, first_row, select,
  some, rotated_row,
}

-- After `revokeFamily` over a steady connection no token of the family is unrevoked, and the
-- unrevoked tokens of any other family are as many as before.
revoke_family_complete :
    (family other now : ℕ) (d : Db)
    → (other == family) ≡ false
    → let d' = (revoke_family family now steady d).1 in
      (count_where (live_in_family family) d'.tokens ≡ 0)
      × (count_where (live_in_family other) d'.tokens ≡ count_where (live_in_family other) d.tokens)
unfolding revoke_family
revoke_family_complete family other now d apart = (
  count_where-update_where-zero (live_in_family family) (live_in_family family) (revoked_row now)
      d.tokens (λ x h. ground arith) (λ x h. h),
  count_where-update_where-eq (live_in_family other) (live_in_family family) (revoked_row now)
      d.tokens (λ x h. ground (arith, apart)),
)

-- The tokens after a rotation whose new id and new hash are fresh.
abbrev pub rotated : Host → Env → Draw → RefreshTokenRow → Db → Db
rotated host env r t d = record d {
  tokens =
      update_where (with_token_id t.id)
        (rotated_row r.now r.id (r.date + env.rt_grace_seconds * 1000))
        (d.tokens ++ new_token host env r t.user_id t.family_id ∷ []);
}

abbrev pub IsFresh : Host → Draw → Db → Type 0
IsFresh host r d =
    (exists_where (with_token_id r.id) d.tokens ≡ false)
    × (exists_where (with_hash (host.sha256 r.raw)) d.tokens ≡ false)

-- A rotation of a token that exists, with a fresh id and a fresh hash, adds one token of the same
-- user and family to the table and closes the old one with a grace period, whether or not the old
-- one was revoked already.
pub rotate_outcome :
    (host : Host) (env : Env) (r : Draw) (d : Db) {t : RefreshTokenRow}
    → first_row (select (with_token_id t.id) d.tokens) ≡ some t
    → IsFresh host r d
    → rotate host env r t.id steady d
      ≡ (ok (new_token host env r t.user_id t.family_id), rotated host env r t d)
unfolding rotate new_token
rotate_outcome host env r d {t} found fresh = rw (found, fresh.0, fresh.1) refl

pub apart_ids :
    (xs : List RefreshTokenRow) (a b : ℕ) {t : RefreshTokenRow}
    → first_row (select (with_token_id a) xs) ≡ some t
    → exists_where (with_token_id b) xs ≡ false
    → (b == a) ≡ false
apart_ids xs a b {t} found fresh = elim (Bool-cases (b == a)) [
  | inl e ↦
      let same = (==_iff b a).0 e in
      absurd (ground (arith, same, first_row-select-exists (with_token_id a) xs {x = t} found))
  | inr e ↦ e
]

-- Where the id names one row and the new id and hash are in no row, a rotation over a steady
-- connection keeps the number of unrevoked tokens of the family if the token was unrevoked, and
-- makes it one more if the token was revoked already: `rotate` never looks.
pub rotate-live :
    (host : Host) (env : Env) (r : Draw) (d : Db) {t : RefreshTokenRow}
    → first_row (select (with_token_id t.id) d.tokens) ≡ some t
    → count_where (with_token_id t.id) d.tokens ≤ 1
    → IsFresh host r d
    → let d' = (rotate host env r t.id steady d).1 in
      count_where (live_in_family t.family_id) d'.tokens + one_if (is_unrevoked t.revoked_at)
      ≡ suc (count_where (live_in_family t.family_id) d.tokens)
unfolding new_token
rotate-live host env r d {t} found one fresh =
    let new = new_token host env r t.user_id t.family_id in
    let apart = apart_ids d.tokens t.id r.id found fresh.0 in
    let moved =
      count_where-update_where_one (live_in_family t.family_id) (with_token_id t.id)
        (rotated_row r.now r.id (r.date + env.rt_grace_seconds * 1000)) (d.tokens ++ new ∷ [])
        {h = t}
        (rw (count_where-append (with_token_id t.id) d.tokens (new ∷ []), apart)
          (omega (arith, one)))
        (first_row-select-append (with_token_id t.id) d.tokens (new ∷ []) found) in
    let added = count_where-append (live_in_family t.family_id) d.tokens (new ∷ []) in
    rw (rotate_outcome host env r d found fresh) (ground (arith, moved, added, ==_refl t.family_id))
