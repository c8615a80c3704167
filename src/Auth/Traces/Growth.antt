-- ===== src/Auth/Traces/Growth.antt =====
-- What no step of the authentication service undoes.
use technical_assignment.Common.Growth.{
  Extends, Extends-refl, Extends-trans, Extends-append, Extends-update_where, IsUnique,
  IsUnique-append, IsUnique-update_where,
}
use technical_assignment.Auth.Db.{
  Db, UserRow, RefreshTokenRow, AuditRow, is_unrevoked, with_user_id, with_token_id, with_hash,
  revoked_row,
}
use technical_assignment.Auth.Sessions.{rotated_row}
use technical_assignment.Common.{
  ℕ, ◌∙◌, arith, Bool, List, exists_where, ◌++◌, ◌≡◌, ◌∷◌, update_where, ◌≤◌, ap, false, true, suc,
  [], ◌==◌, refl,
}

-- A later state of a user: the version may have been bumped.
abbrev pub Ages : UserRow → UserRow → Type 0
Ages u v = (v ≡ record u { token_version = v.token_version }) × (u.token_version ≤ v.token_version)

-- A later state of a refresh token: the same but for its revocation, which stays.
abbrev pub Wears : RefreshTokenRow → RefreshTokenRow → Type 0
Wears t u =
    (u ≡ record t {
      rotated_to = u.rotated_to;
      revoked_at = u.revoked_at;
      grace_until = u.grace_until;
    })
    × (is_unrevoked u.revoked_at ≡ true → is_unrevoked t.revoked_at ≡ true)

abbrev pub IsLater : Db → Db → Type 0
IsLater d e =
    Extends Ages d.users e.users
    × Extends Wears d.tokens e.tokens
    × Extends (λ a b. b ≡ a) d.audit_log e.audit_log

-- No two users have one id or one email, and no two refresh tokens have one id or one hash.
pub record IsKeyed (d : Db) : Type 0 where
  pub user_ids : IsUnique (λ u. u.id) d.users
  pub emails : IsUnique (λ u. u.email) d.users
  pub token_ids : IsUnique (λ t. t.id) d.tokens
  pub hashes : IsUnique (λ t. t.token_hash) d.tokens

-- What one step does.
abbrev pub Keeps : Db → Db → Type 0
Keeps d e = IsLater d e × (IsKeyed d → IsKeyed e)

Ages-refl : (u : UserRow) → Ages u u
Ages-refl u = (refl, omega arith)

Ages-trans : (u v w : UserRow) → Ages u v → Ages v w → Ages u w
Ages-trans u v w (e, le) (f, le') = (
  f ∙ ap (λ (x : UserRow). record x { token_version = w.token_version }) e,
  omega (arith, le, le'),
)

Wears-refl : (t : RefreshTokenRow) → Wears t t
Wears-refl t = (refl, λ h. h)

Wears-trans : (t u v : RefreshTokenRow) → Wears t u → Wears u v → Wears t v
Wears-trans t u v (e, h) (f, k) = (
  f
      ∙ ap
          (λ (x : RefreshTokenRow). record x {
            rotated_to = v.rotated_to;
            revoked_at = v.revoked_at;
            grace_until = v.grace_until;
          })
          e,
  λ live. h (k live),
)

pub revoked_row-Wears : (now : ℕ) (t : RefreshTokenRow) → Wears t (revoked_row now t)
revoked_row-Wears now t = (refl, λ h. absurd (cc))

pub rotated_row-Wears :
    (now next grace : ℕ) (t : RefreshTokenRow) → Wears t (rotated_row now next grace t)
rotated_row-Wears now next grace t = (refl, λ h. absurd (cc))

same_log : (xs : List AuditRow) → Extends (λ a b. b ≡ a) xs xs
same_log = Extends-refl (λ a b. b ≡ a) (λ a. refl)

same_users : (xs : List UserRow) → Extends Ages xs xs
same_users = Extends-refl Ages Ages-refl

same_tokens : (xs : List RefreshTokenRow) → Extends Wears xs xs
same_tokens = Extends-refl Wears Wears-refl

pub Keeps-refl : (d : Db) → Keeps d d
Keeps-refl d = ((same_users d.users, same_tokens d.tokens, same_log d.audit_log), λ k. k)

pub Keeps-trans : (d e f : Db) → Keeps d e → Keeps e f → Keeps d f
Keeps-trans d e f (a, k) (b, m) = (
  (
    Extends-trans Ages Ages-trans d.users e.users f.users a.0 b.0,
    Extends-trans Wears Wears-trans d.tokens e.tokens f.tokens a.1 b.1,
    Extends-trans (λ x y. y ≡ x) (λ x y z p q. q ∙ p) d.audit_log e.audit_log f.audit_log a.2 b.2,
  ),
  λ v. m (k v),
)

-- An UPDATE of refresh tokens which neither moves them nor takes back a revocation.
pub update_tokens-Keeps :
    (p : RefreshTokenRow → Bool) (g : RefreshTokenRow → RefreshTokenRow) (d : Db)
    → ((t : RefreshTokenRow) → Wears t (g t))
    → Keeps d (record d { tokens = update_where p g d.tokens })
update_tokens-Keeps p g d h = (
  (same_users d.users, Extends-update_where Wears Wears-refl p g d.tokens h, same_log d.audit_log),
  λ v. record {
    user_ids = v.user_ids;
    emails = v.emails;
    token_ids =
        IsUnique-update_where (λ t. t.id) p g d.tokens (λ t. ap (λ x. x.id) (h t).0) v.token_ids;
    hashes =
        IsUnique-update_where (λ t. t.token_hash) p g d.tokens (λ t. ap (λ x. x.token_hash) (h t).0)
          v.hashes;
  },
)

pub new_token-Keeps :
    (t : RefreshTokenRow) (d : Db)
    → exists_where (with_token_id t.id) d.tokens ≡ false
    → exists_where (with_hash t.token_hash) d.tokens ≡ false
    → Keeps d (record d { tokens = d.tokens ++ t ∷ [] })
new_token-Keeps t d new_id new_hash = (
  (same_users d.users, Extends-append Wears Wears-refl d.tokens (t ∷ []), same_log d.audit_log),
  λ v. record {
    user_ids = v.user_ids;
    emails = v.emails;
    token_ids = IsUnique-append (λ x. x.id) d.tokens t new_id v.token_ids;
    hashes = IsUnique-append (λ x. x.token_hash) d.tokens t new_hash v.hashes;
  },
)

pub new_user-Keeps :
    (u : UserRow) (d : Db)
    → exists_where (with_user_id u.id) d.users ≡ false
    → exists_where (λ v. v.email == u.email) d.users ≡ false
    → Keeps d (record d { users = d.users ++ u ∷ [] })
new_user-Keeps u d new_id new_email = (
  (Extends-append Ages Ages-refl d.users (u ∷ []), same_tokens d.tokens, same_log d.audit_log),
  λ v. record {
    user_ids = IsUnique-append (λ x. x.id) d.users u new_id v.user_ids;
    emails = IsUnique-append (λ x. x.email) d.users u new_email v.emails;
    token_ids = v.token_ids;
    hashes = v.hashes;
  },
)

pub bumped-Keeps :
    (p : UserRow → Bool) (d : Db)
    → Keeps d (record d {
      users = update_where p (λ u. record u { token_version = suc u.token_version }) d.users;
    })
bumped-Keeps p d = (
  (
    Extends-update_where Ages Ages-refl p (λ u. record u { token_version = suc u.token_version })
        d.users (λ u. (refl, omega arith)),
    same_tokens d.tokens,
    same_log d.audit_log,
  ),
  λ v. record {
    user_ids =
        IsUnique-update_where (λ u. u.id) p (λ u. record u { token_version = suc u.token_version })
          d.users (λ u. refl) v.user_ids;
    emails =
        IsUnique-update_where (λ u. u.email) p
          (λ u. record u { token_version = suc u.token_version }) d.users (λ u. refl) v.emails;
    token_ids = v.token_ids;
    hashes = v.hashes;
  },
)

pub logged-Keeps :
    (a : AuditRow) (d : Db) → Keeps d (record d { audit_log = d.audit_log ++ a ∷ [] })
logged-Keeps a d = (
  (
    same_users d.users,
    same_tokens d.tokens,
    Extends-append (λ x y. y ≡ x) (λ x. refl) d.audit_log (a ∷ []),
  ),
  λ v. record {
    user_ids = v.user_ids;
    emails = v.emails;
    token_ids = v.token_ids;
    hashes = v.hashes;
  },
)
