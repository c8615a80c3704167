-- ===== src/Migrations/Stops.antt =====
-- Where a run of the migrations can stop.
use technical_assignment.Migrations.Files.{AppliedTo, apply_file-steady, apply_file_atomic}
use technical_assignment.Common.Robust.{LostOrSteady}
use technical_assignment.Common.{
  ◌≡◌, refl, inl, inr, Bool-cases, Answer, List, ℕ, Link, steady, ◌∷◌, true, [], Result, err, ok,
  suc, arith, take, false,
}
use technical_assignment.Migrations.{Text, apply_file, Db, Entry, is_applied, run_files}

module _ {D : Type 0} (execute : Text → D → Answer D (Unit {0})) where
  abbrev StopsAfter : List ℕ → ℕ → List Entry → Db D → Result (Unit {0}) × Db D → Type 0
  StopsAfter ns i fs d r =
      (n : ℕ) × (run_files execute ns (λ j. steady) i (take n fs) d ≡ (ok tt, r.1))

  -- The loop, whatever its connections do and whether it ends well or not, leaves the database as it
  -- is after the first files, for some number of them, each applied over a connection that holds.
  pub stops_between_files :
      (ns : List ℕ) (links : ℕ → Link) (i : ℕ) (fs : List Entry) (d : Db D)
      → (n : ℕ) × (run_files execute ns (λ j. steady) i (take n fs) d
          ≡ (ok tt, (run_files execute ns links i fs d).1))
  unfolding run_files AppliedTo
  stops_between_files ns links i [] d = (0, refl)
  stops_between_files ns links i (f ∷ fs) d = elim (Bool-cases (is_applied ns f.name)) [
    | inl old ↦ rw old (skipped (stops_between_files ns links (suc i) fs d) old)
    | inr new ↦ rw new (
        applied (λ d'. stops_between_files ns links (suc i) fs d')
          (apply_file execute f (links i) d) (apply_file execute f steady d) refl
          (apply_file-steady execute f d) (apply_file_atomic execute f (links i) d) new)
  ]
    where
      skipped :
          {r : Db D}
          → (n : ℕ) × (run_files execute ns (λ j. steady) (suc i) (take n fs) d ≡ (ok tt, r))
          → is_applied ns f.name ≡ true
          → (n : ℕ) × (run_files execute ns (λ j. steady) i (take n (f ∷ fs)) d ≡ (ok tt, r))
      skipped (n, e) old = (suc n, rw old e)

      applied :
          ((d' : Db D)
            → (n : ℕ) × (run_files execute ns (λ j. steady) (suc i) (take n fs) d'
                ≡ (ok tt, (run_files execute ns links (suc i) fs d').1)))
          → (r t : Result (Unit {0}) × Db D) → apply_file execute f steady d ≡ t
          → AppliedTo f d t
          → LostOrSteady r t d
          → is_applied ns f.name ≡ false
          → StopsAfter ns i
              (f ∷ fs)
              d
              (elim r.0 [ err e ↦ (err e, r.1) | ok u ↦ run_files execute ns links (suc i) fs r.1 ])
      applied rest (err e, d') t h k (inl lost) new = (0, cc)
      applied rest (err e, d') (err x, d'') h k (inr (inl lost)) new = (0, cc)
      applied rest (err e, d') (ok u, d'') h k (inr (inl lost)) new =
          (1, ground (arith, new, h, lost))
      applied rest (err e, d') (err x, d'') h k (inr (inr same)) new = (0, cc)
      applied rest (err e, d') (ok u, d'') h k (inr (inr same)) new = absurd (cc)
      applied rest (ok u, d') t h k (inl lost) new = absurd (cc)
      applied rest (ok u, d') t h k (inr (inl lost)) new = absurd (cc)
      applied rest (ok u, d') t h k (inr (inr e)) new = after (rest d')
        where
          after :
              {r : Db D}
              → (n : ℕ) × (run_files execute ns (λ j. steady) (suc i) (take n fs) d' ≡ (ok tt, r))
              → (n : ℕ) × (run_files execute ns (λ j. steady) i (take n (f ∷ fs)) d ≡ (ok tt, r))
          after (n, g) = (suc n, ground (arith, new, h, e, g))
