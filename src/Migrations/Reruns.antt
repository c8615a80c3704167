-- ===== src/Migrations/Reruns.antt =====
-- A migration that was applied is not applied again.
use technical_assignment.Migrations.Files.{names, AllApplied, IsNamed, apply_file-IsNamed}
use technical_assignment.Common.{
  ◌≡◌, refl, inl, inr, Bool-cases, Answer, List, ℕ, Link, steady, All, ◌∷◌, true, [], Result, query,
  err, ok, some, rows, ◌++◌, suc, ◌||◌, ◌==◌, arith, run_query, breaks, unanswered, zero, sym,
}
use technical_assignment.Migrations.{
  Text, apply_file, Db, Entry, applied_names, is_applied, run_files, from_applied, run_migrations,
  after_create, migration_files, create_table,
}

module _ {D : Type 0} (execute : Text → D → Answer D (Unit {0})) where
  -- A run that ends well has applied all its files, and takes no name away.
  Ran : List Entry → Db D → Result (Unit {0}) × Db D → Type 0
  Ran fs d (err e, d') = Unit
  Ran fs d (ok u, d') =
      AllApplied fs d'
      × ((n : ℕ) → is_applied (names d) n ≡ true → is_applied (names d') n ≡ true)
      × (d'.applied ≡ some (names d'))

  exists_where-append :
      (n : ℕ) (ns : List ℕ) (m : ℕ) → is_applied (ns ++ m ∷ []) n ≡ (is_applied ns n || m == n)
  exists_where-append n [] m = ground arith
  exists_where-append n (k ∷ ns) m = ground (arith, exists_where-append n ns m)

  -- What the rest of a run does after a file that was applied to `d`.
  Ran-∷ :
      (f : Entry) (fs : List Entry) (d d' : Db D)
      → d'.applied ≡ some (names d ++ f.name ∷ [])
      → (r : Result (Unit {0}) × Db D) → Ran fs d' r
      → Ran (f ∷ fs) d r
  unfolding Ran
  Ran-∷ f fs d d' grown (err e, d'') k = tt
  Ran-∷ f fs d d' grown (ok u, d'') k =
      ((k.1 f.name (has f.name), k.0), (λ n h. k.1 n (kept n h)), k.2)
    where
      all_names : names d' ≡ names d ++ f.name ∷ []
      all_names = cc

      has : (n : ℕ) → is_applied (names d') f.name ≡ true
      has n = rw all_names (rw (exists_where-append f.name (names d) f.name) (ground arith))

      kept : (n : ℕ) → is_applied (names d) n ≡ true → is_applied (names d') n ≡ true
      kept n h = rw all_names (rw (exists_where-append n (names d) f.name) (ground (arith, h)))

  run_files-Ran :
      (ns : List ℕ) (links : ℕ → Link) (i : ℕ) (fs : List Entry) (d : Db D)
      → d.applied ≡ some (names d)
      → ((n : ℕ) → is_applied ns n ≡ true → is_applied (names d) n ≡ true)
      → Ran fs d (run_files execute ns links i fs d)
  unfolding run_files Ran IsNamed
  run_files-Ran ns links i [] d made sub = (tt, (λ n h. h), made)
  run_files-Ran ns links i (f ∷ fs) d made sub = elim (Bool-cases (is_applied ns f.name)) [
    | inl old ↦ rw old (
        skipped (run_files execute ns links (suc i) fs d)
          (run_files-Ran ns links (suc i) fs d made sub) (sub f.name old))
    | inr new ↦ rw new (
        applied (λ d' made' sub'. run_files-Ran ns links (suc i) fs d' made' sub')
          (apply_file execute f (links i) d) (apply_file-IsNamed execute f (links i) d))
  ]
    where
      skipped :
          (r : Result (Unit {0}) × Db D)
          → Ran fs d r
          → is_applied (names d) f.name ≡ true
          → Ran (f ∷ fs) d r
      skipped (err e, d') k h = tt
      skipped (ok u, d') k h = ((k.1 f.name h, k.0), k.1, k.2)

      applied :
          ((d' : Db D)
            → d'.applied ≡ some (names d')
            → ((n : ℕ) → is_applied ns n ≡ true → is_applied (names d') n ≡ true)
            → Ran fs d' (run_files execute ns links (suc i) fs d'))
          → (r : Result (Unit {0}) × Db D) → IsNamed f d r
          → Ran
              (f ∷ fs)
              d
              (elim r.0 [ err e ↦ (err e, r.1) | ok u ↦ run_files execute ns links (suc i) fs r.1 ])
      applied rest (err e, d') k = tt
      applied rest (ok u, d') k = Ran-∷ f fs d d' k (run_files execute ns links (suc i) fs d') (
          rest d' (rw k refl)
            (λ n h. rw k (rw (exists_where-append n (names d) f.name) (ground (arith, sub n h)))))

  -- A run over files that are all applied changes nothing.
  run_files_applied :
      (ns : List ℕ) (links : ℕ → Link) (i : ℕ) (fs : List Entry) (d : Db D)
      → All (λ f. is_applied ns f.name ≡ true) fs
      → run_files execute ns links i fs d ≡ (ok tt, d)
  unfolding run_files
  run_files_applied ns links i [] d all = refl
  run_files_applied ns links i (f ∷ fs) d all =
      rw all.0 (run_files_applied ns links (suc i) fs d all.1)

  unfoldable pub Done : List Entry → Result (Unit {0}) × Db D → Type 0
  Done fs (err e, d) = Unit
  Done fs (ok u, d) = AllApplied fs d × (d.applied ≡ some (names d))

  Ran-Done : (fs : List Entry) (d : Db D) (r : Result (Unit {0}) × Db D) → Ran fs d r → Done fs r
  unfolding Ran Done
  Ran-Done fs d (err e, d') k = tt
  Ran-Done fs d (ok u, d') k = (k.0, k.2)

  from_applied-Done :
      (links : ℕ → Link) (fs : List Entry) (d : Db D) (l : Link)
      → d.applied ≡ some (names d)
      → Done fs (
          from_applied execute links fs
            (run_query (query (λ d. rows (applied_names d.applied) d)) l d))
  unfolding from_applied Done
  from_applied-Done links fs d steady made =
      Ran-Done fs d (run_files execute (names d) links 2 fs d)
        (run_files-Ran (names d) links 2 fs d made (λ n h. h))
  from_applied-Done links fs d (breaks zero) made = tt
  from_applied-Done links fs d (breaks (suc n)) made =
      Ran-Done fs d (run_files execute (names d) links 2 fs d)
        (run_files-Ran (names d) links 2 fs d made (λ n h. h))
  from_applied-Done links fs d (unanswered zero) made = tt
  from_applied-Done links fs d (unanswered (suc n)) made =
      Ran-Done fs d (run_files execute (names d) links 2 fs d)
        (run_files-Ran (names d) links 2 fs d made (λ n h. h))

  pub run_migrations-Done :
      (entries : List Entry) (links : ℕ → Link) (d : Db D)
      → Done (migration_files entries) (run_migrations execute entries links d)
  unfolding run_migrations after_create Done
  run_migrations-Done entries links d = created (migration_files entries) (links 0)
    where
      created :
          (fs : List Entry) (l : Link)
          → Done fs (
              after_create execute links fs
                (run_query (query (λ d. rows tt (create_table execute d))) l d))
      created fs steady = from_applied-Done links fs (create_table execute d) (links 1) refl
      created fs (breaks zero) = tt
      created fs (breaks (suc n)) =
          from_applied-Done links fs (create_table execute d) (links 1) refl
      created fs (unanswered zero) = tt
      created fs (unanswered (suc n)) =
          from_applied-Done links fs (create_table execute d) (links 1) refl

  -- After a run that ended well, a second run over the same directory and a connection that holds for
  -- its first two statements ends well and changes nothing, whatever its connections do after that.
  pub rerun_changes_nothing :
      (entries : List Entry) (links again : ℕ → Link) (d d' : Db D)
      → run_migrations execute entries links d ≡ (ok tt, d')
      → again 0 ≡ steady
      → again 1 ≡ steady
      → run_migrations execute entries again d' ≡ (ok tt, d')
  unfolding run_migrations after_create from_applied Done
  rerun_changes_nothing entries links again d d' ran first second =
      second_run (rw ran at (run_migrations-Done entries links d))
    where
      second_run :
          Done (migration_files entries) (ok tt, d')
          → run_migrations execute entries again d' ≡ (ok tt, d')
      second_run k =
          rw
            (
              first,
              second,
              run_files_applied (names d') again 2 (migration_files entries)
                  (create_table execute d') k.0,
              sym k.1,
            )
            refl
