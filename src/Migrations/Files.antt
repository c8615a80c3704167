-- ===== src/Migrations/Files.antt =====
-- How one file of migrations is applied.
use technical_assignment.Common.Robust.{
  IsRobust, robust_rules, LostOrSteady, run_tx-LostOrSteady, bind-IsRobust, query-IsRobust,
}
use technical_assignment.Migrations.Sql.{statements}
use technical_assignment.Common.{
  ◌≡◌, refl, inl, inr, Bool-cases, Answer, List, ℕ, Link, steady, All, done, ◌∷◌, true, [], finish,
  Result, continue, Option, pure, Reply, query, answer, err, commit, failed, ok, some, rows, ◌++◌,
  ◌>>◌, violates,
}
use technical_assignment.Migrations.{
  Text, apply_file, Db, run_sql_block, Entry, applied_names, is_applied, on_schema, record_applied,
  statements,
}

abbrev pub names : {D : Type 0} → Db D → List ℕ
names d = applied_names d.applied

-- Every file of a list is among the names of some table.
abbrev pub AllApplied : {D : Type 0} → List Entry → Db D → Type 0
AllApplied fs d = All (λ f. is_applied (names d) f.name ≡ true) fs

-- Over a steady connection, a file that is applied has its name added, and one that is not changes
-- nothing.
unfoldable pub AppliedTo : {D : Type 0} → Entry → Db D → Result (Unit {0}) × Db D → Type 0
AppliedTo f d (err e, d') = d' ≡ d
AppliedTo f d (ok u, d') = d'.applied ≡ some (names d ++ f.name ∷ [])

-- Where a file is applied and the run goes on, its name has been added.
unfoldable pub IsNamed : {D : Type 0} → Entry → Db D → Result (Unit {0}) × Db D → Type 0
IsNamed f d (err e, d') = Unit
IsNamed f d (ok u, d') = d'.applied ≡ some (names d ++ f.name ∷ [])

module _ {D : Type 0} (execute : Text → D → Answer D (Unit {0})) where
  run_sql_block-IsRobust : (ss : List Text) → IsRobust (run_sql_block execute ss)
  unfolding run_sql_block
  run_sql_block-IsRobust [] = search robust_rules
  run_sql_block-IsRobust (s ∷ ss) =
      bind-IsRobust (query (λ d. on_schema execute (execute s d.schema) d))
        (λ _. run_sql_block execute ss)
        (query-IsRobust (λ d. on_schema execute (execute s d.schema) d))
        (λ _. run_sql_block-IsRobust ss)

  -- A file is applied as over a steady connection, or the run fails and the database is as before, or
  -- it fails for the answer to COMMIT alone.
  pub apply_file_atomic :
      (f : Entry) (l : Link) (d : Db D)
      → LostOrSteady (apply_file execute f l d) (apply_file execute f steady d) d
  unfolding apply_file
  apply_file_atomic f l d =
      run_tx-LostOrSteady _ l d (search (robust_rules, run_sql_block-IsRobust))

  -- The statements of a file leave the names alone.
  Kept : Option (List ℕ) → Reply (Db D) (Unit {0}) → Type 0
  Kept ns (done u l d') = (d'.applied ≡ ns) × (l ≡ steady)
  Kept ns (failed e l) = Unit

  block_keeps : (ss : List Text) (d : Db D) → Kept d.applied (run_sql_block execute ss steady d)
  unfolding run_sql_block Kept
  block_keeps [] d = (refl, refl)
  block_keeps (s ∷ ss) d =
      after (λ s'. block_keeps ss (record d { schema = s' })) (execute s d.schema)
    where
      after :
          ((s' : D) → Kept d.applied (run_sql_block execute ss steady (record d { schema = s' })))
          → (x : Answer D (Unit {0}))
          → Kept d.applied
              (continue (λ _. run_sql_block execute ss) (answer steady (on_schema execute x d)))
      after k (rows u s') = k s'
      after k (violates e) = tt

  pub apply_file-steady : (f : Entry) (d : Db D) → AppliedTo f d (apply_file execute f steady d)
  unfolding apply_file AppliedTo Kept
  apply_file-steady f d =
      recorded (run_sql_block execute (statements f.text) steady d)
        (block_keeps (statements f.text) d)
    where
      named :
          (d' : Db D)
          → d'.applied ≡ d.applied
          → AppliedTo f d (
              finish d (
                continue
                  (λ _. pure (commit tt))
                  (answer steady (record_applied execute f.name d'))))
      named d' e = elim (Bool-cases (is_applied (applied_names d.applied) f.name)) [
        | inl old ↦ rw (e, old) refl
        | inr new ↦ rw (e, new) refl
      ]

      recorded :
          (r : Reply (Db D) (Unit {0}))
          → Kept d.applied r
          → AppliedTo f d (
              finish d
                (continue (λ _. query (record_applied execute f.name) >> pure (commit tt)) r))
      recorded (failed e l) k = refl
      recorded (done u l d') k = rw k.1 (named d' k.0)

  pub apply_file-IsNamed :
      (f : Entry) (l : Link) (d : Db D) → IsNamed f d (apply_file execute f l d)
  unfolding IsNamed AppliedTo
  apply_file-IsNamed f l d =
      by_link (apply_file execute f l d) (apply_file execute f steady d) (apply_file_atomic f l d)
        (apply_file-steady f d)
    where
      by_link :
          (r s : Result (Unit {0}) × Db D) → LostOrSteady r s d → AppliedTo f d s → IsNamed f d r
      by_link (err e, d') s k a = tt
      by_link (ok u, d') s (inl k) a = absurd (cc)
      by_link (ok u, d') s (inr (inl k)) a = absurd (cc)
      by_link (ok u, d') s (inr (inr k)) a = rw (← k) at a
