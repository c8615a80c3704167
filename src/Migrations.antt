-- ===== src/Migrations.antt =====
-- `runMigrations` of apps/auth/src/migrations/run.ts; those of the other two services are the same.
-- `execute` is what the database makes of a statement of a migration.
mod Tests
pub mod Sql
pub mod Files
pub mod Reruns
pub mod Stops
use technical_assignment.Common.{
  ℕ, Bool, true, false, Option, List, [], ◌∷◌, select, exists_where, if◌then◌else◌, Answer, some,
  leb, Link, violates, ◌==◌, Tx, none, rows, pure, Result, unique_violation, primary_key, run_query,
  run_tx, query, err, ◌++◌, ◌>>◌, ok, commit, suc, Text,
}
use technical_assignment.Migrations.Sql.{statements}

-- An entry of the directory: its name, by its place in the order of names, and what the file holds.
pub record Entry : Type 0 where
  pub name : ℕ
  pub is_sql : Bool
  pub text : Text

-- What the migrations make, and the rows of `_migrations`, if the table is there.
pub record Db (D : Type 0) : Type 0 where
  pub schema : D
  pub applied : Option (List ℕ)

insert_by_name : Entry → List Entry → List Entry
insert_by_name f [] = f ∷ []
insert_by_name f (g ∷ gs) =
    let rest = insert_by_name f gs in if leb f.name g.name then f ∷ g ∷ gs else g ∷ rest

sort_by_name : List Entry → List Entry
unfolding insert_by_name
sort_by_name [] = []
sort_by_name (f ∷ fs) = insert_by_name f (sort_by_name fs)

-- readdirSync(…).filter((f) => f.endsWith('.sql')).sort()
unfoldable pub migration_files : List Entry → List Entry
unfolding sort_by_name
migration_files entries = sort_by_name (select (λ f. f.is_sql) entries)

abbrev pub applied_names : Option (List ℕ) → List ℕ
applied_names none = []
applied_names (some ns) = ns

-- applied.has(filename)
abbrev pub is_applied : List ℕ → ℕ → Bool
is_applied ns n = exists_where (λ m. m == n) ns

module _ {D : Type 0} (execute : Text → D → Answer D (Unit {0})) where
  abbrev on_schema : Answer D (Unit {0}) → Db D → Answer (Db D) (Unit {0})
  on_schema (rows u s) d = rows u (record d { schema = s })
  on_schema (violates e) d = violates e

  unfoldable pub run_sql_block : List Text → Tx (Db D) (Unit {0})
  run_sql_block [] = pure tt
  run_sql_block (s ∷ ss) = query (λ d. on_schema (execute s d.schema) d) >> run_sql_block ss

  -- INSERT INTO _migrations (filename) VALUES ($1)
  abbrev pub record_applied : ℕ → Db D → Answer (Db D) (Unit {0})
  record_applied n d =
      if is_applied (applied_names d.applied) n
      then violates (unique_violation primary_key)
      else rows tt (record d { applied = some (applied_names d.applied ++ n ∷ []) })

  -- One file, from BEGIN to COMMIT or ROLLBACK.
  unfoldable pub apply_file : Entry → Link → Db D → Result (Unit {0}) × Db D
  unfolding run_sql_block
  apply_file f =
      run_tx (do run_sql_block (statements f.text); query (record_applied f.name); pure (commit tt))

  -- The loop; `applied` is the set that was read before it, and `links` gives the connection for each
  -- file in turn.
  unfoldable pub run_files : List ℕ → (ℕ → Link) → ℕ → List Entry → Db D → Result (Unit {0}) × Db D
  unfolding apply_file
  run_files applied links i [] d = (ok tt, d)
  run_files applied links i (f ∷ fs) d =
      let skipped = run_files applied links (suc i) fs d in
      if is_applied applied f.name
      then skipped
      else (let (r, d') = apply_file f (links i) d in
          elim r [ err e ↦ (err e, d') | ok u ↦ run_files applied links (suc i) fs d' ])

  -- CREATE TABLE IF NOT EXISTS _migrations, and SELECT filename FROM _migrations.
  abbrev pub create_table : Db D → Db D
  create_table d = record d { applied = some (applied_names d.applied) }

  unfoldable from_applied :
      (ℕ → Link) → List Entry → Result (List ℕ) × Db D → Result (Unit {0}) × Db D
  unfolding run_files
  from_applied links fs (err e, d) = (err e, d)
  from_applied links fs (ok ns, d) = run_files ns links 2 fs d

  unfoldable after_create :
      (ℕ → Link) → List Entry → Result (Unit {0}) × Db D → Result (Unit {0}) × Db D
  unfolding from_applied
  after_create links fs (err e, d) = (err e, d)
  after_create links fs (ok u, d) =
      from_applied links fs (run_query (query (λ d. rows (applied_names d.applied) d)) (links 1) d)

  unfoldable pub run_migrations : List Entry → (ℕ → Link) → Db D → Result (Unit {0}) × Db D
  unfolding after_create migration_files
  run_migrations entries links d =
      after_create links (migration_files entries)
        (run_query (query (λ d. rows tt (create_table d))) (links 0) d)
