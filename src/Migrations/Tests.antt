-- ===== src/Migrations/Tests.antt =====
-- The runner on a directory of two files and a database that remembers its statements.
use technical_assignment.Migrations.Reruns.{rerun_changes_nothing}
use technical_assignment.Migrations.Sql.RoundTrip.{statements-render}
use technical_assignment.Migrations.{Db, run_migrations, Entry}
use technical_assignment.Migrations.Sql.{statements}
use technical_assignment.Common.{
  ℕ, Link, List, Text, steady, [], Answer, if◌then◌else◌, ◌∷◌, ◌≡◌, some, none, true, rows, ◌==◌,
  false, breaks, ok, ◌++◌, refl, is_space, trim_end,
}

abbrev remember : Text → List Text → Answer (List Text) (Unit {0})
remember s d = rows tt (d ++ s ∷ [])

-- "a;\nbc"
abbrev first_text : Text
first_text = 97 ∷ 59 ∷ 10 ∷ 98 ∷ 99 ∷ []

abbrev directory : List Entry
directory =
    record { name = 2; is_sql = true; text = 100 ∷ [] }
    ∷ record { name = 1; is_sql = true; text = first_text }
    ∷ record { name = 0; is_sql = false; text = [] }
    ∷ []

abbrev empty_db : Db (List Text)
empty_db = record { schema = []; applied = none }

abbrev migrated_db : Db (List Text)
migrated_db = record {
  schema = (97 ∷ []) ∷ (98 ∷ 99 ∷ []) ∷ (100 ∷ []) ∷ [];
  applied = some (1 ∷ 2 ∷ []);
}

runs_all_files : run_migrations remember directory (λ i. steady) empty_db ≡ (ok tt, migrated_db)
unfolding run_migrations statements
runs_all_files = refl

rerun_changes_nothing_example :
    run_migrations remember directory (λ i. steady) migrated_db ≡ (ok tt, migrated_db)
rerun_changes_nothing_example =
    rerun_changes_nothing remember directory (λ i. steady) (λ i. steady) empty_db migrated_db
      runs_all_files refl refl

-- The connection of the second file breaks.
abbrev torn : ℕ → Link
torn i = if i == 3 then breaks 2 else steady

statements-render_example :
    statements (97 ∷ 59 ∷ 10 ∷ 98 ∷ 99 ∷ 59 ∷ 10 ∷ []) ≡ (97 ∷ []) ∷ (98 ∷ 99 ∷ []) ∷ []
unfolding is_space trim_end
statements-render_example =
    statements-render ((97 ∷ []) ∷ (98 ∷ 99 ∷ []) ∷ [])
      (record { starts = refl; ends = refl }, (record { starts = refl; ends = refl }, tt))
