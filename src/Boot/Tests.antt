-- ===== src/Boot/Tests.antt =====
-- The seat service starts with one migration to apply.
use technical_assignment.Migrations.Files.{AllApplied}
use technical_assignment.Rabbit.Connection.{connect, do_connect, dial}
use technical_assignment.Migrations.Sql.{statements}
use technical_assignment.Config.{base_env, jwt_env, positive_int, min_text, secret, one_of}
use technical_assignment.Config.Services.{parse_seat_env}
use technical_assignment.Config.Sample.{digit, process_env}
use technical_assignment.Boot.{
  boot, World, [], Answer, Entry, boot_seat, Worker, parse_seat_env, seat_app, hold_sweeper, none,
  some, outbox_worker, event_consumer, run_migrations, connect, listening,
}
use technical_assignment.Boot.Ready.{
  is_configured, is_connected, workers_of, listens_only_when_ready,
}
use technical_assignment.Migrations.{Db, Entry, migration_files, run_migrations}
use technical_assignment.Common.{
  refl, List, Text, steady, [], Answer, ◌∷◌, true, rows, some, none, ◌++◌, ◌≡◌, text_eq,
}

abbrev remember : Text → List Text → Answer (List Text) (Unit {0})
remember s d = rows tt (d ++ s ∷ [])

abbrev directory : List Entry
directory = record { name = 1; is_sql = true; text = 97 ∷ [] } ∷ []

abbrev empty_db : Db (List Text)
empty_db = record { schema = []; applied = none }

abbrev migrated_db : Db (List Text)
migrated_db = record { schema = (97 ∷ []) ∷ []; applied = some (1 ∷ []) }

abbrev calm : World
calm = record {
  links = λ i. steady;
  pool_ends = true;
  hashes = true;
  creates = true;
  weather = record { answers = λ n. true; opens = true; declares = true };
  consumes = true;
  listens = true;
}

abbrev running : List Worker
running = hold_sweeper ∷ outbox_worker ∷ event_consumer ∷ []

seat_starts :
    boot remember digit seat_app process_env directory calm empty_db
    ≡ (listening running, migrated_db)
unfolding boot boot_seat parse_seat_env base_env jwt_env positive_int min_text secret one_of text_eq
    run_migrations statements connect do_connect dial
seat_starts = refl

listens_only_when_ready_example :
    (is_configured digit seat_app process_env ≡ true)
    × AllApplied (migration_files directory) migrated_db
    × (is_connected seat_app calm ≡ true)
    × (running ≡ workers_of seat_app)
listens_only_when_ready_example =
    listens_only_when_ready remember digit directory calm empty_db migrated_db running seat_app
      process_env seat_starts
