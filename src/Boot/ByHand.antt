-- ===== src/Boot/ByHand.antt =====
-- `npm run migrate`: the end of apps/auth/src/migrations/run.ts, apps/payment/src/migrations/run.ts and
-- apps/seat-reservation/src/migrations/run.ts, which runs where the file is the script of the process.
-- An error that is thrown ends the process with another code than 0.
use technical_assignment.Migrations.{Db, Entry, run_migrations}
use technical_assignment.Config.{ProcessEnv}
use technical_assignment.Common.{
  refl, ◌≡◌, ℕ, List, Text, Link, Answer, Bool, false, Option, some, none, if◌then◌else◌, Result,
  ok, err, ◌≡◌,
}

-- What the pool is given, the port as it stands in the environment.
pub record PoolEnv : Type 0 where
  pub host : Text
  pub port : Text
  pub user : Text
  pub password : Text
  pub database : Text

-- z.coerce.number(): `is_number` says whether `Number` of a text is a number and not NaN, which it is
-- of a variable that is not set.
port_of : (Text → Bool) → Option Text → Option Text
port_of is_number none = none
port_of is_number (some t) = if is_number t then some t else none

all_set : Option Text → Option Text → Option Text → Option Text → Option Text → Option PoolEnv
all_set (some h) (some p) (some u) (some w) (some d) =
    some (record { host = h; port = p; user = u; password = w; database = d })
all_set (some h) (some p) (some u) (some w) none = none
all_set (some h) (some p) (some u) none d = none
all_set (some h) (some p) none w d = none
all_set (some h) none u w d = none
all_set none p u w d = none

unfoldable pub parse_pool_env : (Text → Bool) → ProcessEnv → Option PoolEnv
unfolding port_of all_set
parse_pool_env is_number env =
    all_set env.postgres_host (port_of is_number env.postgres_port) env.postgres_user
      env.postgres_password env.postgres_db

abbrev pub after_migrations : {D : Type 0} → Bool → Result (Unit {0}) × Db D → Bool × Db D
after_migrations pool_ends (ok u, d) = (pool_ends, d)
after_migrations pool_ends (err e, d) = (false, d)

pub after_migrations-db :
    {D : Type 0} (pool_ends : Bool) (r : Result (Unit {0}) × Db D)
    → (after_migrations pool_ends r).1 ≡ r.1
after_migrations-db pool_ends (ok u, d) = refl
after_migrations-db pool_ends (err e, d) = refl

module _ {D : Type 0} (execute : Text → D → Answer D (Unit {0})) (is_number : Text → Bool) where
  with_env : List Entry → (ℕ → Link) → Bool → Db D → Option PoolEnv → Bool × Db D
  with_env entries links pool_ends d none = (false, d)
  with_env entries links pool_ends d (some env) =
      after_migrations pool_ends (run_migrations execute entries links d)

  -- Whether the process ends with code 0, and the database after it.
  unfoldable pub by_hand : ProcessEnv → List Entry → (ℕ → Link) → Bool → Db D → Bool × Db D
  unfolding with_env
  by_hand env entries links pool_ends d =
      with_env entries links pool_ends d (parse_pool_env is_number env)
