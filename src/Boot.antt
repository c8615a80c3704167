-- ===== src/Boot.antt =====
-- apps/seat-reservation/src/main.ts, apps/payment/src/main.ts and apps/auth/src/main.ts: how a service
-- starts. An error that is thrown on the way ends the process with code 1. What the framework, the
-- pool and the broker answer is an argument; the log, the middleware and the signals are left out.
mod Tests
pub mod Ready
pub mod ByHand
pub mod SameSchema
use technical_assignment.Config.Services.{
  parse_auth_env, parse_payment_env, parse_seat_env, SeatEnv, AuthEnv, PaymentEnv,
}
use technical_assignment.Migrations.{Db, Entry, run_migrations}
use technical_assignment.Config.{Number, ProcessEnv}
use technical_assignment.Rabbit.Connection.{Weather, connect, init}
use technical_assignment.Common.{
  ℕ, Result, List, Text, Link, Answer, Bool, if◌then◌else◌, err, ok, Option, ◌&&◌, some, ◌∷◌, [],
  none,
}

-- The answers of one start: the connections of the migrations, whether their pool ends, whether the
-- dummy hash is made, whether Nest makes the application, the broker, whether the consumer gets its
-- channel and its queue, and whether the port is free.
pub record World : Type 0 where
  pub links : ℕ → Link
  pub pool_ends : Bool
  pub hashes : Bool
  pub creates : Bool
  pub weather : Weather
  pub consumes : Bool
  pub listens : Bool

pub data Worker : Type 0 where
  hold_sweeper outbox_worker webhook_reprocessor event_consumer : Worker

-- A process that serves requests, with what runs beside, or one that has ended.
pub data Shell : Type 0 where
  listening : List Worker → Shell
  exited : Shell

-- await consumer.start(), which connects to the broker, and app.listen
with_consumer : World → List Worker → Shell
with_consumer w ws =
    if (connect w.weather init).0
    then (if w.consumes && w.listens then listening ws else exited)
    else exited

-- What follows the migrations, whose pool is ended whether or not they threw.
if_migrated : {D : Type 0} → World → Shell → Result (Unit {0}) × Db D → Shell × Db D
if_migrated w shell (err e, d) = (exited, d)
if_migrated w shell (ok u, d) = (if w.pool_ends then shell else exited, d)

module _ {D : Type 0} (execute : Text → D → Answer D (Unit {0})) (number : Text → Number) where
  start_seat : List Entry → World → Db D → Option SeatEnv → Shell × Db D
  unfolding if_migrated with_consumer
  start_seat entries w d none = (exited, d)
  start_seat entries w d (some env) =
      if_migrated w
        (if w.creates
          then with_consumer w (hold_sweeper ∷ outbox_worker ∷ event_consumer ∷ [])
          else exited)
        (run_migrations execute entries w.links d)

  start_payment : List Entry → World → Db D → Option PaymentEnv → Shell × Db D
  unfolding if_migrated with_consumer
  start_payment entries w d none = (exited, d)
  start_payment entries w d (some env) =
      if_migrated w
        (if w.creates
          then with_consumer w (outbox_worker ∷ webhook_reprocessor ∷ event_consumer ∷ [])
          else exited)
        (run_migrations execute entries w.links d)

  start_auth : List Entry → World → Db D → Option AuthEnv → Shell × Db D
  unfolding if_migrated
  start_auth entries w d none = (exited, d)
  start_auth entries w d (some env) =
      if_migrated w (if w.hashes && (w.creates && w.listens) then listening [] else exited)
        (run_migrations execute entries w.links d)

  -- bootstrap of the three services, with the migrations and the environment of each.
  unfoldable pub boot_seat : ProcessEnv → List Entry → World → Db D → Shell × Db D
  unfolding start_seat
  boot_seat env entries w d = start_seat entries w d (parse_seat_env number env)

  unfoldable pub boot_payment : ProcessEnv → List Entry → World → Db D → Shell × Db D
  unfolding start_payment
  boot_payment env entries w d = start_payment entries w d (parse_payment_env number env)

  unfoldable pub boot_auth : ProcessEnv → List Entry → World → Db D → Shell × Db D
  unfolding start_auth
  boot_auth env entries w d = start_auth entries w d (parse_auth_env number env)

pub data App : Type 0 where
  seat_app payment_app auth_app : App

-- The main.ts of a service.
unfoldable pub boot :
    {D : Type 0} (execute : Text → D → Answer D (Unit {0})) (number : Text → Number)
    → App
    → ProcessEnv
    → List Entry
    → World
    → Db D
    → Shell × Db D
unfolding boot_seat boot_payment boot_auth
boot execute number seat_app env entries w d = boot_seat execute number env entries w d
boot execute number payment_app env entries w d = boot_payment execute number env entries w d
boot execute number auth_app env entries w d = boot_auth execute number env entries w d
