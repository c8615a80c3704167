-- ===== src/Boot/Ready.antt =====
-- What is ready when a service serves requests.
use technical_assignment.Migrations.Files.{AllApplied}
use technical_assignment.Config.Services.{
  SeatEnv, parse_seat_env, parse_payment_env, parse_auth_env, PaymentEnv, AuthEnv,
}
use technical_assignment.Config.{Number, ProcessEnv}
use technical_assignment.Rabbit.Connection.{connect, init}
use technical_assignment.Migrations.Reruns.{Done, run_migrations-Done}
use technical_assignment.Boot.{
  auth_app, payment_app, if_migrated, with_consumer, start_seat, start_payment, start_auth, World,
  Worker, Shell, listening, exited, App, Option, Number, SeatEnv, Bool, hold_sweeper, ProcessEnv,
  parse_seat_env, seat_app, outbox_worker, parse_payment_env, payment_app, event_consumer,
  parse_auth_env, [], webhook_reprocessor, AuthEnv, PaymentEnv, boot, boot_seat, boot_payment,
  boot_auth,
}
use technical_assignment.Migrations.{Db, Entry, run_migrations, migration_files}
use technical_assignment.Common.{
  Text, Answer, List, ◌≡◌, true, Bool-cases, if◌then◌else◌, inl, inr, arith, Result, err, ◌&&◌, ap,
  ok, Option, Bool, false, ◌∷◌, some, none, [], refl,
}

module _ {D : Type 0} (execute : Text → D → Answer D (Unit {0})) where
  -- The migrations are all applied, and the rest of the start has gone through.
  if_migrated-listening :
      (entries : List Entry) (w : World) (shell : Shell) (d d' : Db D) {ws : List Worker}
      → if_migrated w shell (run_migrations execute entries w.links d) ≡ (listening ws, d')
      → AllApplied (migration_files entries) d' × (shell ≡ listening ws)
  unfolding if_migrated Done
  if_migrated-listening entries w shell d d' =
      go (run_migrations execute entries w.links d) (run_migrations-Done execute entries w.links d)
    where
      exited_silent : {ws : List Worker} → exited ≡ listening ws → ⊥
      exited_silent e = absurd (cc)

      pool_ended :
          {ws : List Worker}
          → (if w.pool_ends then shell else exited) ≡ listening ws
          → shell ≡ listening ws
      pool_ended e = elim (Bool-cases w.pool_ends) [
        | inl good ↦ rw good at e
        | inr bad ↦ absurd (exited_silent (rw bad at e))
      ]

      go :
          {ws : List Worker} (r : Result (Unit {0}) × Db D)
          → Done execute (migration_files entries) r
          → if_migrated w shell r ≡ (listening ws, d')
          → AllApplied (migration_files entries) d' × (shell ≡ listening ws)
      go (err e, f) k h = absurd (exited_silent (ap (λ x. x.0) h))
      go (ok u, f) k h =
          let same : f ≡ d' = ap (λ x. x.1) h in (rw same at k.0, pool_ended (ap (λ x. x.0) h))

with_consumer-listening :
    (w : World) (vs : List Worker) {ws : List Worker}
    → with_consumer w vs ≡ listening ws
    → ((connect w.weather init).0 ≡ true) × (ws ≡ vs)
unfolding with_consumer
with_consumer-listening w vs h = elim (Bool-cases (connect w.weather init).0) [
  | inr bad ↦ absurd (ground (arith, h, bad))
  | inl good ↦ elim (Bool-cases (w.consumes && w.listens)) [
    | inr bad ↦ absurd (ground (arith, h, good, bad))
    | inl free ↦ (good, ground (arith, h, good, free))
  ]
]

-- The workers that a service is to run.
abbrev pub workers_of : App → List Worker
workers_of seat_app = hold_sweeper ∷ outbox_worker ∷ event_consumer ∷ []
workers_of payment_app = outbox_worker ∷ webhook_reprocessor ∷ event_consumer ∷ []
workers_of auth_app = []

abbrev is_some : {A : Type 0} → Option A → Bool
is_some none = false
is_some (some a) = true

-- Whether the environment of a service passes its schema.
abbrev pub is_configured : (Text → Number) → App → ProcessEnv → Bool
is_configured number seat_app env = is_some (parse_seat_env number env)
is_configured number payment_app env = is_some (parse_payment_env number env)
is_configured number auth_app env = is_some (parse_auth_env number env)

-- The authentication service has no broker.
abbrev pub is_connected : App → World → Bool
is_connected seat_app w = (connect w.weather init).0
is_connected payment_app w = (connect w.weather init).0
is_connected auth_app w = true

module _ {D : Type 0} (execute : Text → D → Answer D (Unit {0})) (number : Text → Number)
    (entries : List Entry) (w : World) (d d' : Db D) (ws : List Worker) where
  abbrev IsReady : Bool → Bool → List Worker → Type 0
  IsReady configured connected vs =
      (configured ≡ true) × AllApplied (migration_files entries) d' × (connected ≡ true) × (ws ≡ vs)

  created :
      (shell : Shell) → (if w.creates then shell else exited) ≡ listening ws → shell ≡ listening ws
  created shell e = elim (Bool-cases w.creates) [
    | inl good ↦ rw good at e
    | inr bad ↦ absurd (ground (arith, e, bad))
  ]

  with_workers :
      (vs : List Worker)
      → if_migrated w
          (if w.creates then with_consumer w vs else exited)
          (run_migrations execute entries w.links d)
        ≡ (listening ws, d')
      → IsReady true (connect w.weather init).0 vs
  with_workers vs h =
      let (applied, e) = if_migrated-listening execute entries w _ d d' h in
      let (linked, same) = with_consumer-listening w vs (created (with_consumer w vs) e) in
      (refl, applied, linked, same)

  seat-IsReady :
      (env : Option SeatEnv)
      → start_seat execute number entries w d env ≡ (listening ws, d')
      → IsReady (is_some env) (connect w.weather init).0 (workers_of seat_app)
  unfolding start_seat
  seat-IsReady none h = absurd (cc)
  seat-IsReady (some e) h = with_workers (workers_of seat_app) h

  payment-IsReady :
      (env : Option PaymentEnv)
      → start_payment execute number entries w d env ≡ (listening ws, d')
      → IsReady (is_some env) (connect w.weather init).0 (workers_of payment_app)
  unfolding start_payment
  payment-IsReady none h = absurd (cc)
  payment-IsReady (some e) h = with_workers (workers_of payment_app) h

  auth-IsReady :
      (env : Option AuthEnv)
      → start_auth execute number entries w d env ≡ (listening ws, d')
      → IsReady (is_some env) true []
  unfolding start_auth
  auth-IsReady none h = absurd (cc)
  auth-IsReady (some e) h =
      let (applied, k) = if_migrated-listening execute entries w _ d d' h in
      (refl, applied, refl, serving k)
    where
      serving :
          (if w.hashes && (w.creates && w.listens) then listening [] else exited) ≡ listening ws
          → ws ≡ []
      serving k = elim (Bool-cases (w.hashes && (w.creates && w.listens))) [
        | inl good ↦ ground (arith, k, good)
        | inr bad ↦ absurd (ground (arith, k, bad))
      ]

  -- A service that listens has an environment that its schema takes, has all the migrations of its
  -- directory applied, is connected to the broker if it uses one, and runs all its workers.
  pub listens_only_when_ready :
      (app : App) (env : ProcessEnv)
      → boot execute number app env entries w d ≡ (listening ws, d')
      → (is_configured number app env ≡ true)
        × AllApplied (migration_files entries) d'
        × (is_connected app w ≡ true)
        × (ws ≡ workers_of app)
  unfolding boot boot_seat boot_payment boot_auth
  listens_only_when_ready seat_app env h = seat-IsReady (parse_seat_env number env) h
  listens_only_when_ready payment_app env h = payment-IsReady (parse_payment_env number env) h
  listens_only_when_ready auth_app env h = auth-IsReady (parse_auth_env number env) h
