-- ===== src/Boot/SameSchema.antt =====
-- What the start of a service and the script that runs its migrations by hand have in common.
use technical_assignment.Boot.{
  World, Shell, boot, App, seat_app, payment_app, auth_app, exited, boot_seat, boot_payment,
  boot_auth, if_migrated,
}
use technical_assignment.Boot.ByHand.{by_hand, parse_pool_env, PoolEnv, after_migrations-db}
use technical_assignment.Config.{Number, ProcessEnv}
use technical_assignment.Config.Services.{parse_auth_env, parse_payment_env, parse_seat_env}
use technical_assignment.Migrations.{Db, Entry, run_migrations}
use technical_assignment.Common.{
  List, Text, Answer, Bool, some, ◌≡◌, refl, Result, ok, err, Option-cases, inl, inr, ◌⊎◌,
}

if_migrated-db :
    {D : Type 0} (w : World) (shell : Shell) (r : Result (Unit {0}) × Db D)
    → (if_migrated w shell r).1 ≡ r.1
unfolding if_migrated
if_migrated-db w shell (ok u, d) = refl
if_migrated-db w shell (err e, d) = refl

by_hand-db :
    {D : Type 0} (execute : Text → D → Answer D (Unit {0})) (is_number : Text → Bool)
    (env : ProcessEnv) (entries : List Entry) (w : World) (d : Db D) {pool : PoolEnv}
    → parse_pool_env is_number env ≡ some pool
    → (by_hand execute is_number env entries w.links w.pool_ends d).1
      ≡ (run_migrations execute entries w.links d).1
unfolding by_hand
by_hand-db execute is_number env entries w d parsed =
    rw parsed (after_migrations-db w.pool_ends (run_migrations execute entries w.links d))

-- Where the script has the variables that it asks for, it leaves the same database as the start of a
-- service with the same directory and connections, if the start does not refuse its environment
-- and leave the database as it was.
pub by_hand_like_boot :
    {D : Type 0} (execute : Text → D → Answer D (Unit {0})) (number : Text → Number)
    (is_number : Text → Bool) (app : App) (env : ProcessEnv) (entries : List Entry) (w : World)
    (d : Db D) {pool : PoolEnv}
    → parse_pool_env is_number env ≡ some pool
    → let start = boot execute number app env entries w d in
      (start ≡ (exited, d))
      ⊎ (start.1 ≡ (by_hand execute is_number env entries w.links w.pool_ends d).1)
unfolding boot boot_seat boot_payment boot_auth
by_hand_like_boot execute number is_number seat_app env entries w d parsed =
    rw (by_hand-db execute is_number env entries w d parsed)
      (elim (Option-cases (parse_seat_env number env)) [
        | inl refused ↦ rw refused (inl refl)
        | inr (e, taken) ↦
            rw taken (inr (if_migrated-db w _ (run_migrations execute entries w.links d)))
      ])
by_hand_like_boot execute number is_number payment_app env entries w d parsed =
    rw (by_hand-db execute is_number env entries w d parsed)
      (elim (Option-cases (parse_payment_env number env)) [
        | inl refused ↦ rw refused (inl refl)
        | inr (e, taken) ↦
            rw taken (inr (if_migrated-db w _ (run_migrations execute entries w.links d)))
      ])
by_hand_like_boot execute number is_number auth_app env entries w d parsed =
    rw (by_hand-db execute is_number env entries w d parsed)
      (elim (Option-cases (parse_auth_env number env)) [
        | inl refused ↦ rw refused (inl refl)
        | inr (e, taken) ↦
            rw taken (inr (if_migrated-db w _ (run_migrations execute entries w.links d)))
      ])
