-- ===== src/Rabbit/Connection.antt =====
-- `RabbitService.connect`, `doConnect`, `publish` and `consume` of
-- apps/seat-reservation/src/events/rabbit.service.ts; those of the payment service differ in the
-- declarations only. What `amqplib` answers is an argument. The wrapper never looks at the connection
-- again once it has it.
pub mod Stuck
pub mod Probe
use technical_assignment.Contracts.{Settlement, no_message, requeued}
use technical_assignment.Common.{
  ℕ, zero, suc, ◌+◌, ◌*◌, Bool, true, false, Option, none, some, if◌then◌else◌, leb,
}

-- The field `connecting`: null, or a promise and what has become of it.
pub data Connecting : Type 0 where
  not_yet resolved rejected : Connecting

pub record Rabbit : Type 0 where
  pub conn : Bool
  pub pub_channel : Bool
  pub connecting : Connecting

abbrev pub init : Rabbit
init = record { conn = false; pub_channel = false; connecting = not_yet }

-- How the loop over `amqp.connect` ends: connected, or the last error thrown on, after some
-- attempts and some milliseconds of waiting; `out_of_fuel` is none of the code's.
pub data Dialled : Type 0 where
  connected gave_up : (attempts waited : ℕ) → Dialled
  out_of_fuel : Dialled

-- The loop from an attempt on; `answers attempt` says whether `amqp.connect` resolves.
unfoldable pub dial : ℕ → (ℕ → Bool) → ℕ → ℕ → Dialled
dial zero answers attempt waited = out_of_fuel
dial (suc fuel) answers attempt waited =
    let rest = dial fuel answers (suc attempt) (waited + 2000 * attempt) in
    if answers attempt
    then connected attempt waited
    else if leb 10 attempt
    then gave_up attempt waited
    else rest

-- What the broker does during one call: its answers to `amqp.connect`, whether the confirm channel
-- opens, and whether the declarations after it succeed.
pub record Weather : Type 0 where
  pub answers : ℕ → Bool
  pub opens : Bool
  pub declares : Bool

after_dial : Weather → Rabbit → Dialled → Bool × Rabbit
after_dial w r (connected n t) =
    if w.opens
    then (if w.declares
        then (true, record { conn = true; pub_channel = true; connecting = resolved })
        else (false, record { conn = true; pub_channel = true; connecting = rejected }))
    else (false, record { conn = true; pub_channel = r.pub_channel; connecting = rejected })
after_dial w r (gave_up n t) = (false, record r { connecting = rejected })
after_dial w r out_of_fuel = (false, r)

-- doConnect, awaited: whether it resolves, and the service after it. The loop has ten rounds at most.
unfoldable pub do_connect : Weather → Rabbit → Bool × Rabbit
unfolding after_dial dial
do_connect w r = after_dial w r (dial 10 w.answers 1 0)

await_connecting : Weather → Rabbit → Connecting → Bool × Rabbit
unfolding do_connect
await_connecting w r not_yet = do_connect w r
await_connecting w r resolved = (true, r)
await_connecting w r rejected = (false, r)

-- connect: whether the promise that it returns resolves.
unfoldable pub connect : Weather → Rabbit → Bool × Rabbit
unfolding await_connecting
connect w r = if r.conn then (true, r) else await_connecting w r r.connecting

-- What `publish` comes to: true on ack, false on nack, or an exception, from `connect` or from the
-- channel that is null.
pub data Published : Type 0 where
  acked nacked threw : Published

send : Bool → Bool × Rabbit → Published × Rabbit
send confirms (false, r) = (threw, r)
send confirms (true, r) =
    if r.pub_channel then (if confirms then acked else nacked, r) else (threw, r)

unfoldable pub publish : Weather → Bool → Rabbit → Published × Rabbit
unfolding send connect
publish w confirms r =
    if r.pub_channel then send confirms (true, r) else send confirms (connect w r)

-- The callback of `consume`: no message is passed over, and a handler that throws has its message
-- requeued.
unfoldable pub on_delivery : {M : Type 0} → (M → Option Settlement) → Option M → Settlement
on_delivery handler none = no_message
on_delivery handler (some m) = elim (handler m) [ none ↦ requeued | some s ↦ s ]
