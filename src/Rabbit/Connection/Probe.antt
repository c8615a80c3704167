-- ===== src/Rabbit/Connection/Probe.antt =====
-- `HealthController.ready` of health/health.controller.ts in the three services; those of the seat and
-- the payment service are the same, and ask `RabbitService.connect` for the broker. The version and
-- the probe `live`, which reads the clock only, are left out.
use technical_assignment.Common.{
  true, false, Bool, Option, ◌≡◌, not, true, none, ◌&&◌, some, Bool-cases, inl, arith, inr,
}
use technical_assignment.Rabbit.Connection.{
  Rabbit, Weather, Dialled, connected, gave_up, out_of_fuel, init, connect, do_connect, dial,
  after_dial,
}

pub data Check : Type 0 where
  good fail skip : Check

-- The answer: whether its status is 503, and its `checks`, of which `redis` is not in the answer of
-- a service that has a broker.
pub record Readiness : Type 0 where
  pub degraded : Bool
  pub db : Check
  pub redis : Option Check
  pub rabbit : Check

abbrev check : Bool → Check
check true = good
check false = fail

-- The authentication service: `answers` says whether SELECT 1 does, `pings` whether Redis does.
unfoldable pub ready_auth : Bool → Bool → Readiness
ready_auth answers pings = record {
  degraded = not (answers && pings);
  db = check answers;
  redis = some (check pings);
  rabbit = skip;
}

with_rabbit : Bool → Bool × Rabbit → Readiness × Rabbit
with_rabbit answers (resolves, r) = (
  record {
    degraded = not (answers && resolves);
    db = check answers;
    redis = none;
    rabbit = check resolves;
  },
  r,
)

-- The other two services.
unfoldable pub ready : Bool → Weather → Rabbit → Readiness × Rabbit
unfolding with_rabbit
ready answers w r = with_rabbit answers (connect w r)

-- Once the service has been connected, its ready probe reports the broker as reachable whatever the
-- broker does, and is degraded only if the database does not answer.
pub ready_blind :
    (w w' : Weather) (answers : Bool)
    → (connect w init).0 ≡ true
    → ready answers w' (connect w init).1 ≡ (
      record { degraded = not answers; db = check answers; redis = none; rabbit = good },
      (connect w init).1,
    )
unfolding connect do_connect ready
ready_blind w w' answers linked = from (dial 10 w.answers 1 0) linked
  where
    from :
        (x : Dialled)
        → (after_dial w init x).0 ≡ true
        → ready answers w' (after_dial w init x).1 ≡ (
          record { degraded = not answers; db = check answers; redis = none; rabbit = good },
          (after_dial w init x).1,
        )
    from (connected n t) h = elim (Bool-cases w.opens) [
      | inl opened ↦ elim (Bool-cases w.declares) [
        | inl declared ↦ rw (opened, declared) (ground arith)
        | inr refused ↦ absurd (ground (arith, h, opened, refused))
      ]
      | inr closed ↦ absurd (ground (arith, h, closed))
    ]
    from (gave_up n t) h = absurd (cc)
    from out_of_fuel h = absurd (cc)
