-- ===== src/Rabbit/Tests.antt =====
-- The theorems on the broker's bindings, on a broker that keeps its commands and on a day without one.
use technical_assignment.Rabbit.Connection.Probe.{ready, good, ready_blind}
use technical_assignment.Rabbit.Connection.Stuck.{EndsWell, dial_ends}
use technical_assignment.Rabbit.Topology.{Service, payment_service, seat_service}
use technical_assignment.Rabbit.Connection.{connect, Weather, do_connect, dial, init}
use technical_assignment.Common.{List, ◌==◌, false, true, ◌∷◌, [], ◌≡◌, refl, none}

abbrev starts : List Service
starts = payment_service ∷ seat_service ∷ payment_service ∷ []

dial_ends_example : EndsWell (λ n. n == 3) (dial 10 (λ n. n == 3) 1 0)
dial_ends_example = dial_ends (λ n. n == 3)

abbrev storm : Weather
storm = record { answers = λ n. false; opens = true; declares = true }

abbrev calm : Weather
calm = record { answers = λ n. true; opens = true; declares = true }

ready_blind_example :
    ready true storm (connect calm init).1
    ≡ (record { degraded = false; db = good; redis = none; rabbit = good }, (connect calm init).1)
unfolding connect do_connect dial
ready_blind_example = ready_blind calm storm true refl
