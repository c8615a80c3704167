-- ===== src/Seat/Tests/Streams.antt =====
-- Two subscribers of the stream, of which one goes away.
use technical_assignment.Seat.Bus.{held_now, released_now}
use technical_assignment.Seat.Stream.{
  Event, subscribes, emits, elapses, unsubscribes, hello, ping, changed, run, start,
}
use technical_assignment.Seat.Stream.Order.{stream_in_order}
use technical_assignment.Common.{List, [], ◌∷◌, ◌≡◌, refl}

abbrev events : List Event
events =
    emits (released_now 9)
    ∷ subscribes 1 100
    ∷ emits (held_now 4 7 900)
    ∷ subscribes 2 200
    ∷ elapses 1 25100
    ∷ unsubscribes 2
    ∷ emits (released_now 4)
    ∷ elapses 2 25200
    ∷ []

stream_in_order_example :
    (run events start).frames 1
    ≡ hello 100 ∷ changed (held_now 4 7 900) ∷ ping 25100 ∷ changed (released_now 4) ∷ []
stream_in_order_example =
    stream_in_order 1 events
      (tt, ((λ e. refl), (tt, ((λ e. absurd (cc)), (tt, (tt, (tt, (tt, tt))))))))
