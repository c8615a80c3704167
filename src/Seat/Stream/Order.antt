-- ===== src/Seat/Stream/Order.antt =====
-- What one subscriber is sent.
use mathlib.Core.List.{append-nil, append_assoc, List, ◌∷◌, []}
use technical_assignment.Seat.Bus.{emit}
use technical_assignment.Seat.Stream.{
  Frame, hello, ping, changed, Server, start, send, Event, subscribes, emits, elapses, unsubscribes,
  step, run,
}
use technical_assignment.Common.{
  ℕ, Bool, List, count_where, ◌≡◌, false, Bool-cases, if◌then◌else◌, ◌==◌, arith, true, one_if, [],
  refl, inl, ◌++◌, ==_refl, ◌∙◌, sym, ◌&&◌, ==_iff, count_where-append, inr, select, not,
}

-- Whether `n` is subscribed after an event, given whether it was.
abbrev live_after : ℕ → Bool → Event → Bool
live_after n live (subscribes m at) = if m == n then true else live
live_after n live (emits e) = live
live_after n live (elapses m at) = live
live_after n live (unsubscribes m) = if m == n then false else live

-- What it is sent on an event.
abbrev sent_on : ℕ → Bool → Event → List Frame
sent_on n live (subscribes m at) = if m == n then hello at ∷ [] else []
sent_on n live (emits e) = if live then changed e ∷ [] else []
sent_on n live (elapses m at) = if (m == n) && live then ping at ∷ [] else []
sent_on n live (unsubscribes m) = []

-- The stream of subscriber `n`, told from the events alone.
abbrev pub stream_of : ℕ → Bool → List Event → List Frame
stream_of n live [] = []
stream_of n live (e ∷ es) = sent_on n live e ++ stream_of n (live_after n live e) es

-- A subscriber that is subscribed does not subscribe again.
abbrev IsTimely : ℕ → Bool → Event → Type 0
IsTimely n live (subscribes m at) = (m == n) ≡ true → live ≡ false
IsTimely n live (emits e) = Unit
IsTimely n live (elapses m at) = Unit
IsTimely n live (unsubscribes m) = Unit

abbrev pub AreTimely : ℕ → Bool → List Event → Type 0
AreTimely n live [] = Unit
AreTimely n live (e ∷ es) = IsTimely n live e × AreTimely n (live_after n live e) es

send-other : (x : Frame) (n m : ℕ) (f : ℕ → List Frame) → (n == m) ≡ false → send x m f n ≡ f n
unfolding send
send-other x n m f apart = rw apart refl

send-own : (x : Frame) (n : ℕ) (f : ℕ → List Frame) → send x n f n ≡ f n ++ x ∷ []
unfolding send
send-own x n f = rw (==_refl n) refl

emit-absent :
    (x : Frame) (n : ℕ) (ns : List ℕ) (f : ℕ → List Frame)
    → count_where (λ m. m == n) ns ≡ 0
    → emit (send x) ns f n ≡ f n
unfolding emit
emit-absent x n [] f none_here = refl
emit-absent x n (m ∷ ns) f none_here =
    let apart : (n == m) ≡ false = ground (arith, none_here) in
    let rest = emit-absent x n ns (send x m f) (ground (arith, none_here)) in
    rest ∙ send-other x n m f apart

emit-once :
    (x : Frame) (n : ℕ) (ns : List ℕ) (f : ℕ → List Frame)
    → count_where (λ m. m == n) ns ≡ 1
    → emit (send x) ns f n ≡ f n ++ x ∷ []
unfolding emit
emit-once x n [] f one = absurd (omega (arith, one))
emit-once x n (m ∷ ns) f one = elim (Bool-cases (m == n)) [
  | inl same ↦
      let is : m ≡ n = (==_iff m n).0 same in
      let none_later : count_where (λ k. k == n) ns ≡ 0 = ground (arith, one, same) in
      emit-absent x n ns (send x m f) none_later ∙ (rw is (send-own x n f))
  | inr other ↦
      let apart : (n == m) ≡ false = ground (arith, other) in
      let one_later : count_where (λ k. k == n) ns ≡ 1 = ground (arith, one, other) in
      emit-once x n ns (send x m f) one_later ∙ (rw (send-other x n m f apart) refl)
]

-- How the server stands to a subscriber.
record Serves (n : ℕ) (live : Bool) (s : Server) : Type 0 where
  listed : count_where (λ m. m == n) s.listeners ≡ one_if live
  beats : s.beating n ≡ live

step-Serves :
    (n : ℕ) (live : Bool) (e : Event) (s : Server)
    → IsTimely n live e
    → Serves n live s
    → Serves n (live_after n live e) (step e s)
unfolding step
step-Serves n live (subscribes m at) s timely v = elim (Bool-cases (m == n)) [
  | inl same ↦
      let idle = timely same in
      let is : n ≡ m = sym ((==_iff m n).0 same) in
      rw same (record {
        listed =
            count_where-append (λ k. k == n) s.listeners (m ∷ [])
            ∙ ground (arith, same, v.listed, idle);
        beats = rw (is, ==_refl m) refl;
      })
  | inr other ↦
      let apart : (n == m) ≡ false = ground (arith, other) in
      rw other (record {
        listed =
            count_where-append (λ k. k == n) s.listeners (m ∷ []) ∙ ground (arith, other, v.listed);
        beats = rw apart v.beats;
      })
]
step-Serves n live (emits e) s timely v = record { listed = v.listed; beats = v.beats }
step-Serves n live (elapses m at) s timely v = record { listed = v.listed; beats = v.beats }
step-Serves n live (unsubscribes m) s timely v = elim (Bool-cases (m == n)) [
  | inl same ↦
      let is : m ≡ n = (==_iff m n).0 same in
      rw same (record { listed = rw is (gone s.listeners); beats = rw (is, ==_refl n) refl })
  | inr other ↦
      let apart : (n == m) ≡ false = ground (arith, other) in
      rw other (record { listed = stay s.listeners apart ∙ v.listed; beats = rw apart v.beats })
]
  where
    gone : (ns : List ℕ) → count_where (λ k. k == n) (select (λ k. not (k == n)) ns) ≡ 0
    gone [] = refl
    gone (k ∷ ns) = ground (arith, gone ns)

    stay :
        (ns : List ℕ)
        → (n == m) ≡ false
        → count_where (λ k. k == n) (select (λ k. not (k == m)) ns) ≡ count_where (λ k. k == n) ns
    stay [] apart = refl
    stay (k ∷ ns) apart = ground (arith, apart, stay ns apart)

step-frames :
    (n : ℕ) (live : Bool) (e : Event) (s : Server)
    → Serves n live s
    → (step e s).frames n ≡ s.frames n ++ sent_on n live e
unfolding step
step-frames n live (subscribes m at) s v = elim (Bool-cases (m == n)) [
  | inl same ↦
      let is : m ≡ n = (==_iff m n).0 same in rw (is, ==_refl n) (send-own (hello at) n s.frames)
  | inr other ↦
      let apart : (n == m) ≡ false = ground (arith, other) in
      rw (other, append-nil (s.frames n)) (send-other (hello at) n m s.frames apart)
]
step-frames n true (emits e) s v = emit-once (changed e) n s.listeners s.frames v.listed
step-frames n false (emits e) s v =
    emit-absent (changed e) n s.listeners s.frames v.listed ∙ sym (append-nil (s.frames n))
step-frames n live (elapses m at) s v = elim (Bool-cases (m == n)) [
  | inl same ↦ let is : m ≡ n = (==_iff m n).0 same in rw (is, ==_refl n, v.beats) (own live)
  | inr other ↦
      let apart : (n == m) ≡ false = ground (arith, other) in
      rw (other, append-nil (s.frames n))
        (elim (Bool-cases (s.beating m)) [
          | inl on ↦ rw on (send-other (ping at) n m s.frames apart)
          | inr off ↦ rw off refl
        ])
]
  where
    own :
        (b : Bool)
        → (if b then send (ping at) n s.frames else s.frames) n
          ≡ s.frames n ++ (if b then ping at ∷ [] else [])
    own true = send-own (ping at) n s.frames
    own false = sym (append-nil (s.frames n))
step-frames n live (unsubscribes m) s v = sym (append-nil (s.frames n))

run-stream_of :
    (n : ℕ) (live : Bool) (es : List Event) (s : Server)
    → AreTimely n live es
    → Serves n live s
    → (run es s).frames n ≡ s.frames n ++ stream_of n live es
unfolding run
run-stream_of n live [] s timely v = sym (append-nil (s.frames n))
run-stream_of n live (e ∷ es) s timely v =
    run-stream_of n (live_after n live e) es (step e s) timely.1 (step-Serves n live e s timely.0 v)
    ∙ rw (step-frames n live e s v)
        (append_assoc (s.frames n) (sent_on n live e) (stream_of n (live_after n live e) es))

-- From a start without subscribers, whatever is emitted and whoever comes and goes, a client that
-- never subscribes while it is subscribed has been sent, in order, a hello whenever it subscribed,
-- every event that was emitted on the bus while it was subscribed and a ping each time its interval
-- was over, and nothing else: what the others do makes no difference.
pub stream_in_order :
    (n : ℕ) (es : List Event)
    → AreTimely n false es
    → (run es start).frames n ≡ stream_of n false es
stream_in_order n es timely =
    run-stream_of n false es start timely (record { listed = refl; beats = refl })
