-- ===== src/Seat/Booking.antt =====
-- What the seat service promises of a hall, without its tables: which seat is booked, by whom and
-- until when, and how often it was sold; and in which ways that may change.
pub mod Grants
pub mod Ends
pub mod Sweeps
pub mod Refines
use technical_assignment.Common.{
  List, [], ◌∷◌, ℕ, Option, none, some, Bool, if◌then◌else◌, ◌≡◌, first_row, ◌<◌, count_where, ◌==◌,
  false, select, ◌&&◌, true, ◌+◌, one_if,
}
use technical_assignment.Seat.Db.{Db, HoldRow, HoldStatus, active_on}

pub record Booking : Type 0 where
  pub hold_id : ℕ
  pub user_id : ℕ
  pub held_until : ℕ

pub record Hall : Type 0 where
  pub booked : ℕ → Option Booking
  pub times_sold : ℕ → ℕ

abbrev pub put : ℕ → Option Booking → (ℕ → Option Booking) → ℕ → Option Booking
put seat k f s = if s == seat then k else f s

abbrev pub HasRunOut : ℕ → Option Booking → Type 0
HasRunOut now none = Unit
HasRunOut now (some k) = k.held_until < now

-- What the service is asked to do, with the time at which it does it: a user wants a seat, a booking
-- is to end or has been paid for, or time has passed.
pub data Act : Type 0 where
  requests : (seat user now : ℕ) → Act
  ends pays : (hold_id : ℕ) → Act
  passes : (now : ℕ) → Act
  ignores : Act

-- What may become of the hall by an act. A request books the seat for the user who asks, where its
-- booking has run out by then and the user has booked no other seat; the booking that is to end or
-- was paid for ends; and as time passes those that have run out by then may be taken away together.
pub data Change (a b : Hall) : Act → Type 0 where
  stays : {act : Act} → b ≡ a → Change a b act
  books :
      (seat user now : ℕ) (k : Booking)
      → k.user_id ≡ user
      → HasRunOut now (a.booked seat)
      → ((s : ℕ) (k' : Booking)
          → (s == seat) ≡ false
          → a.booked s ≡ some k'
          → (k'.user_id == user) ≡ false)
      → ((s : ℕ) → b.booked s ≡ put seat (some k) a.booked s)
      → ((s : ℕ) → b.times_sold s ≡ a.times_sold s)
      → Change a b (requests seat user now)
  frees :
      (i seat : ℕ) (k : Booking)
      → k.hold_id ≡ i
      → a.booked seat ≡ some k
      → ((s : ℕ) → b.booked s ≡ put seat none a.booked s)
      → ((s : ℕ) → b.times_sold s ≡ a.times_sold s)
      → Change a b (ends i)
  sells :
      (i seat : ℕ) (k : Booking)
      → k.hold_id ≡ i
      → a.booked seat ≡ some k
      → ((s : ℕ) → b.booked s ≡ put seat none a.booked s)
      → ((s : ℕ) → b.times_sold s ≡ a.times_sold s + one_if (s == seat))
      → Change a b (pays i)
  lapse :
      (now : ℕ) (gone : ℕ → Bool)
      → ((s : ℕ) → gone s ≡ true → (k : Booking) × (a.booked s ≡ some k) × (k.held_until < now))
      → ((s : ℕ) → b.booked s ≡ (if gone s then none else a.booked s))
      → ((s : ℕ) → b.times_sold s ≡ a.times_sold s)
      → Change a b (passes now)

-- The acts stand with the latest first.
pub data Changes (a : Hall) : List Act → Hall → Type 0 where
  here : Changes a [] a
  next :
      {b c : Hall} {act : Act} {acts : List Act}
      → Changes a acts b
      → Change b c act
      → Changes a (act ∷ acts) c

abbrev is_sold : HoldStatus → Bool
is_sold HoldStatus.held = false
is_sold HoldStatus.released = false
is_sold HoldStatus.reserved = true

abbrev pub sold_on : ℕ → HoldRow → Bool
sold_on s h = (h.seat_id == s) && is_sold h.status

abbrev pub booking : Option HoldRow → Option Booking
booking none = none
booking (some h) = some (record { hold_id = h.id; user_id = h.user_id; held_until = h.held_until })

abbrev pub holder : ℕ → Db → Option HoldRow
holder s d = first_row (select (active_on s) d.holds)

-- The hall that the tables stand for.
abbrev pub view : Db → Hall
view d = record {
  booked = λ s. booking (holder s d);
  times_sold = λ s. count_where (sold_on s) d.holds;
}
