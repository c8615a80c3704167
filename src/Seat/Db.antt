-- ===== src/Seat/Db.antt =====
-- The database of the seat service, apps/seat-reservation/src/migrations/20240101000000_init.sql,
-- with the row types of holds/holds.repository.ts and seats/seats.repository.ts, and one
-- function for each SQL statement that the service sends.
use Prim.Native.String.{String}
use technical_assignment.Common.{
  ℕ, Bool, true, false, ◌&&◌, Option, some, List, [], ◌∷◌, ◌++◌, ◌==◌, ltb, if◌then◌else◌,
  update_where, exists_where, primary_key, uniq_active_hold_per_seat, uniq_active_hold_per_user,
  unique_violation, foreign_key_violation, Answer, rows, violates,
}
use technical_assignment.Outbox.{Outbox}

pub data HoldStatus : Type 0 where
  held released reserved : HoldStatus

pub record HoldRow : Type 0 where
  pub id : ℕ
  pub seat_id : ℕ
  pub user_id : ℕ
  pub status : HoldStatus
  pub held_until : ℕ
  pub created_at : ℕ
  pub released_at : Option ℕ
  pub reserved_at : Option ℕ

pub data SeatStatus : Type 0 where
  available held reserved : SeatStatus

pub record SeatRow : Type 0 where
  pub id : ℕ
  pub label : String
  pub price_cents : ℕ
  pub currency : String
  pub status : SeatStatus

pub record Consumed : Type 0 where
  pub event_id : ℕ
  pub consumer_group : ℕ

pub record Db : Type 0 where
  pub seats : List SeatRow
  pub holds : List HoldRow
  pub outbox : Outbox
  pub consumed_events : List Consumed

abbrev pub is_held : HoldStatus → Bool
is_held HoldStatus.held = true
is_held HoldStatus.released = false
is_held HoldStatus.reserved = false

-- The WHERE clauses.
abbrev pub active_on : ℕ → HoldRow → Bool
active_on seat h = (h.seat_id == seat) && is_held h.status

abbrev pub active_by : ℕ → HoldRow → Bool
active_by user h = (h.user_id == user) && is_held h.status

abbrev pub active_id : ℕ → HoldRow → Bool
active_id id h = (h.id == id) && is_held h.status

abbrev pub expired_on : ℕ → ℕ → HoldRow → Bool
expired_on seat now h = active_on seat h && ltb h.held_until now

abbrev pub consumed_by : ℕ → ℕ → Consumed → Bool
consumed_by event group c = (c.event_id == event) && (c.consumer_group == group)

-- SET status = 'RELEASED', released_at = NOW()
abbrev pub released_row : ℕ → HoldRow → HoldRow
released_row now h = record h { status = HoldStatus.released; released_at = some now }

-- SET status = 'RESERVED', reserved_at = NOW()
abbrev pub reserved_row : ℕ → HoldRow → HoldRow
reserved_row now h = record h { status = HoldStatus.reserved; reserved_at = some now }

abbrev pub with_status : SeatStatus → SeatRow → SeatRow
with_status st s = record s { status = st }

-- UPDATE seats SET status = … WHERE id = $1
abbrev pub mark_seat : SeatStatus → ℕ → Db → Db
mark_seat st seat d = record d { seats = update_where (λ s. s.id == seat) (with_status st) d.seats }

-- UPDATE seats SET status = 'AVAILABLE' WHERE id = $1 AND NOT EXISTS (an active hold of the seat)
abbrev pub free_seat : ℕ → Db → Db
free_seat seat d =
    if exists_where (active_on seat) d.holds then d else mark_seat SeatStatus.available seat d

-- INSERT INTO holds: the primary key and the two partial unique indexes are checked in the order
-- in which the migration makes them, and the reference to the seat after them.
abbrev pub insert_row : HoldRow → Db → Answer Db HoldRow
insert_row h d =
    if exists_where (λ r. r.id == h.id) d.holds
    then violates (unique_violation primary_key)
    else if exists_where (active_on h.seat_id) d.holds
    then violates (unique_violation uniq_active_hold_per_seat)
    else if exists_where (active_by h.user_id) d.holds
    then violates (unique_violation uniq_active_hold_per_user)
    else if exists_where (λ s. s.id == h.seat_id) d.seats
    then rows h (record d { holds = d.holds ++ h ∷ [] })
    else violates foreign_key_violation

-- The rows of UPDATE … RETURNING, and the table after it.
abbrev pub update_holds : (HoldRow → Bool) → (HoldRow → HoldRow) → Db → Db
update_holds p f d = record d { holds = update_where p f d.holds }
