-- ===== src/Seat/Consistent.antt =====
-- The invariant of the seat database, and the statements that keep it.
use technical_assignment.Common.{
  ℕ, ◌+◌, ◌≤◌, ◌≡◌, refl, Bool, true, false, some, List, arith, ◌==◌, ==_refl, ltb, select,
  update_where, first_row, count_where, All, one_if, count_where_mono, All-update_where,
  first_row-select, count_where-update_where_one,
}
use technical_assignment.Seat.Db.{
  HoldRow, SeatStatus, SeatRow, Db, is_held, active_on, active_by, active_id, released_row,
  reserved_row, with_status,
}

abbrev pub is_held_seat : SeatStatus → Bool
is_held_seat SeatStatus.held = true
is_held_seat SeatStatus.available = false
is_held_seat SeatStatus.reserved = false

-- A seat is shown as held exactly when it has an active hold.
abbrev pub Matches : List HoldRow → SeatRow → Type 0
Matches hs s = is_held_seat s.status ≡ ltb 0 (count_where (active_on s.id) hs)

abbrev pub with_id : ℕ → HoldRow → Bool
with_id i h = h.id == i

-- Hold ids are keys; a seat and a user have one active hold at most; `seats.status` agrees.
pub record IsConsistent (d : Db) : Type 0 where
  pub ids : (i : ℕ) → count_where (with_id i) d.holds ≤ 1
  pub per_seat : (s : ℕ) → count_where (active_on s) d.holds ≤ 1
  pub per_user : (u : ℕ) → count_where (active_by u) d.holds ≤ 1
  pub seats_match : All (Matches d.holds) d.seats

-- What leaves the state of a hold alone but for its status, which is no longer HELD.
pub record Ends (f : HoldRow → HoldRow) : Type 0 where
  pub keeps_id : (h : HoldRow) → (f h).id ≡ h.id
  pub keeps_seat : (h : HoldRow) → (f h).seat_id ≡ h.seat_id
  pub keeps_user : (h : HoldRow) → (f h).user_id ≡ h.user_id
  pub not_held : (h : HoldRow) → is_held (f h).status ≡ false

pub released_row-Ends : (now : ℕ) → Ends (released_row now)
released_row-Ends now = record {
  keeps_id = λ h. refl;
  keeps_seat = λ h. refl;
  keeps_user = λ h. refl;
  not_held = λ h. refl;
}

pub reserved_row-Ends : (now : ℕ) → Ends (reserved_row now)
reserved_row-Ends now = record {
  keeps_id = λ h. refl;
  keeps_seat = λ h. refl;
  keeps_user = λ h. refl;
  not_held = λ h. refl;
}

module _ (d : Db) (v : IsConsistent d) (f : HoldRow → HoldRow) (ends : Ends f) (i : ℕ) {h : HoldRow}
    (found : first_row (select (active_id i) d.holds) ≡ some h) where
  active_id-le : count_where (active_id i) d.holds ≤ 1
  active_id-le =
      omega (arith, v.ids i, count_where_mono (active_id i) (with_id i) d.holds λ x e. ground arith)

  -- The updated table, by what it does to a count of holds.
  counts :
      (p : HoldRow → Bool)
      → count_where p (update_where (active_id i) f d.holds) + one_if (p h)
        ≡ count_where p d.holds + one_if (p (f h))
  counts p = count_where-update_where_one p (active_id i) f d.holds active_id-le found

  h_active : active_id i h ≡ true
  h_active = first_row-select (active_id i) d.holds found

  ended_ids : (j : ℕ) → count_where (with_id j) (update_where (active_id i) f d.holds) ≤ 1
  ended_ids j = ground (arith, counts (with_id j), v.ids j, ends.keeps_id h)

  ended_seats : (s : ℕ) → count_where (active_on s) (update_where (active_id i) f d.holds) ≤ 1
  ended_seats s = ground (arith, counts (active_on s), v.per_seat s, ends.not_held h)

  ended_users : (u : ℕ) → count_where (active_by u) (update_where (active_id i) f d.holds) ≤ 1
  ended_users u = ground (arith, counts (active_by u), v.per_user u, ends.not_held h)

  -- The seat of the hold that ended has no active hold left.
  pub seat_freed : count_where (active_on h.seat_id) (update_where (active_id i) f d.holds) ≡ 0
  seat_freed = ground (
    arith,
    counts (active_on h.seat_id),
    v.per_seat h.seat_id,
    ends.not_held h,
    h_active,
    ==_refl h.seat_id,
  )

  -- Ending the hold and giving its seat a status other than HELD keeps the invariant.
  pub end_hold-IsConsistent :
      (st : SeatStatus) (d' : Db)
      → is_held_seat st ≡ false
      → d'.holds ≡ update_where (active_id i) f d.holds
      → d'.seats ≡ update_where (λ s. s.id == h.seat_id) (with_status st) d.seats
      → IsConsistent d'
  end_hold-IsConsistent st d' off eh es = record {
    ids = λ j. rw eh (ended_ids j);
    per_seat = λ s. rw eh (ended_seats s);
    per_user = λ u. rw eh (ended_users u);
    seats_match =
        rw (eh, es)
          (All-update_where (Matches d.holds) (Matches (update_where (active_id i) f d.holds))
            (λ s. s.id == h.seat_id) (with_status st) d.seats
            (λ s m e. ground (arith, seat_freed, off, m, e))
            (λ s m e.
              ground (arith, counts (active_on s.id), m, e, ends.not_held h, ends.keeps_seat h))
            v.seats_match);
  }
