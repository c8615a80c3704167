-- ===== src/Seat/Listing.antt =====
-- `SeatsRepository.listAll` of apps/seat-reservation/src/seats/seats.repository.ts, which
-- `SeatsController.list` answers to everyone. `le` is the database's order of labels.
use technical_assignment.Seat.Consistent.{IsConsistent, is_held_seat, Matches}
use technical_assignment.Seat.Db.{SeatRow, SeatStatus, HoldRow, Db, active_on}
use Prim.Native.String.{String, ◌∷◌}
use technical_assignment.Common.{
  ℕ, List, Bool, none, length, Link, Option, count_where, ◌∷◌, ◌≡◌, not, map, ◌≤◌, Result, select,
  if◌then◌else◌, [], some, arith, run_query, All, ◌∙◌, one_if, steady, ◌++◌, ok, query, ltb, ◌+◌,
  refl, rows, ◌==◌, ◌&&◌, count_where-append, length-select,
}

-- A row of the answer: those of `holds` are null where the seat has no active hold.
pub record ListedSeat : Type 0 where
  pub id : ℕ
  pub label : String
  pub price_cents : ℕ
  pub currency : String
  pub status : SeatStatus
  pub held_by_user_id : Option ℕ
  pub held_until : Option ℕ

abbrev listed : SeatRow → Option HoldRow → ListedSeat
listed s none = record {
  id = s.id;
  label = s.label;
  price_cents = s.price_cents;
  currency = s.currency;
  status = s.status;
  held_by_user_id = none;
  held_until = none;
}
listed s (some h) = record {
  id = s.id;
  label = s.label;
  price_cents = s.price_cents;
  currency = s.currency;
  status = s.status;
  held_by_user_id = some h.user_id;
  held_until = some h.held_until;
}

-- The rows of a seat in the LEFT JOIN, given its active holds.
join_row : SeatRow → List HoldRow → List ListedSeat
join_row s [] = listed s none ∷ []
join_row s (h ∷ hs) = map (λ k. listed s (some k)) (h ∷ hs)

unfoldable pub left_join : List SeatRow → List HoldRow → List ListedSeat
unfolding join_row
left_join [] holds = []
left_join (s ∷ ss) holds = join_row s (select (active_on s.id) holds) ++ left_join ss holds

insert_by_label : (String → String → Bool) → ListedSeat → List ListedSeat → List ListedSeat
insert_by_label le r [] = r ∷ []
insert_by_label le r (x ∷ xs) =
    let rest = insert_by_label le r xs in if le r.label x.label then r ∷ x ∷ xs else x ∷ rest

order_by_label : (String → String → Bool) → List ListedSeat → List ListedSeat
unfolding insert_by_label
order_by_label le [] = []
order_by_label le (r ∷ rs) = insert_by_label le r (order_by_label le rs)

unfoldable pub list_all : (String → String → Bool) → Link → Db → Result (List ListedSeat) × Db
unfolding order_by_label left_join
list_all le = run_query (query (λ d. rows (order_by_label le (left_join d.seats d.holds)) d))

count_where-insert :
    (le : String → String → Bool) (p : ListedSeat → Bool) (r : ListedSeat) (xs : List ListedSeat)
    → count_where p (insert_by_label le r xs) ≡ one_if (p r) + count_where p xs
unfolding insert_by_label
count_where-insert le p r [] = ground arith
count_where-insert le p r (x ∷ xs) = ground (arith, count_where-insert le p r xs)

count_where-order :
    (le : String → String → Bool) (p : ListedSeat → Bool) (xs : List ListedSeat)
    → count_where p (order_by_label le xs) ≡ count_where p xs
unfolding order_by_label
count_where-order le p [] = refl
count_where-order le p (x ∷ xs) =
    count_where-insert le p x (order_by_label le xs) ∙ ground (arith, count_where-order le p xs)

-- A seat is listed as held by someone where its status is HELD, and by no one where it is not.
abbrev pub is_truthful : ListedSeat → Bool
is_truthful r = elim r.held_by_user_id [
  | none ↦ not (is_held_seat r.status)
  | some u ↦ is_held_seat r.status
]

-- Of one seat, with at most one active hold and a status that agrees, one row that is truthful.
count_where-join_row :
    (i : ℕ) (s : SeatRow) (hs : List HoldRow)
    → length hs ≤ 1
    → is_held_seat s.status ≡ ltb 0 (length hs)
    → (count_where (λ r. (r.id == i) && is_truthful r) (join_row s hs) ≡ one_if (s.id == i))
      × (count_where (λ r. r.id == i) (join_row s hs) ≡ one_if (s.id == i))
unfolding join_row
count_where-join_row i s [] few agree = (ground (arith, agree), ground arith)
count_where-join_row i s (h ∷ []) few agree = (ground (arith, agree), ground arith)
count_where-join_row i s (h ∷ k ∷ hs) few agree = absurd (omega (arith, few))

count_where-left_join :
    (i : ℕ) (ss : List SeatRow) (holds : List HoldRow)
    → ((s : ℕ) → count_where (active_on s) holds ≤ 1)
    → All (Matches holds) ss
    → (count_where (λ r. (r.id == i) && is_truthful r) (left_join ss holds)
        ≡ count_where (λ s. s.id == i) ss)
      × (count_where (λ r. r.id == i) (left_join ss holds) ≡ count_where (λ s. s.id == i) ss)
unfolding left_join
count_where-left_join i [] holds few agree = (refl, refl)
count_where-left_join i (s ∷ ss) holds few agree =
    let own = select (active_on s.id) holds in
    let n = length-select (active_on s.id) holds in
    let one = count_where-join_row i s own (rw n (few s.id)) (rw n agree.0) in
    let rest = count_where-left_join i ss holds few agree.1 in
    (
      count_where-append (λ r. (r.id == i) && is_truthful r) (join_row s own) (left_join ss holds)
          ∙ ground (arith, one.0, rest.0),
      count_where-append (λ r. r.id == i) (join_row s own) (left_join ss holds)
          ∙ ground (arith, one.1, rest.1),
    )

-- In a consistent database and over a steady connection, the list shows each seat as often as the
-- table has it, whatever the holds, and each row names a holder exactly where its status is HELD.
pub list_all_truthful :
    (le : String → String → Bool) (d : Db) (i : ℕ)
    → IsConsistent d
    → (rs : List ListedSeat) × (list_all le steady d ≡ (ok rs, d))
      × (count_where (λ r. r.id == i) rs ≡ count_where (λ s. s.id == i) d.seats)
      × (count_where (λ r. (r.id == i) && is_truthful r) rs ≡ count_where (λ s. s.id == i) d.seats)
unfolding list_all
list_all_truthful le d i v =
    let counts = count_where-left_join i d.seats d.holds v.per_seat v.seats_match in
    (
      order_by_label le (left_join d.seats d.holds),
      refl,
      count_where-order le (λ r. r.id == i) (left_join d.seats d.holds) ∙ counts.1,
      count_where-order le (λ r. (r.id == i) && is_truthful r) (left_join d.seats d.holds)
          ∙ counts.0,
    )
