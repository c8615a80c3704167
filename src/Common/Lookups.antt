-- ===== src/Common/Lookups.antt =====
-- Laws of the row that a query finds first: where it is after an insert or an update.
use mathlib.Core.Path.{◌≡◌, refl}
use mathlib.Core.Bool.{Bool, true, false, ◌&&◌}
use mathlib.Core.Logic.{inl, inr}
use mathlib.Core.Option.{none, some, Option}
use mathlib.Core.List.{List, [], ◌∷◌, ◌++◌}
use native.Mathlib.Omega.{arith}
use Prim.Native.Nat.{ℕ, zero, suc, ◌≤◌, ◌<◌}
use technical_assignment.Common.Tests.{if◌then◌else◌, Bool-cases}
use technical_assignment.Common.Rows.{
  length, take, select, update_where, exists_where, first_row, count_where,
  count_where-update_where-le, exists_where-count, All,
}

module _ {ℓ} {A : Type ℓ} where
  pub first_row-select-exists :
      (p : A → Bool) (xs : List A) {x : A}
      → first_row (select p xs) ≡ some x
      → exists_where p xs ≡ true
  first_row-select-exists p [] e = cc
  first_row-select-exists p (y ∷ xs) {x} e = ground (arith, first_row-select-exists p xs {x = x})

  -- The first row of a selection, after an update of the selected rows that keeps them selected.
  pub first_row-select-update_where :
      (p : A → Bool) (f : A → A) (xs : List A) {x : A}
      → first_row (select p xs) ≡ some x
      → p (f x) ≡ true
      → first_row (select p (update_where p f xs)) ≡ some (f x)
  first_row-select-update_where p f [] e k = cc
  first_row-select-update_where p f (y ∷ xs) {x} e k = elim (Bool-cases (p y)) [
    | inl hit ↦ let same : y ≡ x = ground arith in rw (hit, same, k)
    | inr miss ↦
        let ih = first_row-select-update_where p f xs {x = x} (ground arith) k in rw (miss, miss) ih
  ]

  pub exists_where-mono-false :
      (p q : A → Bool) (xs : List A)
      → ((x : A) → p x ≡ true → q x ≡ true)
      → exists_where q xs ≡ false
      → exists_where p xs ≡ false
  exists_where-mono-false p q [] h e = refl
  exists_where-mono-false p q (x ∷ xs) h e = ground (arith, h x, exists_where-mono-false p q xs h)

  -- If an update leaves no counted row where there was one, a counted row was selected.
  pub exists_where-uncounted :
      (p q r : A → Bool) (f : A → A) (xs : List A)
      → ((x : A) → p x ≡ true → r x ≡ true)
      → 0 < count_where p xs
      → count_where p (update_where q f xs) ≡ 0
      → exists_where r (select q xs) ≡ true
  exists_where-uncounted p q r f [] h some_row none_left = absurd (omega arith)
  exists_where-uncounted p q r f (x ∷ xs) h some_row none_left =
      ground (arith, h x, exists_where-uncounted p q r f xs h)

  pub exists_where-none :
      (q : A → Bool) (xs : List A) → first_row (select q xs) ≡ none → exists_where q xs ≡ false
  exists_where-none q [] e = refl
  exists_where-none q (x ∷ xs) e = ground (arith, exists_where-none q xs)

  pub count_where-first_row :
      (q : A → Bool) (xs : List A) → count_where q xs ≡ 0 → first_row (select q xs) ≡ none
  count_where-first_row q [] e = refl
  count_where-first_row q (x ∷ xs) e = ground (arith, count_where-first_row q xs)

  pub first_row-select-append :
      (q : A → Bool) (xs ys : List A) {h : A}
      → first_row (select q xs) ≡ some h
      → first_row (select q (xs ++ ys)) ≡ some h
  first_row-select-append q [] ys e = cc
  first_row-select-append q (x ∷ xs) ys {h} e =
      ground (arith, first_row-select-append q xs ys {h = h})

  pub first_row-after_update :
      (p q : A → Bool) (f : A → A) (xs : List A) {h : A}
      → ((x : A) → p (f x) ≡ p x)
      → first_row (select p xs) ≡ some h
      → first_row (select p (update_where q f xs)) ≡ some (if q h then f h else h)
  first_row-after_update p q f [] k e = cc
  first_row-after_update p q f (x ∷ xs) {h} k e = elim (Bool-cases (q x)) [
    | inl hit ↦ ground (arith, hit, k x, first_row-after_update p q f xs {h = h} k)
    | inr miss ↦ ground (arith, miss, first_row-after_update p q f xs {h = h} k)
  ]

  pub first_row-select-last :
      (q : A → Bool) (xs : List A) (y : A)
      → first_row (select q xs) ≡ none
      → q y ≡ true
      → first_row (select q (xs ++ y ∷ [])) ≡ some y
  first_row-select-last q [] y e h = ground (arith, h)
  first_row-select-last q (x ∷ xs) y e h = ground (arith, first_row-select-last q xs y)

  pub first_row-select-counted :
      (p q : A → Bool) (xs : List A) {a : A}
      → first_row (select p xs) ≡ some a
      → q a ≡ true
      → 0 < count_where q xs
  first_row-select-counted p q [] e k = cc
  first_row-select-counted p q (x ∷ xs) {a} e k =
      ground (arith, k, first_row-select-counted p q xs {a = a})

  -- Where one row at most satisfies `q`, any row that does is the one that a query finds.
  pub one_row :
      (p q : A → Bool) (xs : List A) {a b : A}
      → count_where q xs ≤ 1
      → first_row (select p xs) ≡ some a
      → q a ≡ true
      → first_row (select q xs) ≡ some b
      → a ≡ b
  one_row p q [] c e k f = cc
  one_row p q (x ∷ xs) {a} {b} c e k f = elim (Bool-cases (p x)) [
    | inl hit ↦ ground (arith, hit, k, one_row p q xs {a = a} {b = b})
    | inr miss ↦
        let later = first_row-select-counted p q xs {a = a} (ground arith) k in
        ground (arith, miss, later, one_row p q xs {a = a} {b = b})
  ]

  -- A row that was found, unless it was updated to one that does not count.
  abbrev pub unless : (A → Bool) → Option A → Option A
  unless q none = none
  unless q (some h) = if q h then none else some h

  pub first_row-unless :
      (p q : A → Bool) (f : A → A) (xs : List A)
      → ((x : A) → p (f x) ≡ false)
      → count_where p xs ≤ 1
      → first_row (select p (update_where q f xs)) ≡ unless q (first_row (select p xs))
  first_row-unless p q f [] ends one = refl
  first_row-unless p q f (x ∷ xs) ends one = elim (Bool-cases (p x)) [
    | inl hit ↦
        let rest : first_row (select p (update_where q f xs)) ≡ none =
          count_where-first_row p (update_where q f xs) (
            ground (
              arith,
              hit,
              count_where-update_where-le p q f xs (λ y e k. ground (arith, ends y)),
            )) in
        ground (arith, hit, rest, ends x)
    | inr miss ↦ ground (arith, miss, ends x, first_row-unless p q f xs ends)
  ]

  pub first_row-select-absent :
      (p q : A → Bool) (xs : List A) {a : A}
      → first_row (select p xs) ≡ some a
      → exists_where q xs ≡ false
      → q a ≡ false
  first_row-select-absent p q xs {a} e absent = elim (Bool-cases (q a)) [
    | inl hit ↦
        absurd
          (omega (arith, exists_where-count q xs absent, first_row-select-counted p q xs e hit))
    | inr miss ↦ miss
  ]

  pub first_row-select-skip :
      (p : A → Bool) (xs : List A) (y : A)
      → p y ≡ false
      → first_row (select p (xs ++ y ∷ [])) ≡ first_row (select p xs)
  first_row-select-skip p [] y miss = ground (arith, miss)
  first_row-select-skip p (x ∷ xs) y miss = ground (arith, first_row-select-skip p xs y miss)

  pub exists_where-take :
      (p : A → Bool) (n : ℕ) (xs : List A)
      → exists_where p (take n xs) ≡ true
      → exists_where p xs ≡ true
  exists_where-take p zero xs e = absurd (ground (arith, e))
  exists_where-take p (suc n) [] e = e
  exists_where-take p (suc n) (x ∷ xs) e = ground (arith, e, exists_where-take p n xs)

  pub exists_where-select :
      (p q : A → Bool) (xs : List A)
      → exists_where p (select q xs) ≡ exists_where (λ x. q x && p x) xs
  exists_where-select p q [] = refl
  exists_where-select p q (x ∷ xs) = ground (arith, exists_where-select p q xs)

module _ {ℓ κ} {A : Type ℓ} (P : A → Type κ) where
  pub All-first_row :
      (p : A → Bool) (xs : List A) {a : A} → All P xs → first_row (select p xs) ≡ some a → P a
  All-first_row p [] h e = cc
  All-first_row p (x ∷ xs) {a} h e = elim (Bool-cases (p x)) [
    | inl hit ↦ let same : x ≡ a = ground (arith, e, hit) in rw (← same) h.0
    | inr miss ↦ All-first_row p xs h.1 (ground (arith, e, miss))
  ]

module _ {ℓ} {A : Type ℓ} where
  -- An update that keeps the test on the rows of this table keeps the count.
  pub count_where-update_where-All :
      (p q : A → Bool) (f : A → A) (xs : List A)
      → All (λ x. q x ≡ true → p (f x) ≡ p x) xs
      → count_where p (update_where q f xs) ≡ count_where p xs
  count_where-update_where-All p q f [] h = refl
  count_where-update_where-All p q f (x ∷ xs) h =
      ground (arith, h.0, count_where-update_where-All p q f xs h.1)

  pub length-select : (p : A → Bool) (xs : List A) → length (select p xs) ≡ count_where p xs
  length-select p [] = refl
  length-select p (x ∷ xs) = ground (arith, length-select p xs)
