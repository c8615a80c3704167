-- ===== src/Common/Rows.antt =====
-- A table is the list of its rows. These are the row operations that the SQL statements of the
-- services stand for, and the laws by which rows are counted.
use Prim.Native.Nat.{ℕ, suc, ◌+◌, ◌≤◌, ◌<◌}
use mathlib.Core.Path.{◌≡◌, refl}
use mathlib.Core.Bool.{Bool, true, false}
use mathlib.Core.Logic.{inl, inr}
use mathlib.Core.Option.{Option, none, some}
use mathlib.Core.List.{List, [], ◌∷◌, ◌++◌}
use native.Mathlib.Omega.{arith}
use technical_assignment.Common.Tests.{if◌then◌else◌, Bool-cases}

abbrev pub one_if : Bool → ℕ
one_if b = if b then 1 else 0

module _ {ℓ} {A : Type ℓ} where
  abbrev pub length : List A → ℕ
  length [] = 0
  length (x ∷ xs) = suc (length xs)

  abbrev pub take : ℕ → List A → List A
  take ℕ.zero xs = []
  take (suc n) [] = []
  take (suc n) (x ∷ xs) = x ∷ take n xs

  -- SELECT … WHERE p
  abbrev pub select : (A → Bool) → List A → List A
  select p [] = []
  select p (x ∷ xs) = let rest = select p xs in if p x then x ∷ rest else rest

  -- UPDATE … SET f WHERE p
  abbrev pub update_where : (A → Bool) → (A → A) → List A → List A
  update_where p f [] = []
  update_where p f (x ∷ xs) = (if p x then f x else x) ∷ update_where p f xs

  -- EXISTS (SELECT 1 … WHERE p)
  abbrev pub exists_where : (A → Bool) → List A → Bool
  exists_where p [] = false
  exists_where p (x ∷ xs) = if p x then true else exists_where p xs

  -- rows[0] ?? null
  abbrev pub first_row : List A → Option A
  first_row [] = none
  first_row (x ∷ xs) = some x

  abbrev pub count_where : (A → Bool) → List A → ℕ
  count_where p [] = 0
  count_where p (x ∷ xs) = let n = count_where p xs in if p x then suc n else n

module _ {ℓ κ} {A : Type ℓ} (P : A → Type κ) where
  abbrev pub All : List A → Type κ
  All [] = Unit
  All (x ∷ xs) = P x × All xs

module _ {ℓ} {A : Type ℓ} where
  pub length-append : (xs ys : List A) → length (xs ++ ys) ≡ length xs + length ys
  length-append [] ys = omega arith
  length-append (x ∷ xs) ys = omega (arith, length-append xs ys)

  pub count_where-append :
      (p : A → Bool) (xs ys : List A)
      → count_where p (xs ++ ys) ≡ count_where p xs + count_where p ys
  count_where-append p [] ys = omega arith
  count_where-append p (x ∷ xs) ys = ground (arith, count_where-append p xs ys)

  -- An update that turns no row into a counted one does not raise the count.
  pub count_where-update_where-le :
      (p q : A → Bool) (f : A → A) (xs : List A)
      → ((x : A) → q x ≡ true → p (f x) ≡ true → p x ≡ true)
      → count_where p (update_where q f xs) ≤ count_where p xs
  count_where-update_where-le p q f [] h = omega arith
  count_where-update_where-le p q f (x ∷ xs) h =
      ground (arith, h x, count_where-update_where-le p q f xs h)

  -- An update that neither makes nor unmakes a counted row keeps the count.
  pub count_where-update_where-eq :
      (p q : A → Bool) (f : A → A) (xs : List A)
      → ((x : A) → q x ≡ true → p (f x) ≡ p x)
      → count_where p (update_where q f xs) ≡ count_where p xs
  count_where-update_where-eq p q f [] h = refl
  count_where-update_where-eq p q f (x ∷ xs) h =
      ground (arith, h x, count_where-update_where-eq p q f xs h)

  -- An update that hits every counted row and uncounts it leaves none.
  pub count_where-update_where-zero :
      (p q : A → Bool) (f : A → A) (xs : List A)
      → ((x : A) → q x ≡ true → p (f x) ≡ false)
      → ((x : A) → q x ≡ false → p x ≡ false)
      → count_where p (update_where q f xs) ≡ 0
  count_where-update_where-zero p q f [] h k = refl
  count_where-update_where-zero p q f (x ∷ xs) h k =
      ground (arith, h x, k x, count_where-update_where-zero p q f xs h k)

  pub exists_where-count :
      (p : A → Bool) (xs : List A) → exists_where p xs ≡ false → count_where p xs ≡ 0
  exists_where-count p [] h = refl
  exists_where-count p (x ∷ xs) h = ground (arith, exists_where-count p xs)

  pub count-exists_where :
      (p : A → Bool) (xs : List A) → exists_where p xs ≡ true → 0 < count_where p xs
  count-exists_where p [] h = absurd (true_ne_false h)
    where
      true_ne_false : false ≡ true → ⊥
      true_ne_false e = cc
  count-exists_where p (x ∷ xs) h = ground (arith, count-exists_where p xs)

  pub count_where_mono :
      (p q : A → Bool) (xs : List A)
      → ((x : A) → p x ≡ true → q x ≡ true)
      → count_where p xs ≤ count_where q xs
  count_where_mono p q [] h = omega arith
  count_where_mono p q (x ∷ xs) h = ground (arith, h x, count_where_mono p q xs h)

  pub All-update_where {κ μ} :
      (P : A → Type κ) (Q : A → Type μ) (p : A → Bool) (f : A → A) (xs : List A)
      → ((x : A) → P x → p x ≡ true → Q (f x))
      → ((x : A) → P x → p x ≡ false → Q x)
      → All P xs
      → All Q (update_where p f xs)
  All-update_where P Q p f [] hit miss h = tt
  All-update_where P Q p f (x ∷ xs) hit miss h = elim (Bool-cases (p x)) [
    | inl e ↦ rw e (hit x h.0 e, All-update_where P Q p f xs hit miss h.1)
    | inr e ↦ rw e (miss x h.0 e, All-update_where P Q p f xs hit miss h.1)
  ]

  update_where-none :
      (q : A → Bool) (f : A → A) (xs : List A) → count_where q xs ≡ 0 → update_where q f xs ≡ xs
  update_where-none q f [] h = refl
  update_where-none q f (x ∷ xs) h = ground (arith, update_where-none q f xs)

  pub first_row-select :
      (q : A → Bool) (xs : List A) {h : A} → first_row (select q xs) ≡ some h → q h ≡ true
  first_row-select q [] e = cc
  first_row-select q (x ∷ xs) {h} e = ground (arith, first_row-select q xs {h = h})

  pub first_row-select-none :
      (q : A → Bool) (xs : List A) → first_row (select q xs) ≡ none → count_where q xs ≡ 0
  first_row-select-none q [] e = refl
  first_row-select-none q (x ∷ xs) e = ground (arith, first_row-select-none q xs)

  -- What an update of the only row that it selects does to a count.
  pub count_where-update_where_one :
      (p q : A → Bool) (f : A → A) (xs : List A) {h : A}
      → count_where q xs ≤ 1
      → first_row (select q xs) ≡ some h
      → count_where p (update_where q f xs) + one_if (p h) ≡ count_where p xs + one_if (p (f h))
  count_where-update_where_one p q f [] c e = cc
  count_where-update_where_one p q f (x ∷ xs) {h} c e = elim (Bool-cases (q x)) [
    | inl hit ↦
        let same : x ≡ h = ground arith in
        let rest : update_where q f xs ≡ xs = update_where-none q f xs (ground arith) in
        rw (hit, rest, same) (ground arith)
    | inr miss ↦
        let ih = count_where-update_where_one p q f xs {h = h} (ground arith) (ground arith) in
        rw miss (ground (arith, ih))
  ]

  pub exists_where-update_where :
      (p q r : A → Bool) (f : A → A) (xs : List A)
      → ((x : A) → (if q x then p (f x) else p x) ≡ r x)
      → exists_where p (update_where q f xs) ≡ exists_where r xs
  exists_where-update_where p q r f [] h = refl
  exists_where-update_where p q r f (x ∷ xs) h =
      ground (arith, h x, exists_where-update_where p q r f xs h)

  pub count_where-exists_false :
      (p : A → Bool) (xs : List A) → count_where p xs ≡ 0 → exists_where p xs ≡ false
  count_where-exists_false p [] h = refl
  count_where-exists_false p (x ∷ xs) h = ground (arith, count_where-exists_false p xs)

  pub exists_where-append :
      (p : A → Bool) (xs ys : List A)
      → exists_where p (xs ++ ys) ≡ (if exists_where p xs then true else exists_where p ys)
  exists_where-append p [] ys = refl
  exists_where-append p (x ∷ xs) ys = ground (arith, exists_where-append p xs ys)

  pub exists_where-last :
      (p : A → Bool) (xs : List A) (y : A) → p y ≡ true → exists_where p (xs ++ y ∷ []) ≡ true
  exists_where-last p xs y h = ground (arith, exists_where-append p xs (y ∷ []))

pub All-append {ℓ κ} :
    {A : Type ℓ} (P : A → Type κ) (xs ys : List A) → All P xs → All P ys → All P (xs ++ ys)
All-append P [] ys hx hy = hy
All-append P (x ∷ xs) ys hx hy = (hx.0, All-append P xs ys hx.1 hy)

pub All-map {ℓ κ μ} :
    {A : Type ℓ} (P : A → Type κ) (Q : A → Type μ) (xs : List A)
    → ((x : A) → P x → Q x)
    → All P xs
    → All Q xs
All-map P Q [] f h = tt
All-map P Q (x ∷ xs) f h = (f x h.0, All-map P Q xs f h.1)
