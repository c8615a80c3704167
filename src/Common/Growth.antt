-- ===== src/Common/Growth.antt =====
-- Tables that only grow: each row stays at its place, changed as a relation allows, and no two rows
-- come to share what a column holds.
use Prim.Native.Nat.{ℕ, zero, suc, ◌≤◌}
use mathlib.Core.Path.{◌≡◌, refl}
use mathlib.Core.Logic.{inl, inr}
use mathlib.Core.Bool.{Bool, false}
use mathlib.Core.List.{List, [], ◌∷◌, ◌++◌}
use native.Mathlib.Omega.{arith}
use technical_assignment.Common.Tests.{◌==◌, ==_iff, Bool-cases}
use technical_assignment.Common.Rows.{
  update_where, exists_where, count_where, count_where-append, count_where-update_where-eq,
  exists_where-count,
}
use technical_assignment.Common.Postgres.{
  Link, steady, breaks, unanswered, Answer, rows, violates, query, run_query, settle, answer,
}

module _ {A : Type 0} (R : A → A → Type 0) where
  abbrev pub Extends : List A → List A → Type 0
  Extends [] ys = Unit
  Extends (x ∷ xs) [] = ⊥
  Extends (x ∷ xs) (y ∷ ys) = R x y × Extends xs ys

  pub Extends-refl : ((x : A) → R x x) → (xs : List A) → Extends xs xs
  Extends-refl h [] = tt
  Extends-refl h (x ∷ xs) = (h x, Extends-refl h xs)

  pub Extends-trans :
      ((x y z : A) → R x y → R y z → R x z)
      → (xs ys zs : List A) → Extends xs ys
      → Extends ys zs
      → Extends xs zs
  Extends-trans h [] ys zs e f = tt
  Extends-trans h (x ∷ xs) [] zs e f = absurd e
  Extends-trans h (x ∷ xs) (y ∷ ys) [] e f = absurd f
  Extends-trans h (x ∷ xs) (y ∷ ys) (z ∷ zs) e f =
      (h x y z e.0 f.0, Extends-trans h xs ys zs e.1 f.1)

  pub Extends-append : ((x : A) → R x x) → (xs ys : List A) → Extends xs (xs ++ ys)
  Extends-append h [] ys = tt
  Extends-append h (x ∷ xs) ys = (h x, Extends-append h xs ys)

  pub Extends-update_where :
      ((x : A) → R x x)
      → (p : A → Bool) (f : A → A) (xs : List A) → ((x : A) → R x (f x))
      → Extends xs (update_where p f xs)
  Extends-update_where h p f [] k = tt
  Extends-update_where h p f (x ∷ xs) k =
      let rest = Extends-update_where h p f xs k in
      (elim (Bool-cases (p x)) [ inl hit ↦ rw hit (k x) | inr other ↦ rw other (h x) ], rest)

-- No two rows have one value in a column.
abbrev pub IsUnique : {A : Type 0} → (A → ℕ) → List A → Type 0
IsUnique f xs = (k : ℕ) → count_where (λ r. f r == k) xs ≤ 1

pub IsUnique-append :
    {A : Type 0} (f : A → ℕ) (xs : List A) (i : A)
    → exists_where (λ r. f r == f i) xs ≡ false
    → IsUnique f xs
    → IsUnique f (xs ++ i ∷ [])
IsUnique-append f xs i new few k =
    rw (count_where-append (λ r. f r == k) xs (i ∷ [])) (elim (Bool-cases (f i == k)) [
      | inl same ↦
          let e : f i ≡ k = (==_iff (f i) k).0 same in
          let none_yet : count_where (λ r. f r == k) xs ≡ 0 =
            rw (← e) (exists_where-count (λ r. f r == f i) xs new) in
          ground (arith, same, none_yet)
      | inr other ↦ ground (arith, other, few k)
    ])

pub IsUnique-update_where :
    {A : Type 0} (f : A → ℕ) (p : A → Bool) (g : A → A) (xs : List A)
    → ((x : A) → f (g x) ≡ f x)
    → IsUnique f xs
    → IsUnique f (update_where p g xs)
IsUnique-update_where f p g xs h few k =
    rw (count_where-update_where-eq (λ r. f r == k) p g xs (λ x e. rw (h x) refl)) (few k)

answered-keeps :
    {D A : Type 0} (P : D → Type 0) (l : Link) (d : D) (x : Answer D A)
    → P d
    → ((a : A) (d' : D) → x ≡ rows a d' → P d')
    → P (settle d (answer l x)).1
answered-keeps P l d (rows a d') before after = after a d' refl
answered-keeps P l d (violates e) before after = before

-- A statement that is sent by itself: what it keeps when the server answers, it keeps.
pub run_query-keeps :
    {D A : Type 0} (P : D → Type 0) (f : D → Answer D A) (l : Link) (d : D)
    → P d
    → ((a : A) (d' : D) → f d ≡ rows a d' → P d')
    → P (run_query (query f) l d).1
run_query-keeps P f steady d = answered-keeps P steady d (f d)
run_query-keeps P f (breaks zero) d = λ before after. before
run_query-keeps P f (breaks (suc n)) d = answered-keeps P (breaks n) d (f d)
run_query-keeps P f (unanswered zero) d = answered-keeps P steady d (f d)
run_query-keeps P f (unanswered (suc n)) d = answered-keeps P (unanswered n) d (f d)
