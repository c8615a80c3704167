-- ===== src/Config/Checks.antt =====
-- What each check of a schema gives.
use technical_assignment.Config.{
  ◌>>=◌, another, Number, secret, min_text, positive_int, positive, whole,
}
use technical_assignment.Common.{
  ℕ, Option, ◌<◌, Text, ◌≤◌, some, length, none, ◌≢◌, text_eq, Bool-cases, leb, ◌≡◌, false, suc,
  inl, arith, text_eq_refl, inr, zero,
}

-- What holds of the value, if there is one.
abbrev pub Holds : {A : Type 0} → (A → Type 0) → Option A → Type 0
Holds P none = Unit
Holds P (some a) = P a

-- A parser that goes on after a first part: what holds of that part may be used.
pub Holds-after :
    {A B : Type 0} (P : A → Type 0) (Q : B → Type 0) (m : Option A) (k : A → Option B)
    → Holds P m
    → ((a : A) → P a → Holds Q (k a))
    → Holds Q (m >>= k)
Holds-after P Q none k h on = tt
Holds-after P Q (some a) k h on = on a h

abbrev pub IsPositive : ℕ → Type 0
IsPositive n = 0 < n

-- A secret is long enough, and not the one that the example files show.
abbrev pub IsSecret : Text → Text → Type 0
IsSecret placeholder t = (32 ≤ length t) × (t ≢ placeholder)

pub positive_int-IsPositive :
    (number : Text → Number) (n : ℕ) (v : Option Text)
    → 0 < n
    → Holds IsPositive (positive_int number n v)
unfolding positive_int
positive_int-IsPositive number n none pos = pos
positive_int-IsPositive number n (some t) pos = checked (number t)
  where
    checked : (x : Number) → Holds IsPositive (positive x)
    checked (whole zero) = tt
    checked (whole (suc m)) = omega arith
    checked another = tt

pub min_text-length : (n : ℕ) (v : Option Text) → Holds (λ t. n ≤ length t) (min_text n v)
unfolding min_text
min_text-length n none = tt
min_text-length n (some t) = elim (Bool-cases (leb n (length t))) [
  | inl long ↦ rw long (ground (arith, long))
  | inr short ↦ rw short tt
]

pub secret-IsSecret :
    (placeholder : Text) (v : Option Text) → Holds (IsSecret placeholder) (secret placeholder v)
unfolding secret
secret-IsSecret placeholder v =
    Holds-after (λ t. 32 ≤ length t) (IsSecret placeholder) (min_text 32 v) _ (min_text-length 32 v)
      (λ t long. elim (Bool-cases (text_eq t placeholder)) [
        | inl shown ↦ rw shown tt
        | inr other ↦ rw other (long, λ same. absurd (shown_not t other same))
      ])
  where
    shown_not : (t : Text) → text_eq t placeholder ≡ false → t ≡ placeholder → ⊥
    shown_not t other same = absurd (ground (arith, other, same, text_eq_refl placeholder))

pub Holds-some : {A : Type 0} (P : A → Type 0) (m : Option A) {a : A} → Holds P m → m ≡ some a → P a
Holds-some P m {a} h e = rw e at h

-- Parsers that go on after a positive number, or after a text of some length.
module _ (number : Text → Number) {B : Type 0} (Q : B → Type 0) where
  pub after_positive :
      (n : ℕ) (v : Option Text) (k : ℕ → Option B)
      → 0 < n
      → ((m : ℕ) → 0 < m → Holds Q (k m))
      → Holds Q (positive_int number n v >>= k)
  after_positive n v k pos =
      Holds-after IsPositive Q (positive_int number n v) k (positive_int-IsPositive number n v pos)
