-- ===== src/Common/Texts.antt =====
-- What the services use of JavaScript's strings. A text is the list of its code units.
use Prim.Native.Nat.{ℕ, zero, suc}
use mathlib.Core.Logic.{inl, inr}
use mathlib.Core.Path.{◌≡◌, refl}
use mathlib.Core.Bool.{Bool, true, false, ◌&&◌, ◌||◌}
use mathlib.Core.List.{List, [], ◌∷◌}
use technical_assignment.Common.Tests.{==_refl, ==_iff, Bool-cases, leb, ◌==◌, if◌then◌else◌}

abbrev pub Text : Type 0
Text = List ℕ

-- \s, which is also what `trim` takes away
unfoldable pub is_space : ℕ → Bool
is_space c =
    (leb 9 c && leb c 13)
    || (c == 32
        || (c == 160
            || (c == 5760
                || ((leb 8192 c && leb c 8202)
                    || (c == 8232
                        || (c == 8233
                            || (c == 8239 || (c == 8287 || (c == 12288 || c == 65279)))))))))

unfoldable pub trim_start : Text → Text
unfolding is_space
trim_start [] = []
trim_start (c ∷ s) = let rest = trim_start s in if is_space c then rest else c ∷ s

unfoldable pub trim_end : Text → Text
unfolding is_space
trim_end [] = []
trim_end (c ∷ s) = elim (trim_end s) [
  | [] ↦ if is_space c then [] else c ∷ []
  | (d ∷ t) ↦ c ∷ d ∷ t
]

unfoldable pub trim : Text → Text
unfolding trim_start trim_end
trim s = trim_end (trim_start s)

-- s.startsWith(prefix)
unfoldable pub starts_with : Text → Text → Bool
starts_with [] s = true
starts_with (c ∷ p) [] = false
starts_with (c ∷ p) (d ∷ s) = let rest = starts_with p s in if c == d then rest else false

-- s.slice(n)
unfoldable pub slice : ℕ → Text → Text
slice zero s = s
slice (suc n) [] = []
slice (suc n) (c ∷ s) = slice n s

unfoldable pub text_eq : Text → Text → Bool
text_eq [] [] = true
text_eq [] (d ∷ t) = false
text_eq (c ∷ s) [] = false
text_eq (c ∷ s) (d ∷ t) = let rest = text_eq s t in if c == d then rest else false

pub text_eq_refl : (s : Text) → text_eq s s ≡ true
unfolding text_eq
text_eq_refl [] = refl
text_eq_refl (c ∷ s) = rw (==_refl c) (text_eq_refl s)

pub text_eq-true : (s t : Text) → text_eq s t ≡ true → s ≡ t
unfolding text_eq
text_eq-true [] [] e = refl
text_eq-true [] (d ∷ t) e = absurd (cc)
text_eq-true (c ∷ s) [] e = absurd (cc)
text_eq-true (c ∷ s) (d ∷ t) e = elim (Bool-cases (c == d)) [
  | inl same ↦ let rest = text_eq-true s t (rw same at e) in rw ((==_iff c d).0 same, rest) refl
  | inr other ↦ let never : false ≡ true = rw other at e in absurd (cc)
]
