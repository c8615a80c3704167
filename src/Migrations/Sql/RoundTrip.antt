-- ===== src/Migrations/Sql/RoundTrip.antt =====
-- A file that is written statement by statement is read back as its statements.
use mathlib.Core.List.{append_assoc, append-nil}
use technical_assignment.Common.{
  ◌∙◌, ap, ◌≡◌, refl, inl, inr, List, Bool, true, none, false, ◌∷◌, not, ◌++◌, if◌then◌else◌, ◌==◌,
  ◌&&◌, arith, [], some, All, Option-cases, trim, Text, is_space, trim_start, trim_end,
}
use technical_assignment.Migrations.Sql.{statements, separator, cut, semicolon, newline, is_filled}

-- No semicolon inside with a newline after it.
abbrev pub lacks_separator : Text → Bool
lacks_separator [] = true
lacks_separator (c ∷ s) =
    let rest = lacks_separator s in
    if c == semicolon then (elim (separator s) [ none ↦ rest | some k ↦ false ]) else rest

-- A statement starts and ends with no white space, and is not empty.
abbrev pub is_statement : Text → Bool
is_statement [] = false
is_statement (c ∷ s) = not (is_space c) && lacks_separator (c ∷ s)

pub record IsStatement (s : Text) : Type 0 where
  pub starts : is_statement s ≡ true
  pub ends : trim_end s ≡ s

-- Each statement with its semicolon and the end of its line.
abbrev pub render : List Text → Text
render [] = []
render (s ∷ ss) = s ++ semicolon ∷ newline ∷ render ss

separator-append : (s t : Text) → separator (s ++ semicolon ∷ t) ≡ separator s
unfolding separator is_space
separator-append [] t = refl
separator-append (c ∷ s) t = ground (arith, separator-append s t)

cut-statement :
    (s cur t : Text)
    → lacks_separator s ≡ true
    → separator t ≡ none
    → cut 0 cur (s ++ semicolon ∷ newline ∷ t) ≡ (cur ++ s) ∷ cut 0 [] t
unfolding cut
cut-statement [] cur t lacks plain = rw (plain, append-nil cur) (unfold is_space in refl)
cut-statement (c ∷ s) cur t lacks plain =
    let here = separator-append s (newline ∷ t) in
    let on : cut 0 (cur ++ c ∷ []) (s ++ semicolon ∷ newline ∷ t) ≡ (cur ++ c ∷ s) ∷ cut 0 [] t =
      cut-statement s (cur ++ c ∷ []) t (ground (arith, lacks)) plain
      ∙ ap (λ x. x ∷ cut 0 [] t) (append_assoc cur (c ∷ []) s) in
    elim (Option-cases (separator s)) [
      | inl e ↦ rw (here, e) (ground (arith, on))
      | inr (k, e) ↦ rw (here, e) (ground (arith, on, lacks, e))
    ]

-- What follows a statement begins no separator.
plain-render : (ss : List Text) → All IsStatement ss → separator (render ss) ≡ none
unfolding separator
plain-render [] h = refl
plain-render ([] ∷ ss) h = absurd (ground (arith, h.0.starts))
plain-render ((c ∷ s) ∷ ss) h = ground (arith, h.0.starts)

trim_start-statement : (s : Text) → is_statement s ≡ true → trim_start s ≡ s
unfolding trim_start
trim_start-statement [] h = refl
trim_start-statement (c ∷ s) h = ground (arith, h)

trim-statement : (s : Text) → IsStatement s → trim s ≡ s
unfolding trim
trim-statement s h = rw (trim_start-statement s h.starts) h.ends

statement-parts :
    (s : Text) → is_statement s ≡ true → (lacks_separator s ≡ true) × (is_filled s ≡ true)
statement-parts [] h = absurd (ground (arith, h))
statement-parts (c ∷ s) h = (ground (arith, h), refl)

-- A file made of statements, each with its semicolon at the end of a line, is read back as these
-- statements, where each is a text that is not empty, has no white space at its ends, and has no
-- semicolon that is followed by a newline but for white space.
pub statements-render : (ss : List Text) → All IsStatement ss → statements (render ss) ≡ ss
unfolding statements
statements-render [] h = refl
statements-render (s ∷ ss) h =
    let parts = statement-parts s h.0.starts in
    rw (cut-statement s [] (render ss) parts.0 (plain-render ss h.1), trim-statement s h.0, parts.1)
      (ap (λ x. s ∷ x) (statements-render ss h.1))
