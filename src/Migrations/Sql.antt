-- ===== src/Migrations/Sql.antt =====
-- `runSqlBlock` of apps/auth/src/migrations/run.ts (the runners of the other two services are the
-- same): the statements of a file, `sql.split(/;\s*\n/g).map((s) => s.trim()).filter(Boolean)`.
pub mod RoundTrip
use technical_assignment.Common.{
  Text, is_space, trim, ℕ, zero, suc, Bool, true, false, Option, none, some, List, [], ◌∷◌, select,
  ◌++◌, if◌then◌else◌, leb, ◌&&◌, map, ◌==◌, ◌||◌,
}

abbrev pub semicolon : ℕ
semicolon = 59

abbrev pub newline : ℕ
newline = 10

-- How much of a text after a semicolon /\s*\n/ takes: all up to the last newline of the white space
-- that it starts with.
unfoldable pub separator : Text → Option ℕ
separator [] = none
separator (c ∷ s) =
    let rest = separator s in
    if is_space c
    then (elim rest [ some k ↦ some (suc k) | none ↦ if c == newline then some 1 else none ])
    else none

-- `split`, with how much of the separator is still to be passed over and the current part.
unfoldable pub cut : ℕ → Text → Text → List Text
unfolding separator
cut n cur [] = cur ∷ []
cut (suc n) cur (c ∷ s) = cut n cur s
cut zero cur (c ∷ s) =
    let on = cut zero (cur ++ c ∷ []) s in
    if c == semicolon then (elim (separator s) [ none ↦ on | some k ↦ cur ∷ cut k [] s ]) else on

abbrev pub is_filled : Text → Bool
is_filled [] = false
is_filled (c ∷ s) = true

unfoldable pub statements : Text → List Text
unfolding cut trim
statements sql = select is_filled (map trim (cut 0 [] sql))
