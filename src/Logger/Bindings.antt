-- ===== src/Logger/Bindings.antt =====
-- Under which bindings a line is written.
use technical_assignment.Logger.{
  Fields, set_field, spread, get_field, service_key, component_key, AppLogger, child, create_logger,
  create,
}
use technical_assignment.Common.{
  ℕ, some, none, List, [], ◌∷◌, ◌==◌, ◌≡◌, refl, ◌∙◌, false, Bool-cases, inl, inr, ==_iff, ==_refl,
  arith, if◌then◌else◌,
}

get-set_field :
    (k j v : ℕ) (fs : Fields)
    → get_field k (set_field j v fs) ≡ (if j == k then some v else get_field k fs)
unfolding get_field set_field
get-set_field k j v [] = refl
get-set_field k j v ((i, w) ∷ fs) =
    let rest = get-set_field k j v fs in
    elim (Bool-cases (i == j)) [
      | inl same ↦
          let is : i ≡ j = (==_iff i j).0 same in
          rw (is, ==_refl j)
            (elim (Bool-cases (j == k)) [ inl hit ↦ rw hit refl | inr other ↦ rw other refl ])
      | inr apart ↦
          rw (apart, rest)
            (elim (Bool-cases (i == k)) [
              | inl hit ↦
                  let other : (j == k) ≡ false = ground (arith, apart, hit) in rw (hit, other) refl
              | inr miss ↦ rw miss refl
            ])
    ]

-- A name that the second object does not have keeps its value.
get-spread :
    (k : ℕ) (a b : Fields) → get_field k b ≡ none → get_field k (spread a b) ≡ get_field k a
unfolding spread get_field
get-spread k a [] absent = refl
get-spread k a ((j, v) ∷ b) absent = elim (Bool-cases (j == k)) [
  | inl hit ↦ absurd (ground (arith, absent, hit))
  | inr other ↦
      get-spread k (set_field j v a) b (ground (arith, absent, other))
      ∙ get-set_field k j v a
      ∙ rw other refl
]

-- The loggers that a component makes of its own, one child of another.
unfoldable pub children : List Fields → AppLogger → AppLogger
children [] l = l
children (b ∷ bs) l = children bs (child b l)

abbrev pub Lack : ℕ → List Fields → Type 0
Lack k [] = Unit
Lack k (b ∷ bs) = (get_field k b ≡ none) × Lack k bs

get-children :
    (k : ℕ) (bs : List Fields) (l : AppLogger)
    → Lack k bs
    → get_field k (children bs l).bindings ≡ get_field k l.bindings
unfolding children child
get-children k [] l lack = refl
get-children k (b ∷ bs) l lack =
    get-children k bs (child b l) lack.1 ∙ get-spread k l.bindings b lack.0

-- Whatever children a component makes of its logger, as long as they do not bind these two names,
-- their lines carry the name of the service and that of the component.
pub lines_name_component :
    (service component : ℕ) (bs : List Fields)
    → Lack service_key bs
    → Lack component_key bs
    → let l = children bs (create service component) in
      (get_field service_key l.bindings ≡ some service)
      × (get_field component_key l.bindings ≡ some component)
unfolding create child create_logger spread set_field get_field
lines_name_component service component bs no_service no_component = (
  get-children service_key bs (create service component) no_service,
  get-children component_key bs (create service component) no_component,
)
