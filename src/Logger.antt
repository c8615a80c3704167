-- ===== src/Logger.antt =====
-- packages/be-core/src/logger.ts, `createLogger` over pino, and common/logger.service.ts of the three
-- services, which gives each component its logger. Names and values of fields are numbers.
pub mod Bindings
use technical_assignment.Common.{
  ℕ, Text, Option, some, none, List, [], ◌∷◌, ◌++◌, ◌==◌, if◌then◌else◌, exists_where,
}

-- An object: its fields in the order in which their names came up.
abbrev pub Fields : Type 0
Fields = List (ℕ × ℕ)

unfoldable pub set_field : ℕ → ℕ → Fields → Fields
set_field k v [] = (k, v) ∷ []
set_field k v ((j, w) ∷ fs) =
    let rest = set_field k v fs in if j == k then (j, v) ∷ fs else (j, w) ∷ rest

-- { ...a, ...b }
unfoldable pub spread : Fields → Fields → Fields
unfolding set_field
spread a [] = a
spread a ((k, v) ∷ b) = spread (set_field k v a) b

unfoldable pub get_field : ℕ → Fields → Option ℕ
get_field k [] = none
get_field k ((j, w) ∷ fs) = let rest = get_field k fs in if j == k then some w else rest

pub data Level : Type 0 where
  debug info warn error : Level

-- pino: what a child with these bindings writes for a call, if the level lets it through.
pub record Pino (Line : Type 0) : Type 0 where
  pub write : Fields → Level → Fields → Text → Option Line

-- The names 'service' and 'component'.
abbrev pub service_key : ℕ
service_key = 0

abbrev pub component_key : ℕ
component_key = 1

-- What `wrap` closes over.
pub record AppLogger : Type 0 where
  pub bindings : Fields

-- m ?? ''
abbrev or_empty : Option Text → Text
or_empty none = []
or_empty (some m) = m

-- The four methods of an AppLogger.
unfoldable pub log :
    {Line : Type 0} → Pino Line → AppLogger → Level → Fields → Option Text → Option Line
log pino l level f m = pino.write l.bindings level f (or_empty m)

unfoldable pub child : Fields → AppLogger → AppLogger
child b l = record { bindings = spread l.bindings b }

unfoldable pub create_logger : ℕ → AppLogger
create_logger service = record { bindings = (service_key, service) ∷ [] }

-- LoggerServiceImpl.create, over the root logger of the service.
unfoldable pub create : ℕ → ℕ → AppLogger
create service component = child ((component_key, component) ∷ []) (create_logger service)
