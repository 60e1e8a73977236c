-- ===== src/Data/Providers.antt =====
-- `ProviderRegistry` of data/ingestion/registry.py. A provider is a number for the object that its
-- factory builds; what a call of it returns or raises is a parameter. The health checks are left out.
pub mod Genuine
use trading_brain.Base.{
  ℕ, Bool, true, false, not, ◌&&◌, Option, none, some, List, [], ◌∷◌, ◌==◌, if◌then◌else◌, Dict,
  lookup, insert, Result, ok, err, ◌>>=◌,
}

abbrev pub Name : Type 0
Name = ℕ

abbrev pub Provider : Type 0
Provider = ℕ

-- A `ProviderError`, and any other exception.
pub data Fault : Type 0 where
  provider_error other_exception : Fault

-- `_Registration`
pub record Registration : Type 0 where
  pub factory : Result Fault Provider
  pub synthetic : Bool
  pub instance_of : Option Provider

pub record ProviderRegistry : Type 0 where
  pub registrations : Dict Registration
  pub primary : Option Name
  pub fallbacks : List Name

-- `register`: a name that is taken is registered anew.
unfoldable pub register : Name → Result Fault Provider → Bool → ProviderRegistry → ProviderRegistry
register name factory synthetic r = record r {
  registrations =
      insert name (record { factory = factory; synthetic = synthetic; instance_of = none })
        r.registrations;
  primary = elim r.primary [ none ↦ some name | some p ↦ some p ];
}

-- `_require`
abbrev pub require : Name → ProviderRegistry → Result Fault Registration
require name r = elim (lookup name r.registrations) [
  | none ↦ err Fault.provider_error
  | some g ↦ ok g
]

-- `switch`
unfoldable pub switch : Name → ProviderRegistry → Result Fault ProviderRegistry
switch name r = require name r >>= λ _. ok (record r { primary = some name })

unfoldable pub all_genuine : List Name → ProviderRegistry → Result Fault (Unit {0})
all_genuine [] r = ok tt
all_genuine (name ∷ names) r =
    let rest = all_genuine names r in
    require name r >>= λ g. if g.synthetic then err Fault.provider_error else rest

-- `set_fallbacks`
unfoldable pub set_fallbacks : List Name → ProviderRegistry → Result Fault ProviderRegistry
unfolding all_genuine
set_fallbacks names r = all_genuine names r >>= λ _. ok (record r { fallbacks = names })

unfoldable pub construct : Registration → Registration × Result Fault Provider
construct g = elim g.instance_of [
  | some p ↦ (g, ok p)
  | none ↦ elim g.factory [ err e ↦ (g, err e) | ok p ↦ (record g { instance_of = some p }, ok p) ]
]

-- `get`
unfoldable pub get : Name → ProviderRegistry → ProviderRegistry × Result Fault Provider
unfolding construct
get name r = elim (lookup name r.registrations) [
  | none ↦ (r, err Fault.provider_error)
  | some g ↦
      let (g', p) = construct g in (record r { registrations = insert name g' r.registrations }, p)
]

-- What became of a sequence of candidates: the registry, the names that were tried, and the result.
pub record Execution (V : Type 0) : Type 0 where
  pub registry : ProviderRegistry
  pub tried : List Name
  pub result : Result Fault V

module _ {V : Type 0} (call : Provider → Result Fault V) where
  -- `call(self.get(name))`
  abbrev pub answer_of : Name → ProviderRegistry → Result Fault V
  answer_of name r = (get name r).1 >>= call

  abbrev pub is_skipped : Name → Name → ProviderRegistry → Result Fault Bool
  is_skipped primary name r =
      if name == primary then ok false else (require name r >>= λ g. ok g.synthetic)

  -- After a try: go on to the other candidates on a `ProviderError` only.
  abbrev pub tried_then : Name → ProviderRegistry → Result Fault V → Execution V → Execution V
  tried_then name r (ok v) rest = record { registry = r; tried = name ∷ []; result = ok v }
  tried_then name r (err Fault.other_exception) rest = record {
    registry = r;
    tried = name ∷ [];
    result = err Fault.other_exception;
  }
  tried_then name r (err Fault.provider_error) rest = record rest { tried = name ∷ rest.tried }

  -- The loop of `execute` over the candidates that are left.
  unfoldable pub execute_from : Name → List Name → ProviderRegistry → Execution V
  execute_from primary [] r = record { registry = r; tried = []; result = err Fault.provider_error }
  execute_from primary (name ∷ names) r =
      let skipping = execute_from primary names r in
      let rest = execute_from primary names (get name r).0 in
      elim (is_skipped primary name r) [
        | err e ↦ record { registry = r; tried = []; result = err e }
        | ok true ↦ skipping
        | ok false ↦ tried_then name (get name r).0 (answer_of name r) rest
      ]

  -- `execute`
  unfoldable pub execute : ProviderRegistry → Execution V
  unfolding execute_from
  execute r = elim r.primary [
    | none ↦ record { registry = r; tried = []; result = err Fault.provider_error }
    | some primary ↦ execute_from primary (primary ∷ r.fallbacks) r
  ]
