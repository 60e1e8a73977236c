-- ===== src/Ai/Registry.antt =====
-- `AIModel` and `AIProviderRegistry` of ai/provider.py. Provider names are numbers in their order.
-- A factory is what it returns or raises; the provider it builds is the list of models it serves.
pub mod Rotation
use trading_brain.Base.{
  ℕ, Bool, true, false, not, Option, none, some, List, [], ◌∷◌, ◌++◌, map, ◌==◌, if◌then◌else◌,
  keep, any, sort, Dict, lookup, insert, Result, ok, err, raise_if,
}
use trading_brain.Ai.Kinds.{AiTier, ErrorKind, same_tier}
use trading_brain.Ai.Schemas.{Name}

pub record AiModel : Type 0 where
  pub name : Name
  pub provider : Name
  pub tier : AiTier
  pub max_context_chars : ℕ
  pub supports_tools : Bool
  pub supports_caching : Bool

-- `AIModel.__post_init__`
unfoldable pub model_post_init : AiModel → Result ErrorKind (Unit {0})
model_post_init m = raise_if (same_tier m.tier AiTier.none) ErrorKind.no_route

abbrev pub Provider : Type 0
Provider = List AiModel

-- `_Registration`
pub record Registration : Type 0 where
  pub name : Name
  pub factory : Result ErrorKind Provider
  pub is_local : Bool
  pub instance_of : Option Provider

pub record AiProviderRegistry : Type 0 where
  pub registrations : Dict Registration
  pub disabled : List Name

abbrev pub is_disabled : Name → AiProviderRegistry → Bool
is_disabled name r = any (λ n. name == n) r.disabled

-- `AIProviderRegistry.register`
unfoldable pub register :
    Name
    → Result ErrorKind Provider
    → Bool
    → AiProviderRegistry
    → AiProviderRegistry × Result ErrorKind (Unit {0})
register name factory is_local r = elim (lookup name r.registrations) [
  | some _ ↦ (r, err ErrorKind.no_route)
  | none ↦ (
    record r {
      registrations =
          insert name
            (record { name = name; factory = factory; is_local = is_local; instance_of = none })
            r.registrations;
    },
    ok tt,
  )
]

-- `AIProviderRegistry._require`
unfoldable pub require : Name → AiProviderRegistry → Result ErrorKind Registration
require name r = elim (lookup name r.registrations) [
  | none ↦ err ErrorKind.no_route
  | some g ↦ ok g
]

-- `AIProviderRegistry.available`
unfoldable pub available : AiProviderRegistry → List Name
available r =
    sort (λ (n : Name). n)
      (keep (λ n. not (is_disabled n r)) (map (λ (g : Name × Registration). g.0) r.registrations))

-- `AIProviderRegistry.disable`: an unknown name raises.
unfoldable pub disable :
    Name → AiProviderRegistry → AiProviderRegistry × Result ErrorKind (Unit {0})
disable name r = elim (lookup name r.registrations) [
  | none ↦ (r, err ErrorKind.no_route)
  | some _ ↦ (if is_disabled name r then r else record r { disabled = name ∷ r.disabled }, ok tt)
]

-- `AIProviderRegistry.enable`
unfoldable pub enable : Name → AiProviderRegistry → AiProviderRegistry
enable name r = record r { disabled = keep (λ n. not (name == n)) r.disabled }

-- `AIProviderRegistry.disable_all`
unfoldable pub disable_all : AiProviderRegistry → AiProviderRegistry
disable_all r = record r { disabled = map (λ (g : Name × Registration). g.0) r.registrations }

-- The instance of a registration, and the registration that holds it from now on.
unfoldable pub construct : Registration → Registration × Result ErrorKind Provider
construct g = elim g.instance_of [
  | some p ↦ (g, ok p)
  | none ↦ elim g.factory [ err e ↦ (g, err e) | ok p ↦ (record g { instance_of = some p }, ok p) ]
]

-- `AIProviderRegistry.get`
unfoldable pub get : Name → AiProviderRegistry → AiProviderRegistry × Result ErrorKind Provider
unfolding construct
get name r =
    if is_disabled name r then (r, err ErrorKind.no_route) else elim (lookup name r.registrations) [
      | none ↦ (r, err ErrorKind.no_route)
      | some g ↦
          let (g', p) = construct g in
          (record r { registrations = insert name g' r.registrations }, p)
    ]

abbrev pub models_of : AiTier → Result ErrorKind Provider → List AiModel
models_of tier (ok p) = keep (λ (m : AiModel). same_tier m.tier tier) p
models_of tier (err e) = []

-- The loop of `models_for_tier`: a provider that cannot be built is skipped.
unfoldable pub collect : AiTier → List Name → AiProviderRegistry → AiProviderRegistry × List AiModel
collect tier [] r = (r, [])
collect tier (name ∷ names) r =
    let (r1, p) = get name r in
    let (r2, found) = collect tier names r1 in (r2, models_of tier p ++ found)

-- `AIProviderRegistry.models_for_tier`
unfoldable pub models_for_tier : AiTier → AiProviderRegistry → AiProviderRegistry × List AiModel
unfolding collect available
models_for_tier tier r = collect tier (available r) r
