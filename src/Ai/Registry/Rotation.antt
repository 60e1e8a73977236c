-- ===== src/Ai/Registry/Rotation.antt =====
-- Taking providers out of rotation and putting them back.
use trading_brain.Base.{
  ◌≡◌, inl, inr, refl, Bool, true, false, ◌&&◌, ◌||◌, not, none, some, List, [], ◌∷◌, map, arith,
  ◌==◌, keep, any, lookup, lookup-insert, Option-cases, Bool-cases, ok, eq_refl,
}
use trading_brain.Ai.Kinds.{AiTier}
use trading_brain.Ai.Schemas.{Name}
use trading_brain.Ai.Registry.{
  AiProviderRegistry, Registration, Provider, is_disabled, available, disable, enable, disable_all,
  get, construct, collect, models_for_tier,
}

abbrev name_of : Name × Registration → Name
name_of g = g.0

abbrev is_member : Name → List Name → Bool
is_member n ns = any (λ m. n == m) ns

keep_none :
    (ns all : List Name)
    → ((n : Name) → is_member n ns ≡ true → is_member n all ≡ true)
    → keep (λ n. not (is_member n all)) ns ≡ []
keep_none [] all h = refl
keep_none (n ∷ ns) all h =
    ground
      (arith, h n (ground (arith, eq_refl n)), keep_none ns all (λ m k. h m (ground (arith, k))))

-- The kill switch: after `disable_all` no provider is available and no tier offers a model.
disable_all-offers_nothing :
    (g : AiProviderRegistry) (tier : AiTier)
    → (available (disable_all g) ≡ []) × ((models_for_tier tier (disable_all g)).1 ≡ [])
unfolding disable_all available models_for_tier collect
disable_all-offers_nothing g tier =
    let nothing =
      keep_none (map name_of g.registrations) (map name_of g.registrations) (λ n k. k) in
    (rw nothing refl, rw nothing refl)

is_member-keep :
    (n m : Name) (ns : List Name)
    → is_member m (keep (λ k. not (n == k)) ns) ≡ is_member m ns && not (n == m)
is_member-keep n m [] = refl
is_member-keep n m (k ∷ ns) = ground (arith, is_member-keep n m ns)

is_member-eq : (m n : Name) (ns : List Name) → (m == n) ≡ true → is_member m ns ≡ is_member n ns
is_member-eq m n ns h = ground (arith)

-- `disable` takes out the provider that it names, if there is such a provider, and no other; `enable`
-- puts back the one that it names and no other.
is_disabled-disable :
    (n m : Name) (g : AiProviderRegistry)
    → (is_disabled m (disable n g).0
        ≡ is_disabled m g
          || (m == n) && elim (lookup n g.registrations) [ none ↦ false | some _ ↦ true ])
      × (is_disabled m (enable n g) ≡ is_disabled m g && not (n == m))
unfolding disable enable
is_disabled-disable n m g = (
  elim (Option-cases (lookup n g.registrations)) [
    | inl absent ↦ ground (arith, absent)
    | inr (r, found) ↦ elim (Bool-cases (is_disabled n g)) [
      | inl already ↦ ground (arith, found, already, is_member-eq m n g.disabled)
      | inr active ↦ ground (arith, found, active)
    ]
  ],
  is_member-keep n m g.disabled,
)

same_registrations : (n : Name) (g : AiProviderRegistry) → (get n g).0.disabled ≡ g.disabled
unfolding get
same_registrations n g = ground arith

construct-again :
    (r : Registration) (p : Provider)
    → (construct r).1 ≡ ok p
    → (construct (construct r).0).1 ≡ ok p
unfolding construct
construct-again r p h = ground arith

-- A provider is built once: after a `get` that returns it, every `get` returns the same one and
-- changes nothing.
pub get-get :
    (n : Name) (g : AiProviderRegistry) (p : Provider)
    → (get n g).1 ≡ ok p
    → (get n (get n g).0).1 ≡ ok p
unfolding get construct
get-get n g p h = elim (Bool-cases (is_disabled n g)) [
  | inl off ↦ ground (arith, off, h)
  | inr on ↦ elim (Option-cases (lookup n g.registrations)) [
    | inl absent ↦ ground (arith, on, absent, h)
    | inr (r, found) ↦
        ground (
          arith,
          on,
          found,
          h,
          lookup-insert n n (construct r).0 g.registrations,
          construct-again r,
        )
  ]
]
