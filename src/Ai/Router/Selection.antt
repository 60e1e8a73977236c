-- ===== src/Ai/Router/Selection.antt =====
-- The model that is selected satisfies the request's constraints, with one exception.
use trading_brain.Base.{
  ◌≤◌, ◌<◌, ◌≡◌, ◌⊎◌, refl, sym, ap, subst, Bool, true, false, Option, none, some, List, [], ◌∷◌,
  arith, ◌==◌, keep, All, All-append, Result, ok, err, >>=-eq-ok, if_ind, inl, inr, Bool-cases,
  Option-cases, leb→le,
}
use trading_brain.Ai.Kinds.{AiTier, ErrorKind, same_tier}
use trading_brain.Ai.Schemas.{Name, AiRequest, context_size}
use trading_brain.Ai.Registry.{
  AiModel, AiProviderRegistry, Provider, get, models_of, collect, available, models_for_tier,
}
use trading_brain.Ai.Router.{
  is_allowed, non_empty, restrict, find_named, requested_from, fits, head_or_error, prefer_tools,
  choose, select_model,
}

module _ (P : AiModel → Type 0) where
  keep-All : (p : AiModel → Bool) (ms : List AiModel) → All P ms → All P (keep p ms)
  keep-All p [] h = tt
  keep-All p (m ∷ ms) h =
      if_ind (All P) (p m) (λ _. (h.0, keep-All p ms h.1)) (λ _. keep-All p ms h.1)

  find_named-All :
      (n : Name) (ms : List AiModel) {m : AiModel} → All P ms → find_named n ms ≡ some m → P m
  unfolding find_named
  find_named-All n [] h e = cc
  find_named-All n (x ∷ ms) h e = elim (Bool-cases (x.name == n)) [
    | inl here ↦ subst P {x = x} (ground arith) h.0
    | inr there ↦ find_named-All n ms h.1 (rw there at e)
  ]

  head-All : (ms : List AiModel) {m : AiModel} → All P ms → head_or_error ms ≡ ok m → P m
  head-All [] h e = cc
  head-All (x ∷ ms) h e = subst P (cc) h.0

  prefer_tools-All : (r : AiRequest) (ms : List AiModel) → All P ms → All P (prefer_tools r ms)
  unfolding prefer_tools
  prefer_tools-All r ms h = elim (Option-cases r.schema) [
    | inl free ↦ rw (free, prefer_tools) h
    | inr (s, structured) ↦
        rw (structured, prefer_tools)
          (choice (keep (λ (m : AiModel). m.supports_tools) ms)
            (keep-All (λ (m : AiModel). m.supports_tools) ms h))
  ]
    where
      choice :
          (with_tools : List AiModel)
          → All P with_tools
          → All P (elim with_tools [ [] ↦ ms | m ∷ rest ↦ m ∷ rest ])
      choice [] k = h
      choice (m ∷ rest) k = k

  non_empty-All :
      (ms : List AiModel) {ns : List AiModel} → All P ms → non_empty ms ≡ ok ns → All P ns
  non_empty-All [] h e = cc
  non_empty-All (m ∷ ms) h e = subst (All P) {x = m ∷ ms} (cc) h

  restrict-All :
      (r : AiRequest) (ms : List AiModel) {ns : List AiModel}
      → All P ms
      → restrict r ms ≡ ok ns
      → All P ns
  unfolding restrict
  restrict-All r ms h e = names r.policy.allowed_models e
    where
      names :
          (allowed : List Name) {ns : List AiModel}
          → (elim allowed [ [] ↦ ok ms | _ ↦ non_empty (keep (is_allowed r) ms) ]) ≡ ok ns
          → All P ns
      names [] k = subst (All P) {x = ms} (cc) h
      names (n ∷ ns) k = non_empty-All (keep (is_allowed r) ms) (keep-All (is_allowed r) ms h) k

  requested-All :
      (wanted : Option Name) (ms : List AiModel) {m : AiModel}
      → All P ms
      → (elim wanted [ none ↦ none | some n ↦ find_named n ms ]) ≡ some m
      → P m
  requested-All none ms h e = cc
  requested-All (some n) ms h e = find_named-All n ms h e

  choose-All :
      (r : AiRequest) (ms : List AiModel) {m : AiModel} → All P ms → choose r ms ≡ ok m → P m
  unfolding choose
  choose-All r ms {m} h e = elim (Option-cases (requested_from r ms)) [
    | inl free ↦
        head-All (prefer_tools r (keep (fits r) ms))
          (prefer_tools-All r (keep (fits r) ms) (keep-All (fits r) ms h)) (rw (free, choose) at e)
    | inr (x, found) ↦
        subst P {x = x} (ground (arith, rw (found, choose) at e))
          (requested-All r.policy.requested_model ms h found)
  ]

  -- What holds of every candidate holds of the model that is selected.
  pub select_model-All :
      (r : AiRequest) (candidates : List AiModel) {m : AiModel}
      → All P candidates
      → select_model r candidates ≡ ok m
      → P m
  unfolding select_model
  select_model-All r candidates h e =
      let (some_candidates, e1, rest) = >>=-eq-ok (non_empty candidates) _ e in
      let (allowed, e2, e3) = >>=-eq-ok (restrict r some_candidates) _ rest in
      choose-All r allowed (restrict-All r some_candidates (non_empty-All candidates h e1) e2) e3

find_named-name :
    (n : Name) (ms : List AiModel) {m : AiModel} → find_named n ms ≡ some m → m.name ≡ n
unfolding find_named
find_named-name n [] e = cc
find_named-name n (x ∷ ms) {m} e = ground (arith, find_named-name n ms {m = m})

requested-name :
    (wanted : Option Name) (ms : List AiModel) {m : AiModel}
    → (elim wanted [ none ↦ none | some n ↦ find_named n ms ]) ≡ some m
    → wanted ≡ some m.name
requested-name none ms e = cc
requested-name (some n) ms e = ap some (sym (find_named-name n ms e))

abbrev pub IsMeant : AiRequest → AiModel → Type 0
IsMeant r m = (r.policy.requested_model ≡ some m.name) ⊎ (context_size r ≤ m.max_context_chars)

keep-fits : (r : AiRequest) (ms : List AiModel) → All (λ m. fits r m ≡ true) (keep (fits r) ms)
keep-fits r [] = tt
keep-fits r (m ∷ ms) =
    if_ind (All (λ m. fits r m ≡ true)) (fits r m) (λ e. (e, keep-fits r ms)) (λ _. keep-fits r ms)

choose-IsMeant :
    (r : AiRequest) (ms : List AiModel) {m : AiModel} → choose r ms ≡ ok m → IsMeant r m
unfolding choose
choose-IsMeant r ms {m} e = elim (Option-cases (requested_from r ms)) [
  | inl free ↦ inr (
      leb→le _ _ (
        head-All (λ m. fits r m ≡ true) (prefer_tools r (keep (fits r) ms))
          (prefer_tools-All (λ m. fits r m ≡ true) r (keep (fits r) ms) (keep-fits r ms))
          (rw (free, choose) at e)))
  | inr (x, found) ↦ inl (
      subst (λ y. r.policy.requested_model ≡ some (AiModel.name y)) {x = x} {y = m}
        (ground (arith, rw (found, choose) at e))
        (requested-name r.policy.requested_model ms found))
]

abbrev pub IsPermitted : AiRequest → AiModel → Type 0
IsPermitted r m = (r.policy.allowed_models ≡ []) ⊎ (is_allowed r m ≡ true)

keep-allowed : (r : AiRequest) (ms : List AiModel) → All (IsPermitted r) (keep (is_allowed r) ms)
keep-allowed r [] = tt
keep-allowed r (m ∷ ms) =
    if_ind (All (IsPermitted r)) (is_allowed r m) (λ e. (inr e, keep-allowed r ms))
      (λ _. keep-allowed r ms)

All-trivial {κ} : {A : Type 0} (P : A → Type κ) (f : (a : A) → P a) (xs : List A) → All P xs
All-trivial P f [] = tt
All-trivial P f (x ∷ xs) = (f x, All-trivial P f xs)

restrict-IsPermitted :
    (r : AiRequest) (ms : List AiModel) {ns : List AiModel}
    → restrict r ms ≡ ok ns
    → All (IsPermitted r) ns
unfolding restrict
restrict-IsPermitted r ms {ns} e = names r.policy.allowed_models refl
  where
    names : (allowed : List Name) → r.policy.allowed_models ≡ allowed → All (IsPermitted r) ns
    names [] k = All-trivial (IsPermitted r) (λ m. inl k) ns
    names (n ∷ rest) k =
        non_empty-All (IsPermitted r) (keep (is_allowed r) ms) (keep-allowed r ms)
          (rw (k, restrict) at e)

models_of-tier :
    (tier : AiTier) (p : Result ErrorKind Provider)
    → All (λ m. same_tier (AiModel.tier m) tier ≡ true) (models_of tier p)
models_of-tier tier (ok p) = same p
  where
    same :
        (ms : Provider)
        → All
            (λ m. same_tier (AiModel.tier m) tier ≡ true)
            (keep (λ (m : AiModel). same_tier m.tier tier) ms)
    same [] = tt
    same (m ∷ ms) =
        if_ind (All (λ m. same_tier (AiModel.tier m) tier ≡ true)) (same_tier m.tier tier)
          (λ e. (e, same ms)) (λ _. same ms)
models_of-tier tier (err k) = tt

collect-tier :
    (tier : AiTier) (names : List Name) (g : AiProviderRegistry)
    → All (λ m. same_tier (AiModel.tier m) tier ≡ true) (collect tier names g).1
unfolding collect
collect-tier tier [] g = tt
collect-tier tier (name ∷ names) g =
    All-append _ (models_of tier (get name g).1) (collect tier names (get name g).0).1
      (models_of-tier tier (get name g).1) (collect-tier tier names (get name g).0)

-- A model that is selected from the candidates of a tier is of that tier, is among the allowed
-- models where the policy names some, and has room for the request or is the model that the request
-- asked for.
pub select_model-legitimate :
    (r : AiRequest) (tier : AiTier) (g : AiProviderRegistry) {m : AiModel}
    → select_model r (models_for_tier tier g).1 ≡ ok m
    → (same_tier m.tier tier ≡ true) × IsPermitted r m × IsMeant r m
unfolding select_model models_for_tier
select_model-legitimate r tier g e =
    let candidates : List AiModel = (collect tier (available g) g).1 in
    let (some_candidates, e1, rest) = >>=-eq-ok (non_empty candidates) _ e in
    let (allowed, e2, e3) = >>=-eq-ok (restrict r some_candidates) _ rest in
    (
      select_model-All (λ m. same_tier (AiModel.tier m) tier ≡ true) r candidates
          (collect-tier tier (available g) g) e,
      choose-All (IsPermitted r) r allowed (restrict-IsPermitted r some_candidates e2) e3,
      choose-IsMeant r allowed e3,
    )

-- A requested model that is a candidate is selected whatever the size of the request: the test that
-- the request fits is not made on this path.
select_model-skips_size :
    (r : AiRequest) (m : AiModel) (rest : List AiModel)
    → r.policy.allowed_models ≡ []
    → r.policy.requested_model ≡ some m.name
    → m.max_context_chars < context_size r
    → (select_model r (m ∷ rest) ≡ ok m) × (fits r m ≡ false)
unfolding select_model restrict choose find_named
select_model-skips_size r m rest free wanted small = ground (arith, free, wanted)
