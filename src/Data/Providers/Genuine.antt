-- ===== src/Data/Providers/Genuine.antt =====
-- Generated data never stands in for real data.
use trading_brain.Base.{
  ◌≡◌, ◌⊎◌, inl, inr, refl, ap, sym, ◌∙◌, subst, arith, Bool, true, false, Option, none, some, List,
  [], ◌∷◌, ◌==◌, lookup, lookup-insert, Result, ok, err, ◌>>=◌, All, All-map, Has, Option-cases,
  Bool-cases, >>=-eq-ok,
}
use trading_brain.Data.Providers.{
  Name, Provider, Fault, Registration, ProviderRegistry, construct, get, Execution, answer_of,
  is_skipped, tried_then, execute_from, execute, all_genuine, set_fallbacks,
}

-- Whether a name is registered, and as synthetic.
abbrev pub synthetic_of : Name → ProviderRegistry → Option Bool
synthetic_of name r = elim (lookup name r.registrations) [ none ↦ none | some g ↦ some g.synthetic ]

construct_lem :
    (g : Registration)
    → ((construct (construct g).0).1 ≡ (construct g).1) × ((construct g).0.synthetic ≡ g.synthetic)
unfolding construct
construct_lem g = ground arith

get_absent : (m : Name) (r : ProviderRegistry) → lookup m r.registrations ≡ none → (get m r).0 ≡ r
unfolding get
get_absent m r absent = rw (absent, get) refl

-- Building a provider changes neither what any name answers nor which are synthetic.
get-get :
    (n m : Name) (r : ProviderRegistry)
    → ((get n (get m r).0).1 ≡ (get n r).1) × (synthetic_of n (get m r).0 ≡ synthetic_of n r)
unfolding get
get-get n m r = elim (Option-cases (lookup m r.registrations)) [
  | inl absent ↦
      (ap (λ q. (get n q).1) (get_absent m r absent), ap (synthetic_of n) (get_absent m r absent))
  | inr (g, found) ↦ elim (Bool-cases (n == m)) [
    | inl same ↦
        ground
          (arith, found, same, lookup-insert m n (construct g).0 r.registrations, construct_lem g)
    | inr other ↦ ground (arith, found, other, lookup-insert m n (construct g).0 r.registrations)
  ]
]

module _ {V : Type 0} (call : Provider → Result Fault V) (primary : Name)
    (r0 : ProviderRegistry) where
  -- A name that may be asked: the primary, which was chosen on purpose, or a fallback that is registered
  -- as not synthetic.
  abbrev pub IsGenuine : Name → Type 0
  IsGenuine n = ((n == primary) ≡ true) ⊎ (Has n r0.fallbacks × (synthetic_of n r0 ≡ some false))

  abbrev IsCandidate : Name → Type 0
  IsCandidate n = ((n == primary) ≡ true) ⊎ Has n r0.fallbacks

  Has-IsCandidate : (names : List Name) → All (λ n. Has n names) names
  Has-IsCandidate [] = tt
  Has-IsCandidate (n ∷ names) = (
    inl refl,
    All-map (λ m. Has m names) (λ m. Has m (n ∷ names)) names (λ m h. inr h)
        (Has-IsCandidate names),
  )

  candidates : All IsCandidate (primary ∷ r0.fallbacks)
  candidates = (
    inl (ground arith),
    All-map (λ m. Has m r0.fallbacks) IsCandidate r0.fallbacks (λ m h. inr h)
        (Has-IsCandidate r0.fallbacks),
  )

  -- Only such names were tried, and a result is the answer of one of them.
  pub record IsServed (x : Execution V) : Type 0 where
    pub tried : All IsGenuine x.tried
    pub served : (v : V) → x.result ≡ ok v → (n : Name) × IsGenuine n × (answer_of call n r0 ≡ ok v)

  -- A registry in which some providers may have been built since.
  record IsSame (r : ProviderRegistry) : Type 0 where
    same_provider : (n : Name) → (get n r).1 ≡ (get n r0).1
    same_synthetic : (n : Name) → synthetic_of n r ≡ synthetic_of n r0

  IsSame-get : (m : Name) (r : ProviderRegistry) → IsSame r → IsSame (get m r).0
  IsSame-get m r h = record {
    same_provider = λ n. (get-get n m r).0 ∙ h.same_provider n;
    same_synthetic = λ n. (get-get n m r).1 ∙ h.same_synthetic n;
  }

  is_skipped-IsGenuine :
      (n : Name) (r : ProviderRegistry)
      → IsSame r
      → IsCandidate n
      → is_skipped call primary n r ≡ ok false
      → IsGenuine n
  is_skipped-IsGenuine n r h (inl chosen) asked = inl chosen
  is_skipped-IsGenuine n r h (inr listed) asked = elim (Bool-cases (n == primary)) [
    | inl chosen ↦ inl chosen
    | inr other ↦ inr (
      listed,
      sym (h.same_synthetic n) ∙ elim (Option-cases (lookup n r.registrations)) [
        | inl absent ↦ ground (arith, absent, other, asked)
        | inr (g, found) ↦ ground (arith, found, other, asked)
      ],
    )
  ]

  tried_then-IsServed :
      (n : Name) (r : ProviderRegistry) (a : Result Fault V) (rest : Execution V)
      → IsGenuine n
      → answer_of call n r0 ≡ a
      → IsServed rest
      → IsServed (tried_then call n r a rest)
  tried_then-IsServed n r (ok v) rest genuine answer h = record {
    tried = (genuine, tt);
    served = λ w e. (n, genuine, answer ∙ e);
  }
  tried_then-IsServed n r (err Fault.other_exception) rest genuine answer h = record {
    tried = (genuine, tt);
    served = λ w e. cc;
  }
  tried_then-IsServed n r (err Fault.provider_error) rest genuine answer h = record {
    tried = (genuine, h.tried);
    served = h.served;
  }

  nothing_served : (x : Execution V) (e : Fault) → x.tried ≡ [] → x.result ≡ err e → IsServed x
  nothing_served x e none_tried failed = record {
    tried = subst (All IsGenuine) (sym none_tried) tt;
    served = λ v k. ground (arith, failed, k);
  }

  choose :
      (m : Result Fault Bool) (r : ProviderRegistry) (skipping asked : Execution V)
      → (m ≡ ok true → IsServed skipping)
      → (m ≡ ok false → IsServed asked)
      → IsServed (elim m [
        | err e ↦ record { registry = r; tried = []; result = err e }
        | ok true ↦ skipping
        | ok false ↦ asked
      ])
  choose (err e) r skipping asked hs ha = nothing_served _ e refl refl
  choose (ok true) r skipping asked hs ha = hs refl
  choose (ok false) r skipping asked hs ha = ha refl

  execute_from-IsServed :
      (names : List Name) (r : ProviderRegistry)
      → IsSame r
      → All IsCandidate names
      → IsServed (execute_from call primary names r)
  unfolding execute_from
  execute_from-IsServed [] r h listed = nothing_served _ Fault.provider_error refl refl
  execute_from-IsServed (n ∷ names) r h listed =
      choose (is_skipped call primary n r) r (execute_from call primary names r) _
        (λ _. execute_from-IsServed names r h listed.1)
        (λ asked.
          tried_then-IsServed n (get n r).0 (answer_of call n r)
            (execute_from call primary names (get n r).0)
            (is_skipped-IsGenuine n r h listed.0 asked)
            (ap (λ (p : Result Fault Provider). p >>= call) (sym (h.same_provider n)))
            (execute_from-IsServed names (get n r).0 (IsSame-get n r h) listed.1))

execute_lem :
    {V : Type 0} (call : Provider → Result Fault V) (primary : Name) (r : ProviderRegistry)
    → r.primary ≡ some primary
    → execute call r ≡ execute_from call primary (primary ∷ r.fallbacks) r
unfolding execute
execute_lem {V} call primary r chosen =
    ap
      (λ (o : Option Name). elim o as (λ _. Execution V) [
        | none ↦ record { registry = r; tried = []; result = err Fault.provider_error }
        | some n ↦ execute_from call n (n ∷ r.fallbacks) r
      ])
      chosen

all_genuine-All :
    (r : ProviderRegistry) (ns : List Name)
    → all_genuine ns r ≡ ok tt
    → All (λ n. synthetic_of n r ≡ some false) ns
unfolding all_genuine
all_genuine-All r [] e = tt
all_genuine-All r (n ∷ ns) e = elim (Option-cases (lookup n r.registrations)) [
  | inl absent ↦ ground (arith, absent, e)
  | inr (g, found) ↦ elim (Bool-cases g.synthetic) [
    | inl generated ↦ ground (arith, found, generated, e)
    | inr real ↦
        (ground (arith, found, real), all_genuine-All r ns (ground (arith, found, real, e)))
  ]
]

-- If a primary provider is set, `execute` asks only that one and providers that the list of fallbacks
-- names and that are registered as not synthetic, whatever else the list names, and a result that it
-- returns is the answer of one that it may ask.
pub execute-IsServed :
    {V : Type 0} (call : Provider → Result Fault V) (primary : Name) (r : ProviderRegistry)
    → r.primary ≡ some primary
    → IsServed call primary r (execute call r)
unfolding execute
execute-IsServed call primary r chosen =
    subst (IsServed call primary r) (sym (execute_lem call primary r chosen)) (
      execute_from-IsServed call primary r (primary ∷ r.fallbacks) r
        (record { same_provider = λ n. refl; same_synthetic = λ n. refl })
        (candidates call primary r))

-- A list of fallbacks that is accepted names registered providers that are not synthetic.
set_fallbacks-All :
    (names : List Name) (r : ProviderRegistry) {q : ProviderRegistry}
    → set_fallbacks names r ≡ ok q
    → All (λ n. synthetic_of n r ≡ some false) q.fallbacks
unfolding set_fallbacks
set_fallbacks-All names r {q} h =
    let (u, accepted, same) = >>=-eq-ok (all_genuine names r) _ h in
    subst (λ (x : ProviderRegistry). All (λ n. synthetic_of n r ≡ some false) x.fallbacks)
      {x = record r { fallbacks = names }} {y = q} (ground (arith, same))
      (all_genuine-All r names accepted)
