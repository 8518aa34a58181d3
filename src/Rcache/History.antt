-- ===== src/Rcache/History.antt =====
-- The registry cache of rcache/registry-cache.go while several goroutines use it. A query, an Add, with
-- its look at the clock, and a Delete are one step each; between them anything may happen.
use mathlib.Core.List.{Mem, mem-cons_self, mem-cons_of_mem}
use go_code_goes_here.Prelude.{
  ℕ, ◌+◌, ◌*◌, ◌≡◌, refl, Bytes, List, [], ◌∷◌, Option, none, some, lookup, lookup-store,
  lookup-delete, ltb, if◌then◌else◌, arith, All, All-map, All-lookup, Option-cases, Bool-cases, inl,
  inr,
}
use go_code_goes_here.World.{ServiceInfo, World}
use go_code_goes_here.Rcache.{
  second, CacheEntry, RegistryCache, new_registry_cache, delete_service, add, get, request,
  get_or_request,
}

-- What happened to a name: it was deleted, or information was added for it at a time.
abbrev pub Log : Type 0
Log = List (Bytes × Option (ServiceInfo × ℕ))

module _ (w : World) where
  open w use {State, now, get_service}

  -- The cache, with the answers that the registry has given and the log of the changes, newest first.
  pub record Shared : Type 0 where
    pub cache : RegistryCache
    pub outside : State
    pub answered : List (Bytes × ServiceInfo)
    pub log : Log

  -- A request asks the registry, and later adds an answer; a name is deleted; and time goes by.
  pub data Step (f : Shared) : Shared → Type 0 where
    answers :
        (name : Bytes)
        → (get_service name f.outside).0.error ≡ none
        → Step f (record f {
          outside = (get_service name f.outside).1;
          answered = (name, (get_service name f.outside).0.info) ∷ f.answered;
        })
    adds :
        (name : Bytes) (info : ServiceInfo)
        → Mem (name, info) f.answered
        → Step f (record f {
          cache = (add w name info f.cache f.outside).0;
          outside = (add w name info f.cache f.outside).1;
          log = (name, some (info, (now f.outside).0)) ∷ f.log;
        })
    deletes :
        (name : Bytes)
        → Step f (record f { cache = delete_service name f.cache; log = (name, none) ∷ f.log })
    elsewhere : (s : State) → Step f (record f { outside = s })

  pub data Reach (ttl : ℕ) : Shared → Type 0 where
    begins :
        (s : State)
        → Reach ttl
            (record { cache = new_registry_cache ttl; outside = s; answered = []; log = [] })
    steps : {f g : Shared} → Reach ttl f → Step f g → Reach ttl g

  -- What a Get finds, by the log alone: the information that was added last, for its lifetime.
  abbrev pub get_logged : ℕ → Log → Bytes → State → Option ServiceInfo × State
  get_logged ttl log name s = elim (lookup name log) [
    | none ↦ (none, s)
    | some change ↦ elim change [
      | none ↦ (none, s)
      | some (info, t) ↦
          let (n, s') = now s in if ltb (t + ttl) n then (none, s') else (some info, s')
    ]
  ]

  -- The entry that the log makes for a name.
  abbrev entry_of : ℕ → Log → Bytes → Option CacheEntry
  entry_of ttl log name = elim (lookup name log) [
    | none ↦ none
    | some change ↦ elim change [
      | none ↦ none
      | some (info, t) ↦ some (record { info = info; expiry = t + ttl })
    ]
  ]

  -- A change that adds nothing but an answer of the registry for the name.
  abbrev IsAnswered : List (Bytes × ServiceInfo) → Bytes × Option (ServiceInfo × ℕ) → Type 0
  IsAnswered answered (name, none) = Unit
  IsAnswered answered (name, some (info, t)) = Mem (name, info) answered

  abbrev IsLogged : ℕ → Shared → Type 0
  IsLogged ttl f =
      (f.cache.ttl ≡ ttl * second)
      × ((name : Bytes) → lookup name f.cache.entries ≡ entry_of (ttl * second) f.log name)
      × All (IsAnswered f.answered) f.log

  IsAnswered-cons :
      (a : Bytes × ServiceInfo) (answered : List (Bytes × ServiceInfo))
      (change : Bytes × Option (ServiceInfo × ℕ))
      → IsAnswered answered change
      → IsAnswered (a ∷ answered) change
  IsAnswered-cons a answered (name, none) h = tt
  IsAnswered-cons a answered (name, some (info, t)) h = mem-cons_of_mem a h

  Step-IsLogged : (ttl : ℕ) (f g : Shared) → IsLogged ttl f → Step f g → IsLogged ttl g
  unfolding add delete_service lookup
  Step-IsLogged ttl f g (same_ttl, found, answered) (answers name works) =
      (same_ttl, found, All-map (IsAnswered-cons _ f.answered) f.log answered)
  Step-IsLogged ttl f g (same_ttl, found, answered) (adds name info known) = (
    same_ttl,
    λ j. ground (
      arith,
      lookup-store name j (record { info = info; expiry = (now f.outside).0 + f.cache.ttl })
          f.cache.entries,
      found j,
      same_ttl,
    ),
    (known, answered),
  )
  Step-IsLogged ttl f g (same_ttl, found, answered) (deletes name) =
      (same_ttl, λ j. ground (arith, lookup-delete name j f.cache.entries, found j), (tt, answered))
  Step-IsLogged ttl f g h (elsewhere s) = h

  Reach-IsLogged : {ttl : ℕ} {f : Shared} → Reach ttl f → IsLogged ttl f
  unfolding new_registry_cache lookup
  Reach-IsLogged (begins s) = (refl, λ name. refl, tt)
  Reach-IsLogged (steps r step) = Step-IsLogged _ _ _ (Reach-IsLogged r) step

  -- A Get that finds something for a name finds an answer of the registry for it.
  abbrev pub IsKnown : List (Bytes × ServiceInfo) → Bytes → Option ServiceInfo → Type 0
  IsKnown answered name none = Unit
  IsKnown answered name (some info) = Mem (name, info) answered

  get_logged-IsKnown :
      (ttl : ℕ) (answered : List (Bytes × ServiceInfo)) (log : Log) (name : Bytes) (s : State)
      → All (IsAnswered answered) log
      → IsKnown answered name (get_logged ttl log name s).0
  get_logged-IsKnown ttl answered log name s h = elim (Option-cases (lookup name log)) [
    | inl e ↦ rw (e, get_logged, IsKnown) tt
    | inr (none, e) ↦ rw (e, get_logged, IsKnown) tt
    | inr (some (info, t), e) ↦
        let known : Mem (name, info) answered = All-lookup (IsAnswered answered) name _ log h e in
        elim (Bool-cases (ltb (t + ttl) (now s).0)) [
          | inl l ↦ rw (e, l, get_logged, IsKnown) tt
          | inr l ↦ rw (e, l, get_logged, IsKnown) known
        ]
  ]

  -- Whatever the goroutines that share a new cache do, in whichever order their queries, their calls of
  -- Add with the answers, and their deletions come: Get finds for a name the information that was added
  -- for it last, if it was not deleted since and its lifetime is not over, and nothing else; and that
  -- information is an answer that the registry has given for the name.
  pub get-Reach :
      {ttl : ℕ} {f : Shared} (name : Bytes) (s : State)
      → Reach ttl f
      → (get w name f.cache s ≡ get_logged (ttl * second) f.log name s)
        × IsKnown f.answered name (get w name f.cache s).0
  unfolding get
  get-Reach {ttl = ttl} {f = f} name s r =
      let (same_ttl, found, answered) = Reach-IsLogged r in
      let same_get : get w name f.cache s ≡ get_logged (ttl * second) f.log name s =
        ground (arith, found name) in
      (same_get, rw same_get (get_logged-IsKnown (ttl * second) f.answered f.log name s answered))

  -- What GetOrRequestService does is some of these steps.
  pub get_or_request-Reach :
      {ttl : ℕ} {f : Shared} (name : Bytes)
      → Reach ttl f
      → (g : Shared) × Reach ttl g
        × ((get_or_request w name f.cache f.outside).1 ≡ g.cache)
        × ((get_or_request w name f.cache f.outside).2 ≡ g.outside)
  unfolding get_or_request request
  get_or_request-Reach {f = f} name r =
      let s = (get w name f.cache f.outside).1 in
      let later = steps r (elsewhere s) in
      elim (Option-cases (get w name f.cache f.outside).0) [
        | inr (info, e) ↦ (_, later, ground (arith, e), ground (arith, e))
        | inl e ↦ elim (Option-cases (get_service name s).0.error) [
          | inr (failed, k) ↦ (
            _,
            steps r (elsewhere (get_service name s).1),
            ground (arith, e, k),
            ground (arith, e, k),
          )
          | inl k ↦ (
            _,
            steps (steps later (answers name k))
                (adds name (get_service name s).0.info mem-cons_self),
            ground (arith, e, k),
            ground (arith, e, k),
          )
        ]
      ]
