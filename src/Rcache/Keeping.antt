-- ===== src/Rcache/Keeping.antt =====
-- What GetOrRequestService of rcache/registry-cache.go answers for a service whose requirements do not
-- change: the requirements, from the cache or from the registry.
use go_code_goes_here.Prelude.{
  ◌≡◌, Bytes, Option, none, some, lookup, same, same_iff, subst, sym, Option-cases, Bool-cases, inl,
  inr,
}
use go_code_goes_here.World.{World, PerfInd, ServiceInfo}
use go_code_goes_here.Rcache.Laws.{
  lookup-request, request_ok, get-eq-some, get_or_request_hit, get_or_request_miss,
}
use go_code_goes_here.Rcache.{CacheEntry, RegistryCache, get, request, get_or_request}

-- The information asks for two requirements, a hard one and a soft one.
abbrev pub Asks : PerfInd → PerfInd → ServiceInfo → Type 0
Asks hard soft info = (info.network_hard_req ≡ hard) × (info.network_soft_req ≡ soft)

abbrev AsksIfThere : PerfInd → PerfInd → Option CacheEntry → Type 0
AsksIfThere hard soft none = Unit
AsksIfThere hard soft (some entry) = Asks hard soft entry.info

-- What is cached under a name, if anything is, asks for the requirements.
abbrev pub Keeps : Bytes → PerfInd → PerfInd → RegistryCache → Type 0
Keeps name hard soft rc = AsksIfThere hard soft (lookup name rc.entries)

module _ (w : World) (name : Bytes) (hard soft : PerfInd) where
  open w use {State, now, get_service}

  -- The registry always gives these requirements for the name.
  abbrev pub Registers : Type 0
  Registers = (s : State) → Asks hard soft (get_service name s).0.info

  module _ (registers : Registers) where
    request-Keeps :
        (j : Bytes) (rc : RegistryCache) (s : State)
        → Keeps name hard soft rc
        → Keeps name hard soft (request w j rc s).1
    unfolding request
    request-Keeps j rc s h = elim (Option-cases (get_service j s).0.error) [
      | inr (e, k) ↦ rw (k, request) h
      | inl k ↦
          subst (AsksIfThere hard soft) (sym (lookup-request w j name rc s k))
            (elim (Bool-cases (same j name)) [
              | inr b ↦ rw (b, AsksIfThere) h
              | inl b ↦
                  let registered : Asks hard soft (get_service j s).0.info =
                    subst (λ k. Asks hard soft (get_service k s).0.info)
                      (sym ((same_iff j name).0 b)) (registers s) in
                  rw (b, AsksIfThere) registered
            ])
    ]

    pub get_or_request-Keeps :
        (j : Bytes) (rc : RegistryCache) (s : State)
        → Keeps name hard soft rc
        → Keeps name hard soft (get_or_request w j rc s).1
    unfolding get_or_request
    get_or_request-Keeps j rc s h = elim (Option-cases (get w j rc s).0) [
      | inr (info, e) ↦ rw (e, get_or_request) h
      | inl e ↦ rw (e, get_or_request) (request-Keeps j rc (get w j rc s).1 h)
    ]

    pub get_or_request-Asks :
        (rc : RegistryCache) (s : State)
        → Keeps name hard soft rc
        → Asks hard soft (get_or_request w name rc s).0.info
    get_or_request-Asks rc s h = elim (Option-cases (get w name rc s).0) [
      | inl e ↦
          let s' = (get w name rc s).1 in
          rw (get_or_request_miss w name rc s e, request_ok w name rc s') (registers s')
      | inr (info, e) ↦
          let (entry, found, same_info) = get-eq-some w name rc s info e in
          let kept : Asks hard soft entry.info = subst (AsksIfThere hard soft) found h in
          rw (get_or_request_hit w name rc s info e) (subst (Asks hard soft) same_info kept)
    ]
