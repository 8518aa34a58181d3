-- ===== src/Lca/Cull/Laws.antt =====
-- Which services CullUnusedServices of lca/lca-allocator.go culls, and what it leaves.
use go_code_goes_here.Prelude.{
  ℕ, ◌^◌, ◌<◌, ◌≡◌, refl, Bytes, codes, Bool, true, false, ◌||◌, List, [], ◌∷◌, ◌++◌, none, arith,
  lookup, delete, All, lookup-delete, same, same_iff, ltb, Option, some, Option-cases, Bool-cases,
  inl, inr, ap, if◌then◌else◌,
}
use go_code_goes_here.World.{Error, ok, err}
use go_code_goes_here.Strconv.{itoa}
use go_code_goes_here.Strconv.Laws.{parse_int-itoa, trim_space-digits, itoa-IsDigit}
use go_code_goes_here.Lca.Machine.{Machine}
use go_code_goes_here.Lca.Allocator.{Services}
use go_code_goes_here.Lca.Cull.{
  Service, is_over_time, is_unused, should_cull, services_to_cull, cull_each, cull_unused_services,
}

-- A service that reports a number of seconds, on a line, is unused exactly if it is more than 60.
pub is_unused-itoa : (n : ℕ) → n < 2 ^ 63 → is_unused (itoa n ++ codes "\n") ≡ ltb 60 n
unfolding is_unused is_over_time
is_unused-itoa n h =
    rw (trim_space-digits (itoa n) (itoa-IsDigit n), is_unused) (rw (parse_int-itoa n h))

-- Whether the cull list names a metrics port.
abbrev pub names : Bytes → List Service → Bool
names k [] = false
names k (service ∷ rest) = same service.metrics_port k || names k rest

module _ (m : Machine) where
  open m use {State, Body, http_get, read_all}

  lookup-cull_each :
      (k : Bytes) (culled : List Service) (services : Services) (s : State)
      → lookup k (cull_each m culled services s).0
        ≡ (if names k culled then none else lookup k services)
  unfolding cull_each
  lookup-cull_each k [] services s = refl
  lookup-cull_each k (service ∷ rest) services s = ground (
    arith,
    lookup-cull_each k rest (delete service.metrics_port services)
        (m.delete_container service.cid (m.stop_container service.cid s)),
    lookup-delete service.metrics_port k services,
  )

  -- What the loop decides on a service: one whose metrics cannot be fetched or read is culled, and one
  -- that reports a number of seconds on a line is culled exactly if it is more than 60.
  pub data Judged (metrics_port : Bytes) (s : State) : Type 0 where
    unreachable :
        (e : Error)
        → (http_get (codes "http://127.0.0.1:" ++ metrics_port) s).0 ≡ err e
        → Judged metrics_port s
    unreadable :
        (b : Body) (e : Error)
        → (http_get (codes "http://127.0.0.1:" ++ metrics_port) s).0 ≡ ok b
        → (read_all b (http_get (codes "http://127.0.0.1:" ++ metrics_port) s).1).0 ≡ err e
        → Judged metrics_port s
    reports :
        (b : Body) (n : ℕ)
        → (http_get (codes "http://127.0.0.1:" ++ metrics_port) s).0 ≡ ok b
        → (read_all b (http_get (codes "http://127.0.0.1:" ++ metrics_port) s).1).0
          ≡ ok (itoa n ++ codes "\n")
        → n < 2 ^ 63
        → Judged metrics_port s

  abbrev pub verdict : {metrics_port : Bytes} {s : State} → Judged metrics_port s → Bool
  verdict (unreachable e h) = true
  verdict (unreadable b e h k) = true
  verdict (reports b n h k f) = ltb 60 n

  -- A service whose metrics cannot be fetched or cannot be read is to be culled; one that reports a
  -- number of seconds below 2^63, on a line, is to be culled exactly if the number is more than 60.
  pub should_cull-verdict :
      {metrics_port : Bytes} {s : State} (j : Judged metrics_port s)
      → (should_cull m metrics_port s).0 ≡ verdict j
  unfolding should_cull
  should_cull-verdict (unreachable e h) = ground arith
  should_cull-verdict (unreadable b e h k) = ground arith
  should_cull-verdict (reports b n h k f) = ground (arith, is_unused-itoa n f)

  nothing_to_cull :
      (services : Services) (s : State)
      → All (λ entry. (t : State) → (should_cull m entry.0 t).0 ≡ false) services
      → (services_to_cull m services s).0 ≡ []
  unfolding services_to_cull
  nothing_to_cull [] s h = refl
  nothing_to_cull ((port, cid) ∷ rest) s h =
      ground (arith, h.0 s, nothing_to_cull rest (should_cull m port s).1 h.1)

  -- Where no service of the map is to be culled, whatever the state, the map stays as it is.
  pub cull_unused_services_keeps :
      (services : Services) (s : State)
      → All (λ entry. (t : State) → (should_cull m entry.0 t).0 ≡ false) services
      → (cull_unused_services m services s).0 ≡ services
  unfolding cull_unused_services cull_each
  cull_unused_services_keeps services s h = rw (nothing_to_cull services s h, cull_each)

  -- What the proxy of a service reports on a metrics port, whenever it is asked: seconds since its last
  -- request, on a line, or nothing, as it cannot be reached.
  abbrev pub Reports : Bytes → Option ℕ → Type 0
  Reports metrics_port none =
      (t : State)
      → (e : Error) × ((http_get (codes "http://127.0.0.1:" ++ metrics_port) t).0 ≡ err e)
  Reports metrics_port (some n) =
      (n < 2 ^ 63)
      × ((t : State)
          → (b : Body) × ((http_get (codes "http://127.0.0.1:" ++ metrics_port) t).0 ≡ ok b)
            × ((read_all b (http_get (codes "http://127.0.0.1:" ++ metrics_port) t).1).0
                ≡ ok (itoa n ++ codes "\n")))

  -- More than a minute without a request, or no report.
  abbrev pub is_idle : Option ℕ → Bool
  is_idle none = true
  is_idle (some n) = ltb 60 n

  should_cull-is_idle :
      (metrics_port : Bytes) (report : Option ℕ) (s : State)
      → Reports metrics_port report
      → (should_cull m metrics_port s).0 ≡ is_idle report
  should_cull-is_idle metrics_port none s h =
      let (e, q) = h s in should_cull-verdict (unreachable e q)
  should_cull-is_idle metrics_port (some n) s (f, h) =
      let (b, q, k) = h s in should_cull-verdict (reports b n q k f)

  -- The services of the map whose reports are as a function says.
  abbrev pub AllReport : (Bytes → Option ℕ) → Services → Type 0
  AllReport report = All (λ entry. Reports entry.0 (report entry.0))

  -- The cull list names a port of the map exactly if its service is idle.
  names-services_to_cull :
      (report : Bytes → Option ℕ) (k : Bytes) (services : Services) (s : State)
      → AllReport report services
      → names k (services_to_cull m services s).0
        ≡ elim (lookup k services) [ none ↦ false | some cid ↦ is_idle (report k) ]
  unfolding services_to_cull lookup
  names-services_to_cull report k [] s h = refl
  names-services_to_cull report k ((port, cid) ∷ rest) s h =
      let idle = should_cull-is_idle port (report port) s h.0 in
      let later = names-services_to_cull report k rest (should_cull m port s).1 h.1 in
      elim (Bool-cases (same port k)) [
        | inr e ↦ ground (arith, idle, later, e)
        | inl e ↦
            let same_idle : is_idle (report port) ≡ is_idle (report k) =
              ap (λ x. is_idle (report x)) ((same_iff port k).0 e) in
            ground (arith, idle, later, e, same_idle, Option-cases (lookup k rest))
      ]

  -- Where the services of the map report the seconds since their last request, or cannot be reached:
  -- after a cull those that reported more than 60 seconds, and those that could not be reached, are gone
  -- from the map, and every other one is there as it was.
  pub lookup-cull_unused_services :
      (report : Bytes → Option ℕ) (k : Bytes) (services : Services) (s : State)
      → AllReport report services
      → lookup k (cull_unused_services m services s).0
        ≡ (if is_idle (report k) then none else lookup k services)
  unfolding cull_unused_services
  lookup-cull_unused_services report k services s h = ground (
    arith,
    lookup-cull_each k (services_to_cull m services s).0 services (services_to_cull m services s).1,
    names-services_to_cull report k services s h,
    Option-cases (lookup k services),
  )
