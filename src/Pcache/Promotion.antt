-- ===== src/Pcache/Promotion.antt =====
-- The way of a good peer through the levels of pcache/pcache.go: what updateCache of each round, under
-- the ticks of UpdateCache, makes of a peer that always meets the soft requirement.
use go_code_goes_here.Prelude.{
  ℕ, zero, suc, ◌+◌, ◌≤◌, ◌≡◌, Bytes, false, List, [], ◌∷◌, ◌++◌, arith, same_iff, same_refl,
  Bool-cases, inl, inr, Bool, leb, same, ◌&&◌, if◌then◌else◌, total, total-append, total-perm, ◌||◌,
  ◌==◌, All, All-append, subst,
}
use go_code_goes_here.World.{World, PeerInfo, PerfInd}
use go_code_goes_here.Rcache.{RegistryCache, get_or_request}
use go_code_goes_here.Rcache.Keeping.{
  Asks, Keeps, Registers, get_or_request-Keeps, get_or_request-Asks,
}
use go_code_goes_here.Pcache.Sorting.{Sorter}
use go_code_goes_here.Pcache.Sweep.{weight, sweep-total_ge, sweep-total_ge_inv}
use go_code_goes_here.Pcache.{
  RPeerInfo, PeerCache, add_peer, demote, regrade, probe, less, level, update_cache, run_updates,
}
use go_code_goes_here.Pcache.Shape.{
  cache, loop, counted_0, counted_1, counted_2, demoted, regraded, update_cache_lem,
}
use go_code_goes_here.Pcache.Reliability.{IsCapped, IsUndecided, IsGraded, update_cache-IsGraded}
use go_code_goes_here.Pcache.History.{IsCapped-if_reliable, IsCapped-if_undecided}

-- Whether a round-trip time misses one of two requirements: no answer is a time of 0.
abbrev pub misses : (w : World) → PerfInd → PerfInd → ℕ → Bool
misses w hard soft rtt =
    let perf : PerfInd = record { rtt = rtt } in
    (rtt == 0 || w.less_than hard perf) || w.less_than soft perf

-- 1 for an entry of the peer, under the name of its service, with a count of at least n.
abbrev pub is_entry_from : Bytes → Bytes → ℕ → RPeerInfo → ℕ
is_entry_from id name n p =
    if same id p.info.id && (same name p.info.serv_name && leb n p.r_count) then 1 else 0

-- The entries of a peer that are safe at level 0, and those that are at least so far at level 1.
abbrev standing : Bytes → Bytes → ℕ → List (List RPeerInfo) → ℕ
standing id name k ls =
    total (is_entry_from id name 90) (level ls 0) + total (is_entry_from id name k) (level ls 1)

module _ (id name : Bytes) where
  demote_holds :
      (k : ℕ) (p : RPeerInfo) (down : List RPeerInfo)
      → is_entry_from id name 91 p + total (is_entry_from id name k) down
        ≤ weight (is_entry_from id name 90) (demote p down).0
          + total (is_entry_from id name k) (demote p down).1
  unfolding demote
  demote_holds k p down =
      ground (arith, total-append (is_entry_from id name k) down (record p { r_count = 50 } ∷ []))

  regrade_holds :
      (k : ℕ) (p : RPeerInfo) (s : List RPeerInfo × List RPeerInfo)
      → 10 ≤ k
      → is_entry_from id name k p + total (is_entry_from id name 90) s.0
        ≤ weight (is_entry_from id name k) (regrade p s).0
          + total (is_entry_from id name 90) (regrade p s).1.0
  unfolding regrade
  regrade_holds k p (up, down) h =
      ground (arith, total-append (is_entry_from id name 90) up (p ∷ []))

  from_le :
      (k k' : ℕ) (xs : List RPeerInfo)
      → k' ≤ k
      → total (is_entry_from id name k) xs ≤ total (is_entry_from id name k') xs
  from_le k k' [] h = omega arith
  from_le k k' (x ∷ xs) h = ground (arith, from_le k k' xs h)

  -- No undecided peer has a count above 90.
  undecided_none :
      (xs : List RPeerInfo) → All IsUndecided xs → total (is_entry_from id name 91) xs ≤ 0
  undecided_none [] h = omega arith
  undecided_none (x ∷ xs) h = ground (arith, undecided_none xs h.1)

module _ (w : World) (sorter : Sorter RPeerInfo) where
  open w use {State, ping, less_than}

  run_updates-IsGraded :
      (n : ℕ) (c : PeerCache) (rc : RegistryCache) (s : State)
      → IsGraded c
      → IsGraded (run_updates w sorter n c rc s).0
  unfolding run_updates
  run_updates-IsGraded zero c rc s g = g
  run_updates-IsGraded (suc n) c rc s (a, b, e, tops, middles) =
      let g =
        update_cache-IsGraded w sorter a b [] rc s (IsCapped-if_reliable a tops)
          (IsCapped-if_undecided b middles) in
      run_updates-IsGraded n _ _ _ (rw e g)

  run_updates_grades :
      (n : ℕ) (a b c : List RPeerInfo) (rc : RegistryCache) (s : State)
      → 1 ≤ n
      → All IsCapped a
      → All IsCapped b
      → IsGraded (run_updates w sorter n (cache a b c) rc s).0
  unfolding run_updates
  run_updates_grades zero a b c rc s h ha hb = absurd (omega arith)
  run_updates_grades (suc n) a b c rc s h ha hb =
      run_updates-IsGraded n _ _ _ (update_cache-IsGraded w sorter a b c rc s ha hb)

  module _ (id name : Bytes) (hard soft : PerfInd) (registers : Registers w name hard soft)
      (meets : (s : State) → misses w hard soft (ping id hard.rtt s).0 ≡ false) where
    -- The invariant of the state that the pings pass on.
    abbrev Kept : RegistryCache × State → Type 0
    Kept e = Keeps name hard soft e.0

    probe_gains :
        (k : ℕ) (p : RPeerInfo) (e : RegistryCache × State)
        → k ≤ 99
        → Kept e
        → is_entry_from id name k p + 0 ≤ weight (is_entry_from id name (k + 1)) (probe w p e).0 + 0
    unfolding probe
    probe_gains k p (rc, s) h kept = elim (Bool-cases (same name p.info.serv_name)) [
      | inr e ↦ ground (arith, e)
      | inl e ↦
          let asks = get_or_request-Asks w name hard soft registers rc s kept in
          let (same_hard, same_soft) =
            subst (λ n. Asks hard soft (get_or_request w n rc s).0.info)
              ((same_iff name p.info.serv_name).0 e) asks in
          rw (same_hard, same_soft)
            (ground
              (arith, meets (get_or_request w p.info.serv_name rc s).2, same_iff id p.info.id))
    ]

    probe-Kept : (p : RPeerInfo) (e : RegistryCache × State) → Kept e → Kept (probe w p e).1
    unfolding probe
    probe-Kept p (rc, s) kept =
        get_or_request-Keeps w name hard soft registers p.info.serv_name rc s kept

    probes_gain :
        (k : ℕ) (xs : List RPeerInfo) (e : RegistryCache × State)
        → k ≤ 99
        → Kept e
        → (total (is_entry_from id name k) xs
            ≤ total (is_entry_from id name (k + 1)) (loop (probe w) xs e).0)
          × Kept (loop (probe w) xs e).1
    probes_gain k xs e h kept =
        let (gain, kept') =
          sweep-total_ge_inv (probe w) (is_entry_from id name k) (is_entry_from id name (k + 1))
            (λ _. 0) Kept (λ p e i. probe_gains k p e h i) probe-Kept xs e kept in
        (omega (arith, gain), kept')

    update_cache-Kept :
        (a b c : List RPeerInfo) (rc : RegistryCache) (s : State)
        → Keeps name hard soft rc
        → Keeps name hard soft (update_cache w sorter (cache a b c) rc s).1
    update_cache-Kept a b c rc s kept =
        let (_, kept0) = probes_gain 0 a (rc, s) (omega arith) kept in
        let (_, kept1) = probes_gain 0 b _ (omega arith) kept0 in
        let (_, kept2) = probes_gain 0 c _ (omega arith) kept1 in rw update_cache_lem kept2

    update_cache_gains :
        (k : ℕ) (a b c : List RPeerInfo) (rc : RegistryCache) (s : State)
        → 10 ≤ k
        → k ≤ 99
        → Keeps name hard soft rc
        → standing id name k (a ∷ b ∷ [])
          ≤ standing id name (k + 1) (update_cache w sorter (cache a b c) rc s).0.levels
    update_cache_gains k a b c rc s low high kept =
        let m = is_entry_from id name (k + 1) in
        let m90 = is_entry_from id name 90 in
        let e0 = counted_0 w sorter a b c rc s in
        let e1 = counted_1 w sorter a b c rc s in
        let e2 = counted_2 w sorter a b c rc s in
        let d = demoted w sorter a b c rc s in
        let r = regraded w sorter a b c rc s in
        let (gain0, kept0) = probes_gain 90 a (rc, s) (omega arith) kept in
        rw update_cache_lem (
          omega (
            arith,
            gain0,
            (probes_gain k b e0.1 high kept0).0,
            sweep-total_ge demote (is_entry_from id name 91) m90 (total m)
                (demote_holds id name (k + 1)) e0.0 e1.0,
            sweep-total_ge regrade m m (λ s. total m90 s.0)
                (λ p s. regrade_holds id name (k + 1) p s (omega arith)) d.1 (d.0, e2.0),
            total-perm m (sorter.sort_slice-perm (less w) r.0),
            total-perm m90 (sorter.sort_slice-perm (less w) r.1.0),
          ))

    update_cache_lifts :
        (k k' : ℕ) (a b c : List RPeerInfo) (rc : RegistryCache) (s : State)
        → 10 ≤ k
        → k' ≤ k + 1
        → k' ≤ 91
        → Keeps name hard soft rc
        → standing id name k (a ∷ b ∷ [])
          ≤ standing id name k' (update_cache w sorter (cache a b c) rc s).0.levels
    update_cache_lifts k k' a b c rc s low h top kept =
        let m = if leb k 90 then k else 90 in
        let ls = (update_cache w sorter (cache a b c) rc s).0.levels in
        omega (
          arith,
          from_le id name k m b (ground arith),
          update_cache_gains m a b c rc s (ground arith) (ground arith) kept,
          from_le id name (m + 1) k' (level ls 1) (ground arith),
        )

    standing_grows :
        (n k k' : ℕ) (a b c : List RPeerInfo) (rc : RegistryCache) (s : State)
        → 10 ≤ k
        → k' ≤ k + n
        → k' ≤ 91
        → All IsCapped a
        → All IsCapped b
        → Keeps name hard soft rc
        → standing id name k (a ∷ b ∷ [])
          ≤ standing id name k' (run_updates w sorter n (cache a b c) rc s).0.levels
    unfolding run_updates
    standing_grows zero k k' a b c rc s low h top ha hb kept =
        omega (arith, from_le id name k k' b (omega arith))
    standing_grows (suc n) k k' a b c rc s low h top ha hb kept =
        let (a', b', e, tops, middles) = update_cache-IsGraded w sorter a b c rc s ha hb in
        let after = update_cache w sorter (cache a b c) rc s in
        let next = if leb k 90 then k + 1 else 91 in
        let first : standing id name k (a ∷ b ∷ []) ≤ standing id name next (a' ∷ b' ∷ []) =
          subst (λ q. standing id name k (a ∷ b ∷ []) ≤ standing id name next q.levels) e
            (update_cache_lifts k next a b c rc s low (ground arith) (ground arith) kept) in
        let rest =
          standing_grows n next k' a' b' [] after.1 after.2 (ground arith) (ground arith) top
            (IsCapped-if_reliable a' tops) (IsCapped-if_undecided b' middles)
            (update_cache-Kept a b c rc s kept) in
        rw (run_updates, e) (omega (arith, first, rest))

  -- Where the registry always gives the same two requirements for a service, what is cached of its
  -- answers has them too, and every ping of a peer meets both: once the peer has entered the cache by
  -- AddPeer for that service, it stands at level 0 after 41 updates, and after any further ones.
  pub run_updates_promotes :
      (n : ℕ) (p : PeerInfo) (hard soft : PerfInd) (a b c : List RPeerInfo) (rc : RegistryCache)
      (s : State)
      → 41 ≤ n
      → All IsCapped a
      → All IsCapped b
      → Keeps p.serv_name hard soft rc
      → Registers w p.serv_name hard soft
      → ((t : State) → misses w hard soft (ping p.id hard.rtt t).0 ≡ false)
      → 1
        ≤ total
            (is_entry_from p.id p.serv_name 90)
            (level (run_updates w sorter n (add_peer p (cache a b c)) rc s).0.levels 0)
  unfolding add_peer
  run_updates_promotes n p hard soft a b c rc s h ha hb kept registers meets =
      let new : RPeerInfo = record { r_count = 50; info = p } in
      let b' = b ++ new ∷ [] in
      let hb' = All-append IsCapped b (new ∷ []) hb (omega arith, tt) in
      let (top, next, e, _, middles) = run_updates_grades n a b' c rc s (omega arith) ha hb' in
      let grown =
        standing_grows p.id p.serv_name hard soft registers meets n 50 91 a b' c rc s (omega arith)
          (omega arith) (omega arith) ha hb' kept in
      let there : 1 ≤ total (is_entry_from p.id p.serv_name 50) b' = ground (
        arith,
        total-append (is_entry_from p.id p.serv_name 50) b (new ∷ []),
        same_refl p.id,
        same_refl p.serv_name,
      ) in
      rw e (
        omega (
          arith,
          subst
              (λ q.
                standing p.id p.serv_name 50 (a ∷ b' ∷ []) ≤ standing p.id p.serv_name 91 q.levels)
              e grown,
          there,
          undecided_none p.id p.serv_name next middles,
        ))
