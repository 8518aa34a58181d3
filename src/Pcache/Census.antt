-- ===== src/Pcache/Census.antt =====
-- Which peers an update of pcache/pcache.go keeps: none is made up, one that answers well stays, one
-- that does not answer goes.

use go_code_goes_here.Prelude.{
  ℕ, ◌+◌, ◌≤◌, ◌≡◌, refl, Bytes, true, false, List, [], ◌∷◌, arith, same, same_iff, Bool, leb,
  if◌then◌else◌, total, total-append, total-perm, ◌&&◌, ◌||◌, ◌==◌,
}
use go_code_goes_here.World.{World}
use go_code_goes_here.Rcache.{RegistryCache, get_or_request}
use go_code_goes_here.Pcache.Sorting.{Sorter}
use go_code_goes_here.Pcache.Sweep.{weight, sweep-total_le, sweep-total_ge}
use go_code_goes_here.Pcache.{RPeerInfo, demote, regrade, probe, less, update_cache}
use go_code_goes_here.Pcache.Shape.{
  cache, loop, counted_0, counted_1, counted_2, demoted, regraded, sorted, update_cache_lem,
}

-- 1 for an entry of the peer, and 0 for any other.
abbrev pub is_peer : Bytes → RPeerInfo → ℕ
is_peer id p = if same id p.info.id then 1 else 0

-- 1 for an entry of the peer with a count of at least n.
abbrev pub is_peer_from : Bytes → ℕ → RPeerInfo → ℕ
is_peer_from id n p = if same id p.info.id && leb n p.r_count then 1 else 0

-- The number of entries of a peer in some levels.
abbrev pub entries_of : (RPeerInfo → ℕ) → List (List RPeerInfo) → ℕ
entries_of m [] = 0
entries_of m (l ∷ ls) = total m l + entries_of m ls

abbrev both : (RPeerInfo → ℕ) → List RPeerInfo × List RPeerInfo → ℕ
both m s = total m s.0 + total m s.1

total_zero : (xs : List RPeerInfo) → total (λ (_ : RPeerInfo). 0) xs ≡ 0
total_zero [] = refl
total_zero (x ∷ xs) = omega (arith, total_zero xs)

-- Whether a ping of the peer, under the hard requirement of a service, gets no answer in time.
abbrev pub fails : (w : World) → Bytes → Bytes → RegistryCache → World.State w → Bool
fails w id name rc s =
    let (answer, _, s') = get_or_request w name rc s in
    let hard = answer.info.network_hard_req in
    let rtt = (w.ping id hard.rtt s').0 in rtt == 0 || w.less_than hard (record { rtt = rtt })

module _ (id : Bytes) where
  demote_le :
      (p : RPeerInfo) (down : List RPeerInfo)
      → weight (is_peer id) (demote p down).0 + total (is_peer id) (demote p down).1
        ≤ is_peer id p + total (is_peer id) down
  unfolding demote
  demote_le p down = ground (arith, total-append (is_peer id) down (record p { r_count = 50 } ∷ []))

  regrade_le :
      (p : RPeerInfo) (s : List RPeerInfo × List RPeerInfo)
      → weight (is_peer id) (regrade p s).0 + both (is_peer id) (regrade p s).1
        ≤ is_peer id p + both (is_peer id) s
  unfolding regrade
  regrade_le p (up, down) = ground (
    arith,
    total-append (is_peer id) up (p ∷ []),
    total-append (is_peer id) down (record p { r_count = 50 } ∷ []),
  )

  demote_ge :
      (p : RPeerInfo) (down : List RPeerInfo)
      → is_peer_from id 10 p + total (is_peer_from id 10) down
        ≤ weight (is_peer_from id 10) (demote p down).0
          + total (is_peer_from id 10) (demote p down).1
  unfolding demote
  demote_ge p down =
      ground (arith, total-append (is_peer_from id 10) down (record p { r_count = 50 } ∷ []))

  -- What goes to the last level does not count.
  regrade_ge :
      (p : RPeerInfo) (s : List RPeerInfo × List RPeerInfo)
      → is_peer_from id 10 p + total (is_peer_from id 10) s.0
        ≤ weight (is_peer_from id 10) (regrade p s).0 + total (is_peer_from id 10) (regrade p s).1.0
  unfolding regrade
  regrade_ge p (up, down) = ground (arith, total-append (is_peer_from id 10) up (p ∷ []))

module _ (w : World) (sorter : Sorter RPeerInfo) (id : Bytes) where
  open w use {State, ping, less_than}

  probe_le :
      (p : RPeerInfo) (e : RegistryCache × State)
      → weight (is_peer id) (probe w p e).0 + 0 ≤ is_peer id p + 0
  unfolding probe
  probe_le p (rc, s) = ground arith

  total-sorted :
      (m : RPeerInfo → ℕ) (xs : List RPeerInfo) → total m (sorted w sorter xs) ≡ total m xs
  total-sorted m xs = total-perm m (sorter.sort_slice-perm (less w) xs)

  probes_le :
      (xs : List RPeerInfo) (e : RegistryCache × State)
      → total (is_peer id) (loop (probe w) xs e).0 ≤ total (is_peer id) xs
  probes_le xs e =
      omega (arith, sweep-total_le (probe w) (is_peer id) (is_peer id) (λ _. 0) probe_le xs e)

  module _
      (healthy : (name : Bytes) (rc' : RegistryCache) (s' : State)
        → fails w id name rc' s' ≡ false) where
    probe_ge :
        (p : RPeerInfo) (e : RegistryCache × State)
        → is_peer_from id 20 p + 0 ≤ weight (is_peer_from id 10) (probe w p e).0 + 0
    unfolding probe
    probe_ge p (rc, s) = ground (arith, healthy p.info.serv_name rc s, same_iff id p.info.id)

    probes_ge :
        (xs : List RPeerInfo) (e : RegistryCache × State)
        → total (is_peer_from id 20) xs ≤ total (is_peer_from id 10) (loop (probe w) xs e).0
    probes_ge xs e = omega (
      arith,
      sweep-total_ge (probe w) (is_peer_from id 20) (is_peer_from id 10) (λ _. 0) probe_ge xs e,
    )

  module _
      (dead : (name : Bytes) (rc' : RegistryCache) (s' : State)
        → fails w id name rc' s' ≡ true) where
    probe_zero :
        (p : RPeerInfo) (e : RegistryCache × State)
        → weight (is_peer id) (probe w p e).0 + 0 ≤ 0 + 0
    unfolding probe
    probe_zero p (rc, s) = ground (arith, dead p.info.serv_name rc s, same_iff id p.info.id)

    probes_zero :
        (xs : List RPeerInfo) (e : RegistryCache × State)
        → total (is_peer id) (loop (probe w) xs e).0 ≤ 0
    probes_zero xs e = omega (
      arith,
      sweep-total_le (probe w) (λ _. 0) (is_peer id) (λ _. 0) probe_zero xs e,
      total_zero xs,
    )

  from_10_le : (xs : List RPeerInfo) → total (is_peer_from id 10) xs ≤ total (is_peer id) xs
  from_10_le [] = omega arith
  from_10_le (x ∷ xs) = ground (arith, from_10_le xs)

  -- An update makes no peer up: of each peer it leaves at most as many entries as there were.
  pub update_cache-entries_le :
      (a b c : List RPeerInfo) (rc : RegistryCache) (s : State)
      → entries_of (is_peer id) (update_cache w sorter (cache a b c) rc s).0.levels
        ≤ entries_of (is_peer id) (cache a b c).levels
  update_cache-entries_le a b c rc s =
      let m = is_peer id in
      let e0 = counted_0 w sorter a b c rc s in
      let e1 = counted_1 w sorter a b c rc s in
      let e2 = counted_2 w sorter a b c rc s in
      let d = demoted w sorter a b c rc s in
      let r = regraded w sorter a b c rc s in
      rw update_cache_lem (
        omega (
          arith,
          probes_le a (rc, s),
          probes_le b e0.1,
          probes_le c e1.1,
          sweep-total_le demote m m (total m) (demote_le id) e0.0 e1.0,
          sweep-total_le regrade m m (both m) (regrade_le id) d.1 (d.0, e2.0),
          total-sorted m r.1.0,
          total-sorted m r.0,
          total-sorted m [],
        ))

  -- A peer that in every round answers its ping within the hard requirement, and whose count is at
  -- least 20, stays in the levels 0 and 1 with all its entries.
  pub update_cache_keeps :
      (a b c : List RPeerInfo) (rc : RegistryCache) (s : State)
      → ((name : Bytes) (rc' : RegistryCache) (s' : State) → fails w id name rc' s' ≡ false)
      → entries_of (is_peer_from id 20) (a ∷ b ∷ [])
        ≤ entries_of (is_peer id) (update_cache w sorter (cache a b c) rc s).0.levels
  update_cache_keeps a b c rc s healthy =
      let m = is_peer_from id 10 in
      let e0 = counted_0 w sorter a b c rc s in
      let e1 = counted_1 w sorter a b c rc s in
      let e2 = counted_2 w sorter a b c rc s in
      let d = demoted w sorter a b c rc s in
      let r = regraded w sorter a b c rc s in
      rw update_cache_lem (
        omega (
          arith,
          probes_ge healthy a (rc, s),
          probes_ge healthy b e0.1,
          sweep-total_ge demote m m (total m) (demote_ge id) e0.0 e1.0,
          sweep-total_ge regrade m m (λ s. total m s.0) (regrade_ge id) d.1 (d.0, e2.0),
          total-sorted (is_peer id) r.1.0,
          total-sorted (is_peer id) r.0,
          from_10_le r.1.0,
          from_10_le r.0,
        ))

  -- A peer that in every round fails to answer its ping within the hard requirement is gone after one
  -- update, from every level.
  pub update_cache_evicts :
      (a b c : List RPeerInfo) (rc : RegistryCache) (s : State)
      → ((name : Bytes) (rc' : RegistryCache) (s' : State) → fails w id name rc' s' ≡ true)
      → entries_of (is_peer id) (update_cache w sorter (cache a b c) rc s).0.levels ≡ 0
  update_cache_evicts a b c rc s dead =
      let m = is_peer id in
      let e0 = counted_0 w sorter a b c rc s in
      let e1 = counted_1 w sorter a b c rc s in
      let e2 = counted_2 w sorter a b c rc s in
      let d = demoted w sorter a b c rc s in
      let r = regraded w sorter a b c rc s in
      rw update_cache_lem (
        omega (
          arith,
          probes_zero dead a (rc, s),
          probes_zero dead b e0.1,
          probes_zero dead c e1.1,
          sweep-total_le demote m m (total m) (demote_le id) e0.0 e1.0,
          sweep-total_le regrade m m (both m) (regrade_le id) d.1 (d.0, e2.0),
          total-sorted m r.1.0,
          total-sorted m r.0,
          total-sorted m [],
        ))
