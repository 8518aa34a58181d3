-- ===== src/Pcache/Reliability.antt =====
-- The levels as updateCache of pcache/pcache.go leaves them: who stands where, and in which order.
use mathlib.Core.List.{Perm}
use mathlib.Core.List.Perm
use mathlib.Core.HLevel.{×_prop}
use native.Mathlib.Bridge.{le_prop}
use go_code_goes_here.Prelude.{
  ◌≤◌, ◌≡◌, refl, List, [], ◌∷◌, arith, All, All-append, All-perm, total-perm,
}
use go_code_goes_here.World.{World}
use go_code_goes_here.Rcache.{RegistryCache}
use go_code_goes_here.Pcache.Sorting.{Sorter, IsStrictWeak, IsSorted}
use go_code_goes_here.Pcache.Sweep.{Each, sweep_inv}
use go_code_goes_here.Pcache.{RPeerInfo, PeerCache, demote, regrade, probe, less, update_cache}
use go_code_goes_here.Pcache.Shape.{
  cache, loop, counted_0, counted_1, counted_2, demoted, regraded, sorted, update_cache_lem,
}

abbrev pub IsCapped : RPeerInfo → Type 0
IsCapped p = p.r_count ≤ 100

abbrev pub IsReliable : RPeerInfo → Type 0
IsReliable p = (90 ≤ p.r_count) × (p.r_count ≤ 100)

abbrev pub IsUndecided : RPeerInfo → Type 0
IsUndecided p = (10 ≤ p.r_count) × (p.r_count ≤ 90)

-- What an update leaves: reliable peers, peers that are neither reliable nor due for removal, and an
-- empty last level.
abbrev pub IsGraded : PeerCache → Type 0
IsGraded q = (a b : List RPeerInfo) × (q ≡ cache a b []) × All IsReliable a × All IsUndecided b

demote_keeps :
    (p : RPeerInfo) (down : List RPeerInfo)
    → IsCapped p
    → All IsCapped down
    → Each IsReliable (demote p down).0 × All IsCapped (demote p down).1
unfolding demote
demote_keeps p down h i = ground (arith, All-append IsCapped down (record p { r_count = 50 } ∷ []))

-- The level above gets reliable peers only.
abbrev AboveReliable : List RPeerInfo × List RPeerInfo → Type 0
AboveReliable s = All IsReliable s.0

regrade_keeps :
    (p : RPeerInfo) (s : List RPeerInfo × List RPeerInfo)
    → IsCapped p
    → AboveReliable s
    → Each IsUndecided (regrade p s).0 × AboveReliable (regrade p s).1
unfolding regrade
regrade_keeps p (up, down) h i = ground (arith, All-append IsReliable up (p ∷ []))

empty_of_perm : (xs : List RPeerInfo) → Perm xs [] → xs ≡ []
empty_of_perm [] p = refl
empty_of_perm (x ∷ xs) p = absurd (omega (arith, total-perm (λ _. 1) p))

module _ (w : World) where
  open w use {State}

  probe_keeps :
      (p : RPeerInfo) (e : RegistryCache × State)
      → IsCapped p
      → Unit {0}
      → Each IsCapped (probe w p e).0 × Unit {0}
  unfolding probe
  probe_keeps p (rc, s) h i = ground arith

  counts_keep :
      (xs : List RPeerInfo) (e : RegistryCache × State)
      → All IsCapped xs
      → All IsCapped (loop (probe w) xs e).0
  counts_keep xs e h =
      (sweep_inv (probe w) IsCapped IsCapped (λ _. Unit {0}) probe_keeps xs e h tt).0

  module _ (sorter : Sorter RPeerInfo) where
    sorted_keeps :
        (P : RPeerInfo → Type 0) (xs : List RPeerInfo)
        → ((p : RPeerInfo) → IsProp (P p))
        → All P xs
        → All P (sorted w sorter xs)
    sorted_keeps P xs prop h = All-perm prop (Perm.symm (sorter.sort_slice-perm (less w) xs)) h

    -- From counts of at most 100, an update leaves at level 0 the peers with a count from 90 to 100,
    -- at level 1 those with a count from 10 to 90, and none at level 2.
    pub update_cache-IsGraded :
        (a b c : List RPeerInfo) (rc : RegistryCache) (s : State)
        → All IsCapped a
        → All IsCapped b
        → IsGraded (update_cache w sorter (cache a b c) rc s).0
    update_cache-IsGraded a b c rc s ha hb =
        let e0 = counted_0 w sorter a b c rc s in
        let e1 = counted_1 w sorter a b c rc s in
        let tops =
          sweep_inv demote IsCapped IsReliable (All IsCapped) demote_keeps e0.0 e1.0
            (counts_keep a (rc, s) ha) (counts_keep b e0.1 hb) in
        let middles =
          sweep_inv regrade IsCapped IsUndecided AboveReliable regrade_keeps
            (demoted w sorter a b c rc s).1
            ((demoted w sorter a b c rc s).0, (counted_2 w sorter a b c rc s).0) tops.1 tops.0 in
        let nothing = empty_of_perm (sorted w sorter []) (sorter.sort_slice-perm (less w) []) in
        let r = regraded w sorter a b c rc s in
        (
          sorted w sorter r.1.0,
          sorted w sorter r.0,
          rw (update_cache_lem w sorter a b c rc s, nothing),
          sorted_keeps IsReliable r.1.0 (λ p. ×_prop le_prop le_prop) middles.1,
          sorted_keeps IsUndecided r.0 (λ p. ×_prop le_prop le_prop) middles.0,
        )

    -- Where the comparison of performances is a strict weak order, an update leaves each level
    -- sorted by performance: no peer compares less than one before it.
    pub update_cache-IsSorted :
        (a b c : List RPeerInfo) (rc : RegistryCache) (s : State)
        → IsStrictWeak (less w)
        → All (IsSorted (less w)) (update_cache w sorter (cache a b c) rc s).0.levels
    update_cache-IsSorted a b c rc s weak = rw update_cache_lem (
      sorter.sort_slice-IsSorted _ _ weak,
      (sorter.sort_slice-IsSorted _ _ weak, (sorter.sort_slice-IsSorted _ _ weak, tt)),
    )
