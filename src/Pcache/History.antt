-- ===== src/Pcache/History.antt =====
-- The peer cache of pcache/pcache.go under any interleaving of its methods, which the mutex makes
-- atomic: requests add and remove peers, and the goroutine of UpdateCache updates, in any world.
use go_code_goes_here.Prelude.{
  ◌≡◌, refl, Bytes, List, [], ◌∷◌, ◌++◌, Option, arith, All, All-append, All-split, subst,
}
use go_code_goes_here.World.{World, PeerInfo}
use go_code_goes_here.Rcache.{RegistryCache}
use go_code_goes_here.Pcache.Sorting.{Sorter}
use go_code_goes_here.Pcache.Slices.{bring_last, All-bring_last}
use go_code_goes_here.Pcache.{
  RPeerInfo, PeerCache, new_peer_cache, add_peer, remove_peer, update_cache,
}
use go_code_goes_here.Pcache.Shape.{cache}
use go_code_goes_here.Pcache.Reliability.{
  IsCapped, IsReliable, IsUndecided, IsGraded, update_cache-IsGraded,
}
use go_code_goes_here.Pcache.Removal.{
  Holds, Removes, from_top, from_next, not_found, remove_peer-Removes,
}

module _ (w : World) (sorter : Sorter RPeerInfo) where
  open w use {State}

  pub data Step (c : PeerCache) : PeerCache → Type 0 where
    adds : (p : PeerInfo) → Step c (add_peer p c)
    removes : (id : Bytes) → Step c (remove_peer id c)
    updates : (rc : RegistryCache) (s : State) → Step c (update_cache w sorter c rc s).0

  pub data Reach : PeerCache → Type 0 where
    starts : (rc : Option RegistryCache) → Reach (new_peer_cache rc).0
    steps : {c d : PeerCache} → Reach c → Step c d → Reach d

-- Three levels, the last one empty, and every count at most 100.
abbrev pub IsReady : PeerCache → Type 0
IsReady c = (a b : List RPeerInfo) × (c ≡ cache a b []) × All IsCapped a × All IsCapped b

All-Holds :
    (id : Bytes) (xs : List RPeerInfo) (h : Holds id 3 xs)
    → All IsCapped xs
    → All IsCapped (h.pre ++ bring_last h.post)
All-Holds id xs h caps =
    let (front, rest) =
      All-split IsCapped h.pre (h.entry ∷ h.post) (subst (All IsCapped) h.splits caps) in
    All-append IsCapped h.pre (bring_last h.post) front (All-bring_last IsCapped h.post rest.1)

Removes-IsReady :
    (id : Bytes) (a b : List RPeerInfo) (r : PeerCache)
    → All IsCapped a
    → All IsCapped b
    → Removes id a b [] r
    → IsReady r
Removes-IsReady id a b r ha hb (from_top h e) = (_, b, e, All-Holds id a h ha, hb)
Removes-IsReady id a b r ha hb (from_next m h e) = (a, _, e, ha, All-Holds id b h hb)
Removes-IsReady id a b r ha hb (not_found m m' e) = (a, b, e, ha, hb)

pub IsCapped-if_reliable : (xs : List RPeerInfo) → All IsReliable xs → All IsCapped xs
IsCapped-if_reliable [] h = tt
IsCapped-if_reliable (x ∷ xs) h = (h.0.1, IsCapped-if_reliable xs h.1)

pub IsCapped-if_undecided : (xs : List RPeerInfo) → All IsUndecided xs → All IsCapped xs
IsCapped-if_undecided [] h = tt
IsCapped-if_undecided (x ∷ xs) h = (omega arith, IsCapped-if_undecided xs h.1)

module _ (w : World) (sorter : Sorter RPeerInfo) where
  open w use {State}

  add_peer-IsReady :
      (p : PeerInfo) (a b : List RPeerInfo)
      → All IsCapped a
      → All IsCapped b
      → IsReady (add_peer p (cache a b []))
  unfolding add_peer
  add_peer-IsReady p a b ha hb = (
    a,
    b ++ record { r_count = 50; info = p } ∷ [],
    refl,
    ha,
    All-append IsCapped b (record { r_count = 50; info = p } ∷ []) hb (omega arith, tt),
  )

  Step-IsReady : {c d : PeerCache} → Step w sorter c d → IsReady c → IsReady d
  Step-IsReady (adds p) (a, b, e, ha, hb) = rw e (add_peer-IsReady p a b ha hb)
  Step-IsReady (removes id) (a, b, e, ha, hb) =
      rw e (Removes-IsReady id a b _ ha hb (remove_peer-Removes id a b []))
  Step-IsReady (updates rc s) (a, b, e, ha, hb) =
      let (a', b', e', tops, middles) = update_cache-IsGraded w sorter a b [] rc s ha hb in
      rw e (a', b', e', IsCapped-if_reliable a' tops, IsCapped-if_undecided b' middles)

  -- After any sequence of added and removed peers and updates, from a new cache on, the cache has
  -- three levels, the last of them empty, and no count above 100.
  pub Reach-IsReady : {c : PeerCache} → Reach w sorter c → IsReady c
  unfolding new_peer_cache
  Reach-IsReady (starts rc) = ([], [], refl, tt, tt)
  Reach-IsReady (steps r st) = Step-IsReady st (Reach-IsReady r)

  -- So an update after any history leaves a graded cache.
  pub Reach-IsGraded :
      {c : PeerCache} (rc : RegistryCache) (s : State)
      → Reach w sorter c
      → IsGraded (update_cache w sorter c rc s).0
  Reach-IsGraded rc s r =
      let (a, b, e, ha, hb) = Reach-IsReady r in
      rw e (update_cache-IsGraded w sorter a b [] rc s ha hb)
