-- ===== src/Locate/Reuse.antt =====
-- What a second call of findOrAllocate of l4-proxy/l4-proxy.go finds.
use go_code_goes_here.Prelude.{
  ◌≡◌, ◌≢◌, refl, ap, ◌⊎◌, inl, inr, arith, Bytes, List, [], ◌∷◌, some, same_refl,
}
use go_code_goes_here.World.{World, ServiceInfo, ok}
use go_code_goes_here.Pcache.{RPeerInfo, PeerCache, get_peer}
use go_code_goes_here.Pcache.Shape.{cache}
use go_code_goes_here.Pcache.Lookup.{get_peer-add_peer}
use go_code_goes_here.Locate.{peer_for, cached, find_or_allocate}
use go_code_goes_here.Locate.Origin.{from_cache, searched, slower, failed, find_or_allocate-Located}

module _ (w : World) where
  open w use {State}

  cached-ok : (i : Bytes) (c : PeerCache) (t : State) → i ≢ [] → cached w i c t ≡ (ok i, c, t)
  unfolding cached
  cached-ok [] c t n = absurd (n refl)
  cached-ok (d ∷ ds) c t n = refl

  -- On a cache of three levels, when findOrAllocate returned a peer, whose identifier is not empty,
  -- and either changed the cache or took the peer from it, a second call for the service returns
  -- the same peer, and touches neither the cache nor anything outside it.
  pub find_or_allocate_again :
      (serv_name : Bytes) (info : ServiceInfo) (xs ys zs : List RPeerInfo) (s : State) (id : Bytes)
      (c' : PeerCache) (s' s2 : State)
      → find_or_allocate w serv_name info (cache xs ys zs) s ≡ some (ok id, c', s')
      → (c' ≢ cache xs ys zs) ⊎ (get_peer info.content_hash (cache xs ys zs) ≡ ok id)
      → id ≢ []
      → find_or_allocate w serv_name info c' s2 ≡ some (ok id, c', s2)
  unfolding find_or_allocate
  find_or_allocate_again serv_name info xs ys zs s id c' s' s2 h change nonempty =
      elim (find_or_allocate-Located w serv_name info (cache xs ys zs) s (ok id) c' s' h) [
        | from_cache i q e f ↦
            let same_id : i ≡ id = ground (arith, e) in offers (rw (f, q, same_id) refl)
        | searched i t perf g q k e f ↦
            let same_id : i ≡ id = ground (arith, e) in
            offers (
              rw f (
                ground (
                  arith,
                  get_peer-add_peer info.content_hash (peer_for serv_name info i) xs ys zs,
                  q,
                  same_id,
                  same_refl info.content_hash,
                )))
        | slower i t t' perf g q k b e f ↦ elim change [
          | inl n ↦ absurd (n f)
          | inr o ↦ offers (rw f o)
        ]
        | failed e f ↦ cc
      ]
    where
      offers :
          get_peer info.content_hash c' ≡ ok id
          → find_or_allocate w serv_name info c' s2 ≡ some (ok id, c', s2)
      offers q = rw (q, find_or_allocate) (ap (λ x. some x) (cached-ok id c' s2 nonempty))
