-- ===== src/Locate/Tests.antt =====
-- Runs of findOrAllocate and resolveService, and their properties at concrete inputs.
use go_code_goes_here.Prelude.{
  ℕ, ◌≡◌, ◌≢◌, refl, ap, sym, ◌∙◌, inl, arith, codes, List, [], some, same,
}
use go_code_goes_here.World.{Result, ok, err, unable_to_find}
use go_code_goes_here.World.Toy.{toy, web, no_service}
use go_code_goes_here.Pcache.{PeerCache, add_peer, get_peer}
use go_code_goes_here.Pcache.Shape.{cache}
use go_code_goes_here.Lca.Manager.{find_service, alloc_service, allocators, ask_each}
use go_code_goes_here.Locate.{
  refind, allocate, improve, round, rounds, conclude, find_or_allocate, peer_for, Env,
}
use go_code_goes_here.Locate.Returns.{IsBounded, find_or_allocate_returns}
use go_code_goes_here.Locate.Origin.{Located, find_or_allocate-Located}
use go_code_goes_here.Locate.Reuse.{find_or_allocate_again}

-- The toy's backoff is the number of attempts left.
toy-IsBounded : IsBounded toy
toy-IsBounded = record {
  left = λ b. b;
  starts = λ first longest n s. omega arith;
  counts = λ b s h. ground arith;
}

abbrev empty : PeerCache
empty = cache [] [] []

abbrev filled : PeerCache
filled = add_peer (peer_for (codes "web") web (codes "near")) empty

abbrev env : Env toy
env = record { registry_cache = record { ttl = 10; entries = [] }; peer_cache = empty; outside = 0 }

run : find_or_allocate toy (codes "web") web empty 0 ≡ some (ok (codes "near"), filled, 2)
unfolding find_or_allocate get_peer rounds round find_service improve conclude same
run = refl

-- A service that nobody provides and no allocator starts: three rounds, and an error.
run_in_vain :
    find_or_allocate toy (codes "db") no_service empty 0 ≡ some (err unable_to_find, empty, 1)
unfolding find_or_allocate get_peer rounds round find_service allocate alloc_service allocators
    ask_each refind conclude same
run_in_vain = refl

find_or_allocate_returns_example :
    (out : Result (List ℕ) × PeerCache × ℕ) × (find_or_allocate toy (codes "web") web empty 0
      ≡ some out)
find_or_allocate_returns_example =
    find_or_allocate_returns toy (codes "web") web empty 0 toy-IsBounded

find_or_allocate-Located_example : Located toy (codes "web") web empty (ok (codes "near")) filled
find_or_allocate-Located_example =
    find_or_allocate-Located toy (codes "web") web empty 0 (ok (codes "near")) filled 2 run

found_in_filled : get_peer web.content_hash filled ≡ ok (codes "near")
unfolding get_peer add_peer same
found_in_filled = refl

has_changed : filled ≢ empty
unfolding get_peer add_peer same
has_changed e =
    let h : get_peer web.content_hash empty ≡ ok (codes "near") =
      sym (ap (get_peer web.content_hash) e) ∙ found_in_filled in
    cc

near_is_text : codes "near" ≢ []
near_is_text e = cc

find_or_allocate_again_example :
    find_or_allocate toy (codes "web") web filled 7 ≡ some (ok (codes "near"), filled, 7)
find_or_allocate_again_example =
    find_or_allocate_again toy (codes "web") web [] [] [] 0 (codes "near") filled 2 7 run
      (inl has_changed) near_is_text
