-- ===== src/Rcache/Tests.antt =====
-- Runs of the registry cache, and its properties at concrete inputs.
use mathlib.Core.List.{mem-cons_self}
use go_code_goes_here.Prelude.{
  ◌*◌, ◌∷◌, ◌≡◌, refl, codes, same, [], none, some, arith, lookup, store,
}
use go_code_goes_here.World.{external}
use go_code_goes_here.World.Toy.{toy, web}
use go_code_goes_here.Rcache.{
  RegistryCache, second, new_registry_cache, add, get, request, get_or_request,
}
use go_code_goes_here.Rcache.Laws.{get_or_request_again}
use go_code_goes_here.Rcache.History.{
  Shared, Reach, begins, steps, answers, adds, get_logged, IsKnown, get-Reach,
}

abbrev empty : RegistryCache
empty = record { ttl = 10; entries = [] }

-- An entry added at time 3 is there at time 13 and gone at time 14.
expiry :
    ((get toy (codes "web") (add toy (codes "web") web empty 3).0 13).0 ≡ some web)
    × ((get toy (codes "web") (add toy (codes "web") web empty 3).0 14).0 ≡ none)
unfolding get add store lookup same
expiry = (refl, refl)

first_succeeds : (get_or_request toy (codes "web") empty 3).0.error ≡ none
unfolding get_or_request get request add store lookup same
first_succeeds = refl

second_fails : (get_or_request toy (codes "db") empty 3).0.error ≡ some (external (codes "db"))
unfolding get_or_request get request add store lookup same
second_fails = refl

get_or_request_again_example :
    get_or_request toy (codes "web") (get_or_request toy (codes "web") empty 3).1 9 ≡ (
      (get_or_request toy (codes "web") empty 3).0,
      (get_or_request toy (codes "web") empty 3).1,
      10,
    )
unfolding get lookup same
get_or_request_again_example =
    get_or_request_again toy (codes "web") empty 3 9 refl refl (omega arith)

-- The registry answers for "web", and the answer is added at time 7.
abbrev asked_web : Shared toy
asked_web = record {
  cache = record { ttl = 10 * second; entries = [] };
  outside = 7;
  answered = (codes "web", web) ∷ [];
  log = [];
}

abbrev added_web : Shared toy
added_web = record {
  cache = (add toy (codes "web") web asked_web.cache 7).0;
  outside = (add toy (codes "web") web asked_web.cache 7).1;
  answered = (codes "web", web) ∷ [];
  log = (codes "web", some (web, 7)) ∷ [];
}

added : Reach toy 10 added_web
unfolding new_registry_cache same
added = steps (steps (begins 7) (answers (codes "web") refl)) (adds (codes "web") web mem-cons_self)

get-Reach_example :
    (get toy (codes "web") added_web.cache 9
      ≡ get_logged toy (10 * second) added_web.log (codes "web") 9)
    × IsKnown toy added_web.answered (codes "web") (get toy (codes "web") added_web.cache 9).0
get-Reach_example = get-Reach toy (codes "web") 9 added
