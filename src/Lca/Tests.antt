-- ===== src/Lca/Tests.antt =====
-- The properties of the manager and of the allocator at concrete inputs.
pub mod Hosts
mod Dock
mod Ends
use go_code_goes_here.Prelude.{
  ℕ, has_prefix, ◌-◌, ◌*◌, ◌≤◌, ◌≡◌, ◌↔◌, ◌⊎◌, inl, inr, refl, Bytes, codes, Bool, true, false,
  Option, List, [], ◌∷◌, ◌++◌, none, some, arith, All, lookup, store, same, if◌then◌else◌, ltb,
  trim_suffix,
}
use go_code_goes_here.World.{World, PeerInfo, PerfInd, Error, external, Result, ok, err}
use go_code_goes_here.World.Toy.{shorter}
use go_code_goes_here.Strconv.{itoa}
use go_code_goes_here.Lca.Wire.{write, read, start_program, err_unrecognized, err_alloc_fail}
use go_code_goes_here.Lca.Address.{
  is_address, field, last_field, IsAddress, is_address_sound, is_address_complete,
}
use go_code_goes_here.Lca.Manager.{
  LcaManager, request_alloc, ask, ask_each, ask_better, allocators, alloc_service,
  alloc_better_service,
}
use go_code_goes_here.Lca.Manager.Requests.{
  request_alloc-IsAddress, Allocated, alloc_service-Allocated, alloc_better_service-Allocated,
  ask_better-eq-ask_each, ask_better_stops, stopped,
}
use go_code_goes_here.Lca.Allocator.{
  Services, Exit, returned, panicked, cmd_start_program, handle, is_regexp_space,
}
use go_code_goes_here.Lca.Allocator.Handling.{
  HasNoSpace, handle_panics, handle_start, handle_unrecognized, cmd_start_program_records,
}
use go_code_goes_here.Lca.Machine.{Machine}
use go_code_goes_here.Lca.Cull.{should_cull, services_to_cull, cull_unused_services, is_unused}
use go_code_goes_here.Lca.Cull.Laws.{
  is_unused-itoa, is_idle, AllReport, lookup-cull_unused_services, should_cull-verdict, reports,
  cull_unused_services_keeps,
}
use go_code_goes_here.Rcache.{second}
use go_code_goes_here.Lca.Service.{Transport, metrics_text, handle_stream}
use go_code_goes_here.Lca.Service.Idle.{is_unused-metrics_text, Answered, handle_stream-Answered}
use go_code_goes_here.Lca.Config.{NodeConfig}
use go_code_goes_here.Lca.Start.{Node, absent, contains, new_lca_allocator}
use go_code_goes_here.Lca.Tests.Hosts.{speaking, host, near, far, some_address}

address_accepted : is_address some_address ≡ true
unfolding is_address field last_field
address_accepted = refl

address : IsAddress some_address
address = is_address_sound some_address address_accepted

abbrev answering : World
answering = speaking (some_address ++ codes "\n")

alloc_better_service-Allocated_example :
    (peers : List PeerInfo) × ((allocators answering 0).0 ≡ ok peers)
    × Allocated answering (codes "image") peers (near.id, near.perf)
    × (shorter (record { rtt = 100 }) near.perf ≡ false)
unfolding alloc_better_service allocators ask_better ask request_alloc write read is_address same
    field last_field trim_suffix
alloc_better_service-Allocated_example =
    alloc_better_service-Allocated answering (codes "image") (record { rtt = 100 }) 0
      (near.id, near.perf) refl

abbrev asked : World
asked = speaking (codes "start-program image\n")

abbrev garbled : World
garbled = speaking (codes "hello\n")

abbrev stopping : World
stopping = speaking (codes "stop-program image\n")

handle_panics_example :
    ((handle (host garbled []) [] [] [] (codes "near") 0).0 ≡ panicked) ↔ HasNoSpace (codes "hello")
unfolding read trim_suffix
handle_panics_example =
    handle_panics (host garbled []) [] [] [] (codes "near") 0 (codes "hello") refl

stop_program-HasNoSpace : HasNoSpace (codes "stop-program")
unfolding is_regexp_space
stop_program-HasNoSpace = ground arith

abbrev busy : Machine
busy = host asked (itoa 7 ++ codes "\n")

-- The service on 80 reports 7 seconds, the one on 81 reports 100, and the one on 82 is not there.
abbrev mixed : Machine
mixed = record busy {
  http_get = λ url s. (
    if same url (codes "http://127.0.0.1:82") then err (external (codes "refused")) else ok url,
    s,
  );
  read_all = λ url s. (
    ok (
        if same url (codes "http://127.0.0.1:81")
        then itoa 100 ++ codes "\n"
        else itoa 7 ++ codes "\n"),
    s,
  );
}

abbrev report : Bytes → Option ℕ
report port =
    if same port (codes "82") then none else if same port (codes "81") then some 100 else some 7

abbrev three : Services
three = (codes "80", codes "c") ∷ (codes "81", codes "d") ∷ (codes "82", codes "e") ∷ []

reported : AllReport mixed report three
unfolding same
reported = (
  (omega arith, λ t. (codes "http://127.0.0.1:80", refl, refl)),
  (
    (omega arith, λ t. (codes "http://127.0.0.1:81", refl, refl)),
    (λ t. (external (codes "refused"), refl), tt),
  ),
)

lookup-cull_unused_services_example :
    lookup (codes "81") (cull_unused_services mixed three 0).0
    ≡ (if is_idle mixed (report (codes "81")) then none else lookup (codes "81") three)
lookup-cull_unused_services_example =
    lookup-cull_unused_services mixed report (codes "81") three 0 reported

busy_enough : (port : Bytes) (t : ℕ) → (should_cull busy port t).0 ≡ false
busy_enough port t =
    should_cull-verdict busy {metrics_port = port} {s = t}
      (reports (codes "http://127.0.0.1:" ++ port) 7 refl refl (omega arith))

abbrev idle_manager : LcaManager
idle_manager = record { p2p_hash = []; tolsr = 5 }

is_unused-metrics_text_example :
    (is_unused (metrics_text idle_manager 100_000_000_000) ≡ true)
    ↔ (61 * second ≤ 100_000_000_000 - 5)
is_unused-metrics_text_example = is_unused-metrics_text idle_manager 100_000_000_000 (omega arith)

-- Requests, responses and URLs are texts; the service answers every request.
abbrev transport : Transport
transport = record {
  world = asked;
  Request = Bytes;
  Response = Bytes;
  Url = Bytes;
  read_request = λ stream s. (ok (codes "/web/args"), s);
  request_uri = λ req. req;
  parse_url = λ req text. ok text;
  round_trip = λ req url s. (ok (codes "hello"), s);
  write_response = λ resp stream s. (none, s);
}

handle_stream-Answered_example :
    Answered transport
      (codes "near")
      idle_manager
      (handle_stream transport some_address (codes "near") idle_manager 0)
handle_stream-Answered_example =
    handle_stream-Answered transport some_address (codes "near") idle_manager 0
