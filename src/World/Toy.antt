-- ===== src/World/Toy.antt =====
-- A small concrete world, at which the properties are instantiated: its state is a clock that every
-- look at it moves on by one.
use go_code_goes_here.Prelude.{
  ℕ, ◌+◌, ◌-◌, Bool, Bytes, codes, [], ◌∷◌, none, some, same, ltb, if◌then◌else◌,
}
use go_code_goes_here.World.{World, PerfInd, ServiceInfo, external, ok, err, no_perf}

-- Less is a shorter time.
abbrev pub shorter : PerfInd → PerfInd → Bool
shorter a b = ltb a.rtt b.rtt

abbrev pub web : ServiceInfo
web = record {
  content_hash = codes "hash";
  docker_hash = codes "image";
  network_soft_req = record { rtt = 50 };
  network_hard_req = record { rtt = 100 };
}

abbrev pub no_service : ServiceInfo
no_service = record {
  content_hash = [];
  docker_hash = [];
  network_soft_req = no_perf;
  network_hard_req = no_perf;
}

-- Knows the service "web", and a peer for it, `near`; the peer `dead` answers no ping.
abbrev pub toy : World
toy = record {
  State = ℕ;
  PeerChan = Bytes;
  Backoff = ℕ;
  Stream = Bytes;
  less_than = shorter;
  now = λ s. (s, s + 1);
  sleep = λ d s. s + d;
  ping = λ id timeout s. (if same id (codes "dead") then 0 else 5, s);
  get_service = λ name s. (
    if same name (codes "web")
        then record { info = web; error = none }
        else record { info = no_service; error = some (external name) },
    s,
  );
  find_peers = λ hash s. (ok hash, s);
  sort_peers = λ hash s. (
    if same hash (codes "hash")
        then record { id = codes "near"; serv_name = []; serv_hash = []; perf = record { rtt = 5 } }
          ∷ []
        else [],
    s,
  );
  new_backoff = λ wait longest attempts s. (attempts, s);
  attempt = λ b s. (ltb 0 b, b - 1, s);
  new_stream = λ id protocol s. (ok id, s);
  write_string = λ stream text s. (none, s);
  read_string = λ stream s. (err (external (codes "EOF")), s);
  reset = λ stream s. s;
  close_stream = λ stream s. s;
}
