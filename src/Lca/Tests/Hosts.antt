-- ===== src/Lca/Tests/Hosts.antt =====
-- Worlds in which every peer answers one line, and hosts that can start any container.
use go_code_goes_here.Prelude.{ℕ, Bytes, codes, [], ◌∷◌, none, some, same, if◌then◌else◌}
use go_code_goes_here.World.{World, PeerInfo, external, ok}
use go_code_goes_here.World.Toy.{toy, shorter}
use go_code_goes_here.Lca.Machine.{Machine}

abbrev pub some_address : Bytes
some_address = codes "10.0.0.1:8080"

abbrev pub near : PeerInfo
near = record { id = codes "near"; serv_name = []; serv_hash = []; perf = record { rtt = 5 } }

abbrev pub far : PeerInfo
far = record { id = codes "far"; serv_name = []; serv_hash = []; perf = record { rtt = 500 } }

-- A write to the stream `broken` fails.
abbrev pub speaking : Bytes → World
speaking line = record {
  State = ℕ;
  PeerChan = Bytes;
  Backoff = ℕ;
  Stream = Bytes;
  less_than = shorter;
  now = toy.now;
  sleep = toy.sleep;
  ping = toy.ping;
  get_service = toy.get_service;
  find_peers = λ hash s. (ok hash, s);
  sort_peers = λ hash s. (near ∷ far ∷ [], s);
  new_backoff = toy.new_backoff;
  attempt = toy.attempt;
  new_stream = λ id protocol s. (ok id, s);
  write_string = λ stream text s.
      (if same stream (codes "broken") then some (external (codes "reset")) else none, s);
  read_string = λ stream s. (ok line, s);
  reset = λ stream s. s;
  close_stream = λ stream s. s;
}

-- Every port asked for is 80, and each service answers the same metrics.
abbrev pub host : (w : World) → Bytes → Machine
host w metrics = record {
  world = w;
  pull_image = λ image s. (none, s);
  run_container = λ config s. (ok (codes "container"), s);
  stop_container = λ cid s. s;
  delete_container = λ cid s. s;
  get_ip_address = λ s. (ok (codes "10.0.0.1"), s);
  get_free_port = λ s. (ok 80, s);
  Body = Bytes;
  http_get = λ url s. (ok url, s);
  read_all = λ url s. (ok metrics, s);
}
