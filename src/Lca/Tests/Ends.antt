-- ===== src/Lca/Tests/Ends.antt =====
-- A request for an allocation at both of its ends: a host that starts the image, and a manager that
-- reads what the host wrote.
use go_code_goes_here.Prelude.{ℕ, ◌-◌, Bytes, codes, [], none, ltb}
use go_code_goes_here.World.{World, ok}
use go_code_goes_here.World.Toy.{toy, shorter}
use go_code_goes_here.Lca.Machine.{Machine}
use go_code_goes_here.Lca.Allocator.Replies.{first_line}
use go_code_goes_here.Lca.Tests.Hosts.{speaking, host}

-- A world whose state is what the other end has written.
abbrev hearing : World
hearing = record {
  State = Bytes;
  PeerChan = Bytes;
  Backoff = ℕ;
  Stream = Bytes;
  less_than = shorter;
  now = λ s. (0, s);
  sleep = λ d s. s;
  ping = λ id timeout s. (5, s);
  get_service = λ name s. ((toy.get_service name 0).0, s);
  find_peers = λ hash s. (ok hash, s);
  sort_peers = λ hash s. ([], s);
  new_backoff = λ first longest n s. (n, s);
  attempt = λ b s. (ltb 0 b, b - 1, s);
  new_stream = λ id protocol s. (ok id, s);
  write_string = λ stream text s. (none, s);
  read_string = λ stream s. (ok (first_line s), s);
  reset = λ stream s. s;
  close_stream = λ stream s. s;
}

abbrev starter : Machine
starter = host (speaking (codes "start-program image\n")) []
