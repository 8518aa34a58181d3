-- ===== src/Chain/Tests/Wire.antt =====
-- A tunnel with one client, as a world whose state is what is on its way, at concrete inputs.
use go_code_goes_here.Prelude.{
  ℕ, ◌≡◌, refl, ap, arith, Bytes, codes, false, List, [], ◌∷◌, ◌++◌, none, some, length,
}
use go_code_goes_here.World.{World, Result, ok, err, external}
use go_code_goes_here.World.Toy.{toy, shorter}
use go_code_goes_here.Chain.Message.{
  ChainMsg, new_chain_data, accept_data, encode_chain_data, decode_chain_data, expect_type,
  same_type,
}
use go_code_goes_here.Chain.Link.{Net, send_data, receive_data}
use go_code_goes_here.Chain.Forward.{
  Pipes, fwd_to_stream, fwd_to_writer, write_all, max_tcp_tunnel_payload,
}
use go_code_goes_here.Chain.Forward.Tunnel.{
  IsTunnel, reading, writing, stay, go, in_transit, Steps-in_transit,
}
use go_code_goes_here.Chain.Tests.Nets.{codec}

record Wire : Type 0 where
  input : List Bytes
  queue : List ChainMsg
  output : Bytes

abbrev quiet : World
quiet = record {
  State = Wire;
  PeerChan = Bytes;
  Backoff = ℕ;
  Stream = Bytes;
  less_than = shorter;
  now = λ s. (0, s);
  sleep = λ d s. s;
  ping = λ id timeout s. (5, s);
  get_service = λ name s. ((toy.get_service name 0).0, s);
  find_peers = λ hash s. (ok hash, s);
  sort_peers = λ hash s. ([], s);
  new_backoff = λ wait longest attempts s. (attempts, s);
  attempt = λ b s. (false, b, s);
  new_stream = λ id protocol s. (ok id, s);
  write_string = λ stream text s. (none, s);
  read_string = λ stream s. (err (external (codes "EOF")), s);
  reset = λ stream s. s;
  close_stream = λ stream s. s;
}

abbrev receive_one : List ChainMsg → Wire → Result ChainMsg × Wire
receive_one [] s = (err (external (codes "EOF")), s)
receive_one (m ∷ ms) s = (ok m, record s { queue = ms })

abbrev read_one : List Bytes → Wire → Result Bytes × Wire
read_one [] s = (err (external (codes "EOF")), s)
read_one (d ∷ ds) s = (ok d, record s { input = ds })

abbrev wire : Net
wire = record {
  codec = codec;
  world = quiet;
  send_msg = λ stream m s. (none, record s { queue = s.queue ++ m ∷ [] });
  recv_msg = λ stream s. receive_one s.queue s;
  set_protocol = λ stream proto s. s;
  Ticker = Unit;
  new_ticker = λ d s. (tt, s);
  await_tick = λ ticker s. s;
  close_conn = λ stream s. s;
  Conn = Bytes;
  dial = λ proto endpoint s. (ok endpoint, s);
}

abbrev line : Pipes
line = record {
  net = wire;
  Address = Bytes;
  write_conn = λ dst d s. (length d, none, record s { output = s.output ++ d });
  write_to = λ dst a d s. (length d, none, s);
  read_conn = λ src max s. read_one s.input s;
  close = λ conn s. s;
}

read_one_lem :
    (i : List Bytes) (s : Wire) (d : Bytes)
    → (read_one i s).0 ≡ ok d
    → let s' = (read_one i s).1 in
      (i ≡ d ∷ s'.input) × ((s'.queue ≡ s.queue) × (s'.output ≡ s.output))
read_one_lem [] s d h = absurd (ground (arith, h))
read_one_lem (x ∷ ds) s d h = let e : x ≡ d = cc in (ap (λ y. y ∷ ds) e, (refl, refl))

receive_one_lem :
    (q : List ChainMsg) (s : Wire) (m : ChainMsg)
    → (receive_one q s).0 ≡ ok m
    → let s' = (receive_one q s).1 in
      (q ≡ m ∷ s'.queue) × ((s'.input ≡ s.input) × (s'.output ≡ s.output))
receive_one_lem [] s m h = absurd (ground (arith, h))
receive_one_lem (x ∷ ms) s m h = let e : x ≡ m = cc in (ap (λ y. y ∷ ms) e, (refl, refl))

line-IsTunnel : IsTunnel line (codes "src") (codes "near") (codes "far") (codes "dst")
line-IsTunnel = record {
  input = λ s. s.input;
  queue = λ s. s.queue;
  output = λ s. s.output;
  reads = λ s d h. read_one_lem s.input s d h;
  sends = λ s m h. (refl, (refl, refl));
  receives = λ s m h. receive_one_lem s.queue s m h;
  writes = λ s d h. (refl, (omega arith, (refl, refl)));
}

abbrev before : Wire
before = record { input = codes "hello" ∷ codes "you" ∷ []; queue = []; output = [] }

abbrev between_ends : Wire
between_ends = record {
  input = codes "you" ∷ [];
  queue = new_chain_data codec (codes "hello") ∷ [];
  output = [];
}

abbrev after : Wire
after = record { input = codes "you" ∷ []; queue = []; output = codes "hello" }

sent :
    fwd_to_stream line max_tcp_tunnel_payload 1 (codes "src") (codes "near") before
    ≡ (false, between_ends)
unfolding fwd_to_stream send_data
sent = refl

written :
    fwd_to_writer line 2 (line.write_conn (codes "dst")) 1 (codes "far") between_ends
    ≡ some (false, after)
unfolding fwd_to_writer write_all receive_data accept_data new_chain_data encode_chain_data
    decode_chain_data expect_type same_type
written = refl

Steps-in_transit_example :
    in_transit line line-IsTunnel after ≡ in_transit line line-IsTunnel before
Steps-in_transit_example =
    Steps-in_transit line line-IsTunnel (go (go stay (reading sent)) (writing 2 written))
