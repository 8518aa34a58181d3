-- ===== src/Chain/Tests/Trail.antt =====
-- The proxies of a chain of two services, in a network that keeps a log of the messages, and the
-- acknowledgement that travels back through them.
use mathlib.Core.List.{reverse}
use go_code_goes_here.Prelude.{
  ℕ, ◌≡◌, refl, Bytes, codes, List, [], ◌∷◌, ◌++◌, none, same, lookup, store, if◌then◌else◌,
  has_prefix, join,
}
use go_code_goes_here.World.{World, ok}
use go_code_goes_here.World.Toy.{toy, web}
use go_code_goes_here.Rcache.{get_or_request, get, request, add}
use go_code_goes_here.Pcache.{get_peer, add_peer}
use go_code_goes_here.Pcache.Shape.{cache}
use go_code_goes_here.Lca.Manager.{find_service}
use go_code_goes_here.Locate.{
  Env, find_or_allocate, rounds, round, improve, conclude, resolve_service, peer_for,
}
use go_code_goes_here.Chain.Message.{
  ChainMsg, setup_ack, setup_request, new_chain_setup_request, new_chain_setup_ack,
  accept_setup_request, accept_setup_ack, decode_chain_data, encode_chain_data, expect_type,
  same_type,
}
use go_code_goes_here.Chain.Link.{
  Net, conn_qual_monitor, fwd_stream_to_conn, fwd_conn_to_stream, fwd_stream_to_stream,
  send_setup_request, send_setup_ack, receive_setup_request, receive_setup_ack,
}
use go_code_goes_here.Chain.Serving.{
  tcp, udp, at, start_end, start_mid, udp_end_chain_handler, tcp_end_chain_handler,
  udp_resolve_and_dial, udp_mid_chain_handler, tcp_mid_chain_handler,
}
use go_code_goes_here.Chain.Setup.{
  relay, rev_chain_msg_prefix, chain_setup_handler, take_place, finish_chain, extend_chain,
  forward_setup, scan,
}
use go_code_goes_here.Chain.Setup.Relay.{Exchanged}
use go_code_goes_here.Chain.Setup.Backward.{
  Log, Place, Acknowledged, ends, passes, acknowledged-join,
}
use go_code_goes_here.Chain.Tests.Nets.{codec, encode, web_name}
use go_code_goes_here.Chain.Tests.{resize}
use go_code_goes_here.Chain.Tests.Hops.{two_hops}

-- The clock of the toy world, and the messages that were sent.
abbrev Trail : Type 0
Trail = ℕ × List (Bytes × ChainMsg)

abbrev on_clock : {A : Type 0} → (ℕ → A × ℕ) → Trail → A × Trail
on_clock f t = let (a, n) = f t.0 in (a, (n, t.1))

abbrev trailing : World
trailing = record {
  State = Trail;
  PeerChan = Bytes;
  Backoff = ℕ;
  Stream = Bytes;
  less_than = toy.less_than;
  now = on_clock toy.now;
  sleep = λ d t. (toy.sleep d t.0, t.1);
  ping = λ id timeout. on_clock (toy.ping id timeout);
  get_service = λ name. on_clock (toy.get_service name);
  find_peers = λ hash. on_clock (toy.find_peers hash);
  sort_peers = λ found. on_clock (toy.sort_peers found);
  new_backoff = λ first longest n. on_clock (toy.new_backoff first longest n);
  attempt = λ b t. let (again, b', n) = toy.attempt b t.0 in (again, b', (n, t.1));
  new_stream = λ id protocol. on_clock (toy.new_stream id protocol);
  write_string = λ stream text. on_clock (toy.write_string stream text);
  read_string = λ stream. on_clock (toy.read_string stream);
  reset = λ stream s. s;
  close_stream = λ stream s. s;
}

-- What comes in on `in` asks for the chain, and any other stream acknowledges it.
abbrev post_office : Net
post_office = record {
  codec = codec;
  world = trailing;
  send_msg = λ stream m t. (none, (t.0, t.1 ++ (stream, m) ∷ []));
  recv_msg = λ stream t. (
    ok (
        if same stream (codes "in")
        then record { type = setup_request; payload = encode two_hops }
        else record { type = setup_ack; payload = codes "Reverse chain: web" }),
    t,
  );
  set_protocol = λ stream proto t. t;
  Ticker = Unit;
  new_ticker = λ d t. (tt, t);
  await_tick = λ ticker t. t;
  close_conn = λ stream t. t;
  Conn = Bytes;
  dial = λ proto endpoint t. (ok endpoint, t);
}

log : Log post_office
log = record {
  sent = λ t. t.1;
  sends = λ stream m t h. refl;
  sets = λ stream proto t. refl;
  dials = λ proto endpoint t. refl;
}

abbrev started : Env trailing
started = record {
  registry_cache = record { ttl = 10; entries = [] };
  peer_cache = cache [] [] [];
  outside = (0, []);
}

abbrev last_text : Bytes
last_text = codes "Reverse chain: web"

abbrev acked : Bytes → Bytes × ChainMsg
acked text = (codes "in", record { type = setup_ack; payload = text })

last_place : Place post_office log two_hops web_name last_text
unfolding chain_setup_handler take_place finish_chain scan start_end udp_end_chain_handler
    tcp_end_chain_handler udp_resolve_and_dial same send_setup_ack receive_setup_request
    accept_setup_request decode_chain_data expect_type same_type new_chain_setup_ack
    encode_chain_data log
last_place = record {
  endpoint = codes "10.0.0.2:80";
  stream = codes "in";
  env = started;
  s = (0, []);
  pre = tcp ∷ resize ∷ udp ∷ [];
  post = [];
  out = (
    fwd_stream_to_conn udp (codes "in") (codes "10.0.0.2:80")
        ∷ fwd_conn_to_stream udp (codes "10.0.0.2:80") (codes "in")
        ∷ [],
    at post_office started (0, acked last_text ∷ []),
  );
  splits = refl;
  receives = refl;
  is_service = refl;
  before = (refl, (refl, (refl, tt)));
  behind = tt;
  runs = refl;
  answers = ([], refl);
}

-- The proxy before it asks, and opens a stream to the peer `near`.
abbrev asked : Trail
asked = (3, (codes "near", record { type = setup_request; payload = encode two_hops }) ∷ [])

abbrev found_near : Env trailing
found_near = record {
  registry_cache = record {
    ttl = 10;
    entries = (web_name, record { info = web; expiry = 10 }) ∷ [];
  };
  peer_cache = add_peer (peer_for web_name web (codes "near")) (cache [] [] []);
  outside = (3, []);
}

asks_near : Exchanged post_office two_hops started web_name (codes "near")
unfolding resolve_service get_or_request get request add lookup store find_or_allocate get_peer
    rounds round find_service improve conclude same send_setup_request receive_setup_ack
    new_chain_setup_request encode_chain_data accept_setup_ack decode_chain_data expect_type
    same_type
asks_near = record {
  id = codes "near";
  info = web;
  resolved = found_near;
  opened = (3, []);
  sent = asked;
  msg = last_text;
  back = asked;
  resolves = refl;
  opens = refl;
  sends = refl;
  receives = refl;
}

abbrev first_text : Bytes
first_text = codes "Reverse chain: web resize"

first_place : Place post_office log two_hops resize first_text
unfolding chain_setup_handler take_place extend_chain forward_setup scan start_mid
    udp_mid_chain_handler tcp_mid_chain_handler udp_resolve_and_dial same send_setup_ack
    receive_setup_request accept_setup_request decode_chain_data expect_type same_type
    new_chain_setup_ack encode_chain_data log relay resolve_service get_or_request get request add
    lookup store find_or_allocate get_peer rounds round find_service improve conclude
    send_setup_request receive_setup_ack new_chain_setup_request accept_setup_ack has_prefix
first_place = record {
  endpoint = codes "10.0.0.1:80";
  stream = codes "in";
  env = started;
  s = (0, []);
  pre = tcp ∷ [];
  post = udp ∷ web_name ∷ [];
  out = (
    conn_qual_monitor (codes "near") web (codes "in")
        ∷ fwd_stream_to_conn tcp (codes "in") (codes "10.0.0.1:80")
        ∷ fwd_conn_to_stream tcp (codes "10.0.0.1:80") (codes "near")
        ∷ fwd_stream_to_stream (codes "near") (codes "in")
        ∷ [],
    at post_office found_near (3, asked.1 ++ acked first_text ∷ []),
  );
  splits = refl;
  receives = refl;
  is_service = refl;
  before = (refl, tt);
  behind = (refl, (refl, tt));
  runs = refl;
  answers = (asked.1, refl);
}

went_back : Acknowledged post_office log two_hops (resize ∷ web_name ∷ []) first_text
unfolding first_place last_place asks_near send_setup_ack same
went_back = passes {more = []} first_place refl asks_near refl (ends last_place refl refl)

acknowledged-join_example :
    first_text ≡ rev_chain_msg_prefix ++ join (reverse (resize ∷ web_name ∷ [])) (codes " ")
acknowledged-join_example = acknowledged-join post_office log went_back
