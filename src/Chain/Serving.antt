-- ===== src/Chain/Serving.antt =====
-- What a proxy of a chain does with its local service once the chain is set up: the end and mid handlers
-- of l4-proxy/tcp-proxy.go and l4-proxy/udp-proxy.go, as chainSetupHandler of l4-proxy/chain-setup.go
-- starts them.
pub mod Outcomes
use go_code_goes_here.Prelude.{Bytes, codes, Bool, ◌||◌, List, [], ◌∷◌, same, if◌then◌else◌}
use go_code_goes_here.World.{Result, ok, err, wrapped}
use go_code_goes_here.Locate.{Env}
use go_code_goes_here.Chain.Link.{
  Net, Routine, fwd_stream_to_conn, fwd_conn_to_stream, fwd_stream_to_stream,
}

abbrev pub udp : Bytes
udp = codes "udp"

abbrev pub tcp : Bytes
tcp = codes "tcp"

abbrev pub is_protocol : Bytes → Bool
is_protocol token = same token udp || same token tcp

module _ (net : Net) where
  open net use {State, Stream, Conn, world, set_protocol, dial}

  abbrev pub at : Env world → State → Env world
  at env s = record {
    registry_cache = env.registry_cache;
    peer_cache = env.peer_cache;
    outside = s;
  }

  -- What a handler has done: the goroutines that it started, and the caches and the world.
  abbrev pub Done : Type 0
  Done = List (Routine net) × Env world

  -- tcpTunnelProtoID and udpTunnelProtoID
  abbrev pub tunnel_proto_id : Bytes → Bytes
  tunnel_proto_id proto =
      if same proto udp then codes "/LCATunnelUDP/1.0" else codes "/LCATunnelTCP/1.0"

  -- udpResolveAndDial
  unfoldable pub udp_resolve_and_dial : Bytes → State → Result Conn × State
  udp_resolve_and_dial endpoint s =
      let (r, s') = dial udp endpoint s in
      elim r [ err e ↦ (err (wrapped e), s') | ok conn ↦ (ok conn, s') ]

  -- udpEndChainHandler
  unfoldable pub udp_end_chain_handler : Bytes → Stream → Env world → Done
  udp_end_chain_handler endpoint stream env =
      let (r, s) = udp_resolve_and_dial endpoint env.outside in
      elim r [
        | err e ↦ ([], at env s)
        | ok conn ↦
            (fwd_stream_to_conn udp stream conn ∷ fwd_conn_to_stream udp conn stream ∷ [], at env s)
      ]

  -- tcpEndChainHandler
  unfoldable pub tcp_end_chain_handler : Bytes → Stream → Env world → Done
  tcp_end_chain_handler endpoint stream env =
      let (r, s) = dial tcp endpoint env.outside in
      elim r [
        | err e ↦ ([], at env s)
        | ok conn ↦
            (fwd_stream_to_conn tcp stream conn ∷ fwd_conn_to_stream tcp conn stream ∷ [], at env s)
      ]

  -- udpMidChainHandler
  unfoldable pub udp_mid_chain_handler : Bytes → Stream → Stream → Env world → Done
  udp_mid_chain_handler endpoint in_stream out_stream env =
      let (r, s) = udp_resolve_and_dial endpoint env.outside in
      elim r [
        | err e ↦ ([], at env s)
        | ok conn ↦ (
          fwd_stream_to_conn udp in_stream conn
              ∷ fwd_conn_to_stream udp conn out_stream
              ∷ fwd_stream_to_stream out_stream in_stream
              ∷ [],
          at env s,
        )
      ]

  -- tcpMidChainHandler
  unfoldable pub tcp_mid_chain_handler : Bytes → Stream → Stream → Env world → Done
  tcp_mid_chain_handler endpoint in_stream out_stream env =
      let (r, s) = dial tcp endpoint env.outside in
      elim r [
        | err e ↦ ([], at env s)
        | ok conn ↦ (
          fwd_stream_to_conn tcp in_stream conn
              ∷ fwd_conn_to_stream tcp conn out_stream
              ∷ fwd_stream_to_stream out_stream in_stream
              ∷ [],
          at env s,
        )
      ]

  -- The data plane of this proxy, at the end of a chain and in its middle.
  unfoldable pub start_end : Bytes → Bytes → Stream → Env world → Done
  start_end proto endpoint stream env =
      let set_to : Bytes → Env world =
        λ p. at env (set_protocol stream (tunnel_proto_id p) env.outside) in
      if same proto udp
      then udp_end_chain_handler endpoint stream (set_to udp)
      else if same proto tcp
      then tcp_end_chain_handler endpoint stream (set_to tcp)
      else ([], env)

  unfoldable pub start_mid : Bytes → Bytes → Stream → Stream → Env world → Done
  start_mid proto endpoint in_stream out_stream env =
      let set_to : Bytes → Env world =
        λ p. at env (set_protocol out_stream (tunnel_proto_id p) env.outside) in
      if same proto udp
      then udp_mid_chain_handler endpoint in_stream out_stream (set_to udp)
      else if same proto tcp
      then tcp_mid_chain_handler endpoint in_stream out_stream (set_to tcp)
      else ([], env)
