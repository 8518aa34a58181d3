-- ===== src/Chain/Setup/Relay.antt =====
-- What chainSetupHandler of l4-proxy/chain-setup.go does in the middle of a chain.
use go_code_goes_here.Prelude.{◌≡◌, arith, ℕ, Bytes, false, List, [], ◌∷◌, ◌++◌, none, some}
use go_code_goes_here.World.{ServiceInfo, ok}
use go_code_goes_here.Locate.{Env, resolve_service}
use go_code_goes_here.Chain.Link.{
  create_stream, Net, conn_qual_monitor, send_setup_request, send_setup_ack, receive_setup_request,
  receive_setup_ack,
}
use go_code_goes_here.Chain.Serving.{is_protocol, start_mid, at}
use go_code_goes_here.Chain.Setup.{
  relay, extend_chain, forward_setup, take_place, chain_setup_handler, chain_setup_proto_id,
}
use go_code_goes_here.Chain.Setup.Route.{DoesNotName, services_of, last_protocol, scan_finds}

module _ (net : Net) where
  open net use {State, Stream, world}

  -- The exchange with the next proxy of a chain, from the state in which its stream is open: the chain
  -- is sent on, and a message comes back.
  pub record Exchanged (spec : List Bytes) (env : Env world) (next : Bytes) (out_stream : Stream)
      : Type 0 where
    pub id : Bytes
    pub info : ServiceInfo
    pub resolved : Env world
    pub opened : State
    pub sent : State
    pub msg : Bytes
    pub back : State
    pub resolves : resolve_service world next env ≡ some (ok (id, info), resolved)
    pub opens : create_stream net id chain_setup_proto_id resolved.outside ≡ (ok out_stream, opened)
    pub sends : send_setup_request net out_stream spec opened ≡ (none, sent)
    pub receives : receive_setup_ack net out_stream sent ≡ (ok msg, back)

  -- When a chain was received that names the proxy's service once, with another service behind it, the
  -- service's name is no protocol's, and the next proxy was found, was sent the chain and acknowledged it,
  -- the handler starts one monitor, sends the acknowledgement with its own name on to the proxy before
  -- it, and starts the forwarders of the protocol named last before the service.
  pub chain_setup_handler_relays :
      (service endpoint : Bytes) (stream out_stream : Stream) (env : Env world) (s : State)
      (pre post : List Bytes) (c : ℕ) (cs : Bytes) (more : List Bytes)
      → receive_setup_request net stream env.outside ≡ (ok (pre ++ service ∷ post), s)
      → is_protocol service ≡ false
      → DoesNotName service pre
      → DoesNotName service post
      → services_of post ≡ (c ∷ cs) ∷ more
      → (x : Exchanged (pre ++ service ∷ post) (at net env s) (c ∷ cs) out_stream)
      → let (_, s') = send_setup_ack net stream (relay service x.msg) x.back in
        let (started, env') =
          start_mid net (last_protocol [] pre) endpoint stream out_stream (at net x.resolved s') in
        chain_setup_handler net service endpoint stream env
        ≡ some (conn_qual_monitor x.id x.info stream ∷ started, env')
  unfolding chain_setup_handler take_place extend_chain forward_setup
  chain_setup_handler_relays service endpoint stream out_stream env s pre post c cs more r p h k
        names x =
      let (found, (this, next)) = scan_finds service pre post p h k in
      ground (arith, r, found, this, next, names, x.resolves, x.opens, x.sends, x.receives)
