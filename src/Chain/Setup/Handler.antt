-- ===== src/Chain/Setup/Handler.antt =====
-- What chainSetupHandler of l4-proxy/chain-setup.go does at each place in a chain.
use go_code_goes_here.Prelude.{
  ◌≡◌, refl, arith, Bytes, false, inl, inr, List, [], ◌∷◌, ◌++◌, none, some, Option-cases,
}
use go_code_goes_here.World.{Result-cases, ok}
use go_code_goes_here.Locate.{Env}
use go_code_goes_here.Locate.Returns.{IsBounded, resolve_service_returns}
use go_code_goes_here.Chain.Link.{Net, send_setup_ack, receive_setup_request}
use go_code_goes_here.Chain.Serving.{is_protocol, start_end, Done, at}
use go_code_goes_here.Chain.Setup.{
  finish_chain, rev_chain_msg_prefix, scan, scan_start, extend_chain, take_place,
  chain_setup_handler,
}
use go_code_goes_here.Chain.Setup.Route.{
  DoesNotName, services_of, last_protocol, scan_finds, scan_misses,
}

module _ (net : Net) where
  open net use {Stream, world}

  extend_chain_returns :
      (service endpoint proto next_serv : Bytes) (spec : List Bytes) (stream : Stream)
      (env : Env world)
      → IsBounded world
      → (out : Done net) × (extend_chain net service endpoint proto next_serv spec stream env
          ≡ some out)
  unfolding extend_chain
  extend_chain_returns service endpoint proto next_serv spec stream env bounded =
      let ((r, env1), q) = resolve_service_returns world next_serv env bounded in
      elim (Option-cases (extend_chain net service endpoint proto next_serv spec stream env)) [
        | inr (out, e) ↦ (out, e)
        | inl n ↦ absurd (ground (arith, n, q, Result-cases r))
      ]

  take_place_returns :
      (service endpoint : Bytes) (spec : List Bytes) (stream : Stream) (env : Env world)
      → IsBounded world
      → (out : Done net) × (take_place net service endpoint spec stream env ≡ some out)
  unfolding take_place
  take_place_returns service endpoint spec stream env bounded =
      let v = scan service spec scan_start in
      let (out, q) =
        extend_chain_returns service endpoint v.tp_proto_this v.next_serv spec stream env bounded in
      elim (Option-cases (take_place net service endpoint spec stream env)) [
        | inr (out, e) ↦ (out, e)
        | inl n ↦ absurd (ground (arith, n, q))
      ]

  -- Where the backoff lets at most as many attempts pass as it is told, chainSetupHandler returns.
  pub chain_setup_handler_returns :
      (service endpoint : Bytes) (stream : Stream) (env : Env world)
      → IsBounded world
      → (out : Done net) × (chain_setup_handler net service endpoint stream env ≡ some out)
  unfolding chain_setup_handler
  chain_setup_handler_returns service endpoint stream env bounded =
      let (r, s) = receive_setup_request net stream env.outside in
      elim (Result-cases r) [
        | inr (e, k) ↦ (([], at net env s), rw (k, chain_setup_handler) refl)
        | inl (spec, k) ↦
            let (out, q) = take_place_returns service endpoint spec stream (at net env s) bounded in
            (out, rw (k, chain_setup_handler) q)
      ]

  -- A proxy that the chain does not name answers nothing, starts nothing and asks no other proxy: the
  -- handler leaves the world as the receive left it.
  pub chain_setup_handler_misses :
      (service endpoint : Bytes) (stream : Stream) (env : Env world) (spec : List Bytes)
      → (receive_setup_request net stream env.outside).0 ≡ ok spec
      → DoesNotName service spec
      → chain_setup_handler net service endpoint stream env
        ≡ some ([], at net env (receive_setup_request net stream env.outside).1)
  unfolding chain_setup_handler take_place
  chain_setup_handler_misses service endpoint stream env spec r h =
      ground (arith, r, scan_misses service spec h)

  -- When a chain was received that names the proxy's service once, as its last one, and the
  -- service's name is no protocol's, the handler sends the acknowledgement that names the service
  -- to the proxy before it, and if that works starts the forwarders of the protocol named last
  -- before the service; it starts nothing if the send fails.
  pub chain_setup_handler_ends :
      (service endpoint : Bytes) (stream : Stream) (env : Env world) (pre post : List Bytes)
      → (receive_setup_request net stream env.outside).0 ≡ ok (pre ++ service ∷ post)
      → is_protocol service ≡ false
      → DoesNotName service pre
      → DoesNotName service post
      → services_of post ≡ []
      → let (e, s) =
          send_setup_ack net stream
            (rev_chain_msg_prefix ++ service)
            (receive_setup_request net stream env.outside).1 in
        chain_setup_handler net service endpoint stream env ≡ elim e [
          | some f ↦ some ([], at net env s)
          | none ↦ some (start_end net (last_protocol [] pre) endpoint stream (at net env s))
        ]
  unfolding chain_setup_handler take_place finish_chain
  chain_setup_handler_ends service endpoint stream env pre post r p h k none_behind =
      let (found, (this, next)) = scan_finds service pre post p h k in
      ground (arith, r, found, this, next, none_behind)
