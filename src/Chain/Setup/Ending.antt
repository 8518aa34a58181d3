-- ===== src/Chain/Setup/Ending.antt =====
-- All that chainSetupHandler of l4-proxy/chain-setup.go may do at the end of a chain.
use go_code_goes_here.Prelude.{
  ◌≡◌, refl, ap, subst, Bytes, false, inl, inr, List, [], ◌∷◌, ◌++◌, none, some, Option-cases,
}
use go_code_goes_here.World.{Error, ok}
use go_code_goes_here.Locate.{Env}
use go_code_goes_here.Chain.Link.{Net, send_setup_ack, receive_setup_request}
use go_code_goes_here.Chain.Serving.{at, Done, is_protocol, start_end}
use go_code_goes_here.Chain.Serving.Outcomes.{Serves, at_end, start_end-Serves}
use go_code_goes_here.Chain.Setup.{rev_chain_msg_prefix, chain_setup_handler}
use go_code_goes_here.Chain.Setup.Route.{DoesNotName, services_of, last_protocol}
use go_code_goes_here.Chain.Setup.Handler.{chain_setup_handler_ends}

module _ (net : Net) where
  open net use {State, Stream, world}

  -- From the state behind the receive: the acknowledgement cannot be sent, or it is sent, and the proxy
  -- turns to its service.
  pub data Ended (service endpoint proto : Bytes) (stream : Stream) (env : Env world) (s : State)
      (out : Done net) : Type 0 where
    unsent :
        (e : Error) (s' : State)
        → send_setup_ack net stream (rev_chain_msg_prefix ++ service) s ≡ (some e, s')
        → out ≡ ([], at net env s')
        → Ended service endpoint proto stream env s out
    serves :
        (s' : State)
        → send_setup_ack net stream (rev_chain_msg_prefix ++ service) s ≡ (none, s')
        → Serves net (at_end net proto stream) proto endpoint stream (at net env s') out
        → Ended service endpoint proto stream env s out

  -- When a chain was received that names the proxy's service once, as its last one, and the service's
  -- name is no protocol's, the handler returns. Either the acknowledgement that names the service could
  -- not be sent to the proxy before it, and nothing is started; or it was sent, and what is started
  -- depends on the protocol named last before the service: for udp and tcp, if the service can be
  -- connected to, the forwarder from the stream to the connection and the one back; else nothing.
  pub chain_setup_handler-Ended :
      (service endpoint : Bytes) (stream : Stream) (env : Env world) (s : State)
      (pre post : List Bytes)
      → receive_setup_request net stream env.outside ≡ (ok (pre ++ service ∷ post), s)
      → is_protocol service ≡ false
      → DoesNotName service pre
      → DoesNotName service post
      → services_of post ≡ []
      → (out : Done net) × (chain_setup_handler net service endpoint stream env ≡ some out)
        × Ended service endpoint (last_protocol [] pre) stream env s out
  chain_setup_handler-Ended service endpoint stream env s pre post r p h k none_behind =
      let proto = last_protocol [] pre in
      let sent = send_setup_ack net stream (rev_chain_msg_prefix ++ service) s in
      let ran =
        subst
          (λ x. chain_setup_handler net service endpoint stream env ≡ elim x.0 [
            | some f ↦ some ([], at net env x.1)
            | none ↦ some (start_end net proto endpoint stream (at net env x.1))
          ])
          (ap (λ x. send_setup_ack net stream (rev_chain_msg_prefix ++ service) x.1) r)
          (chain_setup_handler_ends net service endpoint stream env pre post (ap (λ x. x.0) r) p h k
            none_behind) in
      elim (Option-cases sent.0) [
        | inl q ↦ (
          start_end net proto endpoint stream (at net env sent.1),
          rw q at ran,
          serves sent.1 (ap (λ x. (x, sent.1)) q) (start_end-Serves net proto endpoint stream _),
        )
        | inr (e, q) ↦
            (([], at net env sent.1), rw q at ran, unsent e sent.1 (ap (λ x. (x, sent.1)) q) refl)
      ]
