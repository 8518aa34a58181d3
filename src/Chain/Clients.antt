-- ===== src/Chain/Clients.antt =====
-- udpServiceProxy of l4-proxy/udp-proxy.go: packets of many clients on one socket, a chain for each.
pub mod Delivery
pub mod Sessions
pub mod Callback
pub mod Mutex
use go_code_goes_here.Prelude.{
  ℕ, Bytes, codes, Bool, true, false, List, [], ◌∷◌, ◌++◌, Option, none, some, lookup, store,
  delete, same, if◌then◌else◌,
}
use go_code_goes_here.World.{World, Error, Result, ok, err}
use go_code_goes_here.Locate.{Env}
use go_code_goes_here.Chain.Link.{Net, Routine, send_data}
use go_code_goes_here.Chain.Serving.{at, udp, tunnel_proto_id}
use go_code_goes_here.Chain.Setup.{setup_chain}
use go_code_goes_here.Chain.Forward.{Pipes}

-- How a round of the loop ends: the next packet is read, or the function has returned, with the mutex of
-- the map locked or not.
pub data Turn : Type 0 where
  goes_on : Turn
  returned : Bool → Turn

module _ (pipes : Pipes) where
  open pipes use {State, Stream, net, world, reset}

  -- The goroutines of a round: those of setupChain, and the forwarder from a stream back to a client.
  pub data Task : Type 0 where
    of_chain : Routine net → Task
    fwd_to_client : Stream → Bytes → Task

  abbrev pub of_chains : List (Routine net) → List Task
  of_chains [] = []
  of_chains (r ∷ rs) = of_chain r ∷ of_chains rs

  -- client2ChainComm: a client's address, and the stream of its chain
  abbrev pub Clients : Type 0
  Clients = List (Bytes × Stream)

  abbrev pub Served : Type 0
  Served = Turn × List Task × Clients × Env world

  -- The second write: where it fails too, the client is removed, without the mutex.
  unfoldable pub second_try : Bytes → Bytes → Stream → List Task → Clients → Env world → Served
  second_try from d stream started clients env =
      let (e, s) = send_data net stream d env.outside in
      elim e [
        | none ↦ (goes_on, started, clients, at net env s)
        | some e ↦ (goes_on, started, delete from clients, at net env (reset stream s))
      ]

  -- The first write: where it fails, a new chain is set up for the client.
  unfoldable pub first_try :
      List Bytes → Bytes → Bytes → Stream → List Task → Clients → Env world → Option Served
  first_try spec from d stream started clients env =
      let (e, s) = send_data net stream d env.outside in
      elim e [
        | none ↦ some (goes_on, started, clients, at net env s)
        | some e ↦ elim (setup_chain net spec (at net env (reset stream s))) [
          | none ↦ none
          | some (r, rs, env') ↦ elim r [
            | err e ↦ some (returned false, started ++ of_chains rs, clients, env')
            | ok st ↦ some (
                second_try from d st (started ++ of_chains rs ++ fwd_to_client st from ∷ [])
                  (store from st clients) env')
          ]
        ]
      ]

  -- A round of the loop for a packet from a client. The return on a failed setup leaves the mutex locked.
  unfoldable pub serve_packet : List Bytes → Bytes → Bytes → Clients → Env world → Option Served
  serve_packet spec from d clients env = elim (lookup from clients) [
    | some stream ↦ first_try spec from d stream [] clients env
    | none ↦ elim (setup_chain net spec env) [
      | none ↦ none
      | some (r, rs, env') ↦ elim r [
        | err e ↦ some (returned true, of_chains rs, clients, env')
        | ok stream ↦
            first_try spec from d stream (of_chains rs ++ fwd_to_client stream from ∷ [])
              (store from stream clients) env'
      ]
    ]
  ]

  -- The loop of ClosedStreamF: the first client whose stream it is, as a test tells, is removed.
  unfoldable pub closed_stream : (Stream → Bool) → Clients → Clients
  closed_stream is_it [] = []
  closed_stream is_it ((k, v) ∷ rest) =
      let rest' = closed_stream is_it rest in
      elim (is_it v) [ true ↦ rest | false ↦ (k, v) ∷ rest' ]

  -- ClosedStreamF, with the protocol of the closed stream.
  unfoldable pub on_closed_stream : Bytes → (Stream → Bool) → Clients → Clients
  unfolding closed_stream
  on_closed_stream protocol is_it clients =
      let rest = closed_stream is_it clients in
      if same protocol (tunnel_proto_id net udp) then rest else clients
