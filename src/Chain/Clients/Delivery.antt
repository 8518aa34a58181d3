-- ===== src/Chain/Clients/Delivery.antt =====
-- What a round of udpServiceProxy of l4-proxy/udp-proxy.go does with a packet of a client.
use go_code_goes_here.Prelude.{◌≡◌, Bytes, true, false, List, none, some, lookup}
use go_code_goes_here.World.{Error, err}
use go_code_goes_here.Locate.{Env}
use go_code_goes_here.Chain.Link.{Routine, send_data}
use go_code_goes_here.Chain.Serving.{at}
use go_code_goes_here.Chain.Setup.{setup_chain}
use go_code_goes_here.Chain.Forward.{Pipes}
use go_code_goes_here.Chain.Clients.{goes_on, returned, Clients, Served}

module _ (pipes : Pipes) where
  open pipes use {State, Stream, net, world, reset}

  -- A write of the packet over a stream failed.
  pub record Failed (d : Bytes) (stream : Stream) (after : State) : Type 0 where
    pub before : State
    pub why : Error
    pub failed : send_data net stream d before ≡ (some why, after)

  -- No chain could be set up, in an environment.
  pub record Unchained (spec : List Bytes) (env : Env world) : Type 0 where
    pub why : Error
    pub started : List (Routine net)
    pub env' : Env world
    pub refused : setup_chain net spec env ≡ some (err why, started, env')

  -- The end of a round for a packet. The packet was written to the stream that the map holds for the
  -- client; or two writes failed, the second one to the stream of a new chain, and the client has no
  -- stream; or the function returned, as no chain could be set up: for a client that had none, with the
  -- mutex locked, or after a failed write, without it.
  pub data Delivered (spec : List Bytes) (from d : Bytes) (clients : Clients pipes)
      (env : Env world) (out : Served pipes) : Type 0 where
    written :
        (stream : Stream) (s s' : State)
        → out.0 ≡ goes_on
        → lookup from out.2 ≡ some stream
        → send_data net stream d s ≡ (none, s')
        → Delivered spec from d clients env out
    given_up :
        (first second : Stream) (s s' : State)
        → Failed d first s
        → Failed d second s'
        → out.0 ≡ goes_on
        → lookup from out.2 ≡ none
        → Delivered spec from d clients env out
    without_first :
        lookup from clients ≡ none
        → Unchained spec env
        → out.0 ≡ returned true
        → out.2 ≡ clients
        → Delivered spec from d clients env out
    without_second :
        (stream : Stream) (env' : Env world) (s : State)
        → Failed d stream s
        → Unchained spec (at net env' (reset stream s))
        → out.0 ≡ returned false
        → lookup from out.2 ≡ some stream
        → Delivered spec from d clients env out

  module _ (spec : List Bytes) (from d : Bytes) (clients : Clients pipes) (env : Env world) where
    abbrev Ends : Served pipes → Type 0
    Ends = Delivered spec from d clients env
