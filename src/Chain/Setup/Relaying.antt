-- ===== src/Chain/Setup/Relaying.antt =====
-- All that chainSetupHandler of l4-proxy/chain-setup.go may do in the middle of a chain.
use go_code_goes_here.Prelude.{
  ◌≡◌, Bytes, codes, false, List, [], ◌∷◌, ◌++◌, none, some, has_prefix,
}
use go_code_goes_here.World.{ServiceInfo, Error, ok, err}
use go_code_goes_here.Locate.{Env, resolve_service}
use go_code_goes_here.Chain.Link.{
  Net, conn_qual_monitor, create_stream, send_setup_request, send_setup_ack, receive_setup_ack,
}
use go_code_goes_here.Chain.Serving.{at, Done}
use go_code_goes_here.Chain.Serving.Outcomes.{Serves, in_middle}
use go_code_goes_here.Chain.Setup.{rev_chain_msg_prefix, chain_setup_proto_id}

-- What a proxy makes of an acknowledgement: behind the words for a reverse chain it adds its name, and
-- any other text it leaves.
pub data Extends (service msg text : Bytes) : Type 0 where
  adds_name :
      (names : Bytes)
      → msg ≡ rev_chain_msg_prefix ++ names
      → text ≡ rev_chain_msg_prefix ++ (names ++ codes " " ++ service)
      → Extends service msg text
  passes_on : has_prefix msg rev_chain_msg_prefix ≡ false → text ≡ msg → Extends service msg text

module _ (net : Net) where
  open net use {State, Stream, world}

  -- The next proxy, once a stream to it is open.
  pub record Opened (next : Bytes) (env : Env world) : Type 0 where
    pub id : Bytes
    pub info : ServiceInfo
    pub resolved : Env world
    pub out_stream : Stream
    pub s : State
    pub resolves : resolve_service world next env ≡ some (ok (id, info), resolved)
    pub opens : create_stream net id chain_setup_proto_id resolved.outside ≡ (ok out_stream, s)

  -- From the environment behind the receive. The setup breaks off at the next proxy's name, its stream,
  -- the request to it or its acknowledgement; or the acknowledgement is passed on, whether or not the
  -- send of it works, and the proxy turns to its service. A monitor runs from the stream on.
  pub data Relayed (service endpoint proto next : Bytes) (spec : List Bytes) (stream : Stream)
      (env : Env world) (out : Done net) : Type 0 where
    unresolved :
        (e : Error) (env' : Env world)
        → resolve_service world next env ≡ some (err e, env')
        → out ≡ ([], env')
        → Relayed service endpoint proto next spec stream env out
    unopened :
        (id : Bytes) (info : ServiceInfo) (e : Error) (env' : Env world) (s : State)
        → resolve_service world next env ≡ some (ok (id, info), env')
        → create_stream net id chain_setup_proto_id env'.outside ≡ (err e, s)
        → out ≡ ([], at net env' s)
        → Relayed service endpoint proto next spec stream env out
    unsent :
        (o : Opened next env) (e : Error) (s : State)
        → send_setup_request net o.out_stream spec o.s ≡ (some e, s)
        → out ≡ (conn_qual_monitor o.id o.info stream ∷ [], at net o.resolved s)
        → Relayed service endpoint proto next spec stream env out
    unacknowledged :
        (o : Opened next env) (e : Error) (s s' : State)
        → send_setup_request net o.out_stream spec o.s ≡ (none, s)
        → receive_setup_ack net o.out_stream s ≡ (err e, s')
        → out ≡ (conn_qual_monitor o.id o.info stream ∷ [], at net o.resolved s')
        → Relayed service endpoint proto next spec stream env out
    relays :
        (o : Opened next env) (msg text : Bytes) (s s' : State) (rest : Done net)
        → send_setup_request net o.out_stream spec o.s ≡ (none, s)
        → receive_setup_ack net o.out_stream s ≡ (ok msg, s')
        → Extends service msg text
        → Serves net
            (in_middle net proto stream o.out_stream)
            proto
            endpoint
            o.out_stream
            (at net o.resolved (send_setup_ack net stream text s').1)
            rest
        → out ≡ (conn_qual_monitor o.id o.info stream ∷ rest.0, rest.1)
        → Relayed service endpoint proto next spec stream env out

  module _ (service endpoint proto next : Bytes) (spec : List Bytes) (stream : Stream)
      (env : Env world) where
    -- What the monitor and what comes behind it make together.
    abbrev behind : Opened next env → Done net → Done net
    behind o rest = (conn_qual_monitor o.id o.info stream ∷ rest.0, rest.1)
