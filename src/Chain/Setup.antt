-- ===== src/Chain/Setup.antt =====
-- setupChain and chainSetupHandler of l4-proxy/chain-setup.go.
pub mod Route
pub mod Opening
pub mod Handler
pub mod Relay
pub mod Ending
pub mod Relaying
pub mod Backward
use go_code_goes_here.Prelude.{
  ℕ, Bytes, codes, Bool, true, false, ◌||◌, List, [], ◌∷◌, ◌++◌, Option, none, some, same,
  has_prefix, if◌then◌else◌,
}
use go_code_goes_here.World.{
  World, ServiceInfo, Error, Result, ok, err, wrapped, chain_too_short, unknown_protocol,
}
use go_code_goes_here.Locate.{Env, resolve_service}
use go_code_goes_here.Chain.Serving.{is_protocol, at, Done, start_end, start_mid}
use go_code_goes_here.Chain.Link.{
  Net, Routine, conn_qual_monitor, fwd_stream_to_conn, fwd_conn_to_stream, fwd_stream_to_stream,
  create_stream, send_setup_request, send_setup_ack, receive_setup_request, receive_setup_ack,
}

abbrev pub chain_setup_proto_id : Bytes
chain_setup_proto_id = codes "/ChainSetup/1.0"

abbrev pub rev_chain_msg_prefix : Bytes
rev_chain_msg_prefix = codes "Reverse chain: "

-- The variables of the loop that looks for this proxy's service in the chain.
pub record Scan : Type 0 where
  pub tp_proto : Bytes
  pub tp_proto_this : Bytes
  pub next_serv : Bytes
  pub found_me : Bool

abbrev pub scan_start : Scan
scan_start = record { tp_proto = []; tp_proto_this = []; next_serv = []; found_me = false }

-- The loop over the tokens.
unfoldable pub scan : Bytes → List Bytes → Scan → Scan
scan service [] v = v
scan service (token ∷ rest) v = elim (is_protocol token) [
  | true ↦ scan service rest (record v { tp_proto = token })
  | false ↦ elim (same token service) [
    | true ↦ scan service rest (record v { found_me = true; tp_proto_this = v.tp_proto })
    | false ↦ elim v.found_me [
      | true ↦ record v { next_serv = token }
      | false ↦ scan service rest v
    ]
  ]
]

-- What a proxy in the middle of a chain makes of the acknowledgement from downstream.
unfoldable pub relay : Bytes → Bytes → Bytes
relay service res_msg =
    if has_prefix res_msg rev_chain_msg_prefix then res_msg ++ codes " " ++ service else res_msg

module _ (net : Net) where
  open net use {Stream, world}

  -- setupChain behind the opened stream; the result of the send is dropped.
  unfoldable pub await_chain :
      List Bytes
      → Bytes
      → ServiceInfo
      → Stream
      → Env world
      → Result Stream × List (Routine net) × Env world
  await_chain spec id info stream env =
      let (e, s1) = send_setup_request net stream spec env.outside in
      let (r, s2) = receive_setup_ack net stream s1 in
      let started = conn_qual_monitor id info stream ∷ [] in
      elim r [
        | err e ↦ (err (wrapped e), started, at net env s2)
        | ok text ↦ (ok stream, started, at net env s2)
      ]

  -- setupChain behind the check of the protocol.
  unfoldable pub setup_chain_to :
      List Bytes → Bytes → Env world → Option (Result Stream × List (Routine net) × Env world)
  setup_chain_to spec serv_name env = elim (resolve_service world serv_name env) [
    | none ↦ none
    | some (r, env') ↦ elim r [
      | err e ↦ some (err (wrapped e), [], env')
      | ok (id, info) ↦
          let (opened, s) = create_stream net id chain_setup_proto_id env'.outside in
          elim opened [
            | err e ↦ some (err (wrapped e), [], at net env' s)
            | ok stream ↦ some (await_chain spec id info stream (at net env' s))
          ]
    ]
  ]

  -- setupChain
  unfoldable pub setup_chain :
      List Bytes → Env world → Option (Result Stream × List (Routine net) × Env world)
  setup_chain [] env = some (err chain_too_short, [], env)
  setup_chain (tp_proto ∷ []) env = some (err chain_too_short, [], env)
  setup_chain (tp_proto ∷ serv_name ∷ rest) env = elim (is_protocol tp_proto) [
    | false ↦ some (err unknown_protocol, [], env)
    | true ↦ setup_chain_to (tp_proto ∷ serv_name ∷ rest) serv_name env
  ]

  -- The branch of chainSetupHandler for the last service of the chain.
  unfoldable pub finish_chain : Bytes → Bytes → Bytes → Stream → Env world → Done net
  finish_chain service endpoint proto stream env =
      let (e, s) = send_setup_ack net stream (rev_chain_msg_prefix ++ service) env.outside in
      elim e [
        | some e ↦ ([], at net env s)
        | none ↦ start_end net proto endpoint stream (at net env s)
      ]

  -- The exchange with the next proxy once its stream is open; the result of the acknowledgement is
  -- dropped.
  unfoldable pub forward_setup :
      Bytes → Bytes → Bytes → List Bytes → Stream → Stream → Env world → Done net
  forward_setup service endpoint proto spec stream out_stream env =
      let (e, s1) = send_setup_request net out_stream spec env.outside in
      let (r, s2) = receive_setup_ack net out_stream s1 in
      elim e [
        | some e ↦ ([], at net env s1)
        | none ↦ elim r [
          | err e ↦ ([], at net env s2)
          | ok res_msg ↦
              let (e, s3) = send_setup_ack net stream (relay service res_msg) s2 in
              start_mid net proto endpoint stream out_stream (at net env s3)
        ]
      ]

  -- The branch of chainSetupHandler for a service in the middle. The monitor is started on the input
  -- stream.
  unfoldable pub extend_chain :
      Bytes → Bytes → Bytes → Bytes → List Bytes → Stream → Env world → Option (Done net)
  extend_chain service endpoint proto next_serv spec stream env =
      elim (resolve_service world next_serv env) [
        | none ↦ none
        | some (r, env') ↦ elim r [
          | err e ↦ some ([], env')
          | ok (id, info) ↦
              let (opened, s) = create_stream net id chain_setup_proto_id env'.outside in
              elim opened [
                | err e ↦ some ([], at net env' s)
                | ok out_stream ↦
                    let (started, env'') =
                      forward_setup service endpoint proto spec stream out_stream (at net env' s) in
                    some (conn_qual_monitor id info stream ∷ started, env'')
              ]
        ]
      ]

  -- What chainSetupHandler does with a chain that it has received.
  unfoldable pub take_place : Bytes → Bytes → List Bytes → Stream → Env world → Option (Done net)
  take_place service endpoint spec stream env =
      let v = scan service spec scan_start in
      elim v.found_me [
        | false ↦ some ([], env)
        | true ↦ elim v.next_serv [
          | [] ↦ some (finish_chain service endpoint v.tp_proto_this stream env)
          | c ∷ cs ↦ extend_chain service endpoint v.tp_proto_this v.next_serv spec stream env
        ]
      ]

  -- chainSetupHandler of a proxy for a service at an endpoint.
  unfoldable pub chain_setup_handler : Bytes → Bytes → Stream → Env world → Option (Done net)
  chain_setup_handler service endpoint stream env =
      let (r, s) = receive_setup_request net stream env.outside in
      elim r [
        | err e ↦ some ([], at net env s)
        | ok spec ↦ take_place service endpoint spec stream (at net env s)
      ]
