-- ===== src/Chain/Accept.antt =====
-- tcpServiceProxy and tcpFwdConnToServ of l4-proxy/tcp-proxy.go: a chain for every connection that a
-- local listener accepts.
pub mod Forwarding
use go_code_goes_here.Prelude.{
  ℕ, zero, suc, Bytes, Bool, true, false, List, [], ◌∷◌, ◌++◌, Option, none, some,
}
use go_code_goes_here.World.{World, Error, Result, ok, err}
use go_code_goes_here.Locate.{Env}
use go_code_goes_here.Chain.Link.{Net, Routine, fwd_conn_to_stream, fwd_stream_to_conn}
use go_code_goes_here.Chain.Serving.{tcp}
use go_code_goes_here.Chain.Setup.{setup_chain}

-- What Accept of a listener answers: a connection, EINVAL, or another error.
pub data Accepted (Conn : Type 0) : Type 0 where
  accepted : Conn → Accepted Conn
  invalid failed : Accepted Conn

-- net.Listener
pub record Listener : Type 1 where
  pub net : Net
  pub open net use *
  pub Listen : Type 0
  pub accept : Listen → State → Accepted Conn × State
  pub close_listen : Listen → State → State

module _ (net : Net) where
  open net use {State, Stream, Conn, world}

  -- tcpFwdConnToServ: the goroutines that it has started, those of setupChain first.
  unfoldable pub tcp_fwd_conn_to_serv :
      Conn → List Bytes → Env world → Option (List (Routine net) × Env world)
  tcp_fwd_conn_to_serv conn spec env = elim (setup_chain net spec env) [
    | none ↦ none
    | some (r, rs, env') ↦ elim r [
      | err e ↦ some (rs, env')
      | ok stream ↦
          some (
            rs ++ fwd_conn_to_stream tcp conn stream ∷ fwd_stream_to_conn tcp stream conn ∷ [],
            env',
          )
    ]
  ]

module _ (listener : Listener) where
  open listener use {State, Conn, Listen, accept, close_listen}

  -- The loop of tcpServiceProxy, for a number of rounds: whether it has ended, and the connections that a
  -- goroutine of tcpFwdConnToServ was started for. Other errors than EINVAL are skipped.
  unfoldable pub tcp_service_proxy : ℕ → Listen → State → Bool × List Conn × State
  tcp_service_proxy zero listen s = (false, [], s)
  tcp_service_proxy (suc n) listen s =
      let (a, s') = accept listen s in
      let (over, conns, s'') = tcp_service_proxy n listen s' in
      elim a [
        | accepted conn ↦ (over, conn ∷ conns, s'')
        | invalid ↦ (true, [], close_listen listen s')
        | failed ↦ (over, conns, s'')
      ]
