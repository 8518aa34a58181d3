-- ===== src/Chain/Accept/Forwarding.antt =====
-- What tcpServiceProxy and tcpFwdConnToServ of l4-proxy/tcp-proxy.go start for each connection.
use go_code_goes_here.Prelude.{
  ℕ, zero, suc, ◌≡◌, refl, arith, Bytes, List, [], ◌∷◌, ◌++◌, some, inl, inr, ◌⊎◌,
}
use go_code_goes_here.World.{Result, ok, err, Error}
use go_code_goes_here.Locate.{Env}
use go_code_goes_here.Locate.Returns.{IsBounded}
use go_code_goes_here.Chain.Link.{Net, Routine, fwd_conn_to_stream, fwd_stream_to_conn}
use go_code_goes_here.Chain.Serving.{tcp}
use go_code_goes_here.Chain.Setup.{setup_chain}
use go_code_goes_here.Chain.Setup.Opening.{IsOpen, setup_chain-IsOpen, setup_chain_returns}
use go_code_goes_here.Chain.Accept.{
  Accepted, accepted, invalid, failed, Listener, tcp_fwd_conn_to_serv, tcp_service_proxy,
}

module _ (net : Net) where
  open net use {Stream, Conn, world}

  -- The two ways in which tcpFwdConnToServ ends: forwarders in both directions between the connection and
  -- the stream of a chain that is open; or no forwarder, where no chain could be set up.
  pub data Forwarded (conn : Conn) (spec : List Bytes) (env : Env world)
      (out : List (Routine net) × Env world) : Type 0 where
    both_ways :
        (stream : Stream) (started : List (Routine net))
        → IsOpen net spec env stream started
        → out.0
          ≡ started ++ fwd_conn_to_stream tcp conn stream ∷ fwd_stream_to_conn tcp stream conn ∷ []
        → Forwarded conn spec env out
    no_chain :
        (e : Error) (started : List (Routine net)) (env' : Env world)
        → setup_chain net spec env ≡ some (err e, started, env')
        → out ≡ (started, env')
        → Forwarded conn spec env out

  behind_setup :
      (conn : Conn) (spec : List Bytes) (env env' : Env world) (r : Result Stream)
      (rs : List (Routine net))
      → setup_chain net spec env ≡ some (r, rs, env')
      → (out : List (Routine net) × Env world) × (tcp_fwd_conn_to_serv net conn spec env ≡ some out)
        × Forwarded conn spec env out
  unfolding tcp_fwd_conn_to_serv
  behind_setup conn spec env env' (err e) rs q =
      ((rs, env'), rw (tcp_fwd_conn_to_serv, q) refl, no_chain e rs env' q refl)
  behind_setup conn spec env env' (ok stream) rs q = (
    (rs ++ fwd_conn_to_stream tcp conn stream ∷ fwd_stream_to_conn tcp stream conn ∷ [], env'),
    rw (tcp_fwd_conn_to_serv, q) refl,
    both_ways stream rs (setup_chain-IsOpen net spec env stream rs env' q) refl,
  )

  -- Where the backoff is bounded, tcpFwdConnToServ returns. Either a chain is open from its stream on,
  -- and data is forwarded both ways between that stream and the connection, or no chain could be set up,
  -- and nothing is forwarded.
  pub tcp_fwd_conn_to_serv-Forwarded :
      (conn : Conn) (spec : List Bytes) (env : Env world)
      → IsBounded world
      → (out : List (Routine net) × Env world) × (tcp_fwd_conn_to_serv net conn spec env ≡ some out)
        × Forwarded conn spec env out
  tcp_fwd_conn_to_serv-Forwarded conn spec env bounded =
      let ((r, rs, env'), q) = setup_chain_returns net spec env bounded in
      behind_setup conn spec env env' r rs q

module _ (listener : Listener) where
  open listener use {State, Conn, Listen, accept, close_listen}

  -- What the listener answers in some rounds, up to EINVAL.
  abbrev pub answers : ℕ → Listen → State → List (Accepted Conn)
  answers zero listen s = []
  answers (suc n) listen s = (accept listen s).0 ∷ answers n listen (accept listen s).1

  -- The connections that are served, by the answers alone.
  abbrev pub served : List (Accepted Conn) → List Conn
  served [] = []
  served (accepted conn ∷ rest) = conn ∷ served rest
  served (invalid ∷ rest) = []
  served (failed ∷ rest) = served rest

  Accepted-cases :
      (a : Accepted Conn) → ((conn : Conn) × (a ≡ accepted conn)) ⊎ (a ≡ invalid) ⊎ (a ≡ failed)
  Accepted-cases (accepted conn) = inl (conn, refl)
  Accepted-cases invalid = inr (inl refl)
  Accepted-cases failed = inr (inr refl)

  -- tcpServiceProxy starts a forwarder for each connection that it accepts, in their order, until the
  -- listener is closed; another error of Accept costs no connection.
  pub tcp_service_proxy_serves :
      (n : ℕ) (listen : Listen) (s : State)
      → (tcp_service_proxy listener n listen s).1 ≡ served (answers n listen s)
  unfolding tcp_service_proxy
  tcp_service_proxy_serves zero listen s = refl
  tcp_service_proxy_serves (suc n) listen s = ground (
    arith,
    tcp_service_proxy_serves n listen (accept listen s).1,
    Accepted-cases (accept listen s).0,
  )
