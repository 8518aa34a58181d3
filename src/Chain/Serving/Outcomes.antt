-- ===== src/Chain/Serving/Outcomes.antt =====
-- What a proxy has started for its service at the end of a chain and in its middle: the forwarders of
-- l4-proxy/tcp-proxy.go and l4-proxy/udp-proxy.go, or nothing.
use go_code_goes_here.Prelude.{
  ◌≡◌, ◌≢◌, ◌⊎◌, inl, inr, refl, sym, ap, ◌∙◌, subst, arith, Bytes, false, List, [], ◌∷◌, same,
  same_iff, Bool-cases,
}
use go_code_goes_here.World.{Error, Result, Result-cases, ok, err}
use go_code_goes_here.Locate.{Env}
use go_code_goes_here.Chain.Link.{
  Net, Routine, fwd_stream_to_conn, fwd_conn_to_stream, fwd_stream_to_stream,
}
use go_code_goes_here.Chain.Serving.{
  udp, tcp, at, Done, tunnel_proto_id, udp_resolve_and_dial, udp_end_chain_handler,
  tcp_end_chain_handler, udp_mid_chain_handler, tcp_mid_chain_handler, start_end, start_mid,
}

-- The name of a protocol that the proxies forward.
abbrev pub IsKnown : Bytes → Type 0
IsKnown proto = (proto ≡ udp) ⊎ (proto ≡ tcp)

module _ (net : Net) where
  open net use {State, Stream, Conn, world, set_protocol, dial}

  -- The connection to the local service, behind the new protocol of a stream of the chain.
  abbrev pub dialed : Bytes → Bytes → Stream → State → Result Conn × State
  dialed proto endpoint stream s =
      dial proto endpoint (set_protocol stream (tunnel_proto_id net proto) s)

  -- With the connection to the service, some forwarders of the protocol start; without it, or for a
  -- protocol that is not known, none.
  pub data Serves (forwarders : Conn → List (Routine net)) (proto endpoint : Bytes)
      (stream : Stream) (env : Env world) (out : Done net) : Type 0 where
    connected :
        (conn : Conn) (s : State)
        → IsKnown proto
        → dialed proto endpoint stream env.outside ≡ (ok conn, s)
        → out ≡ (forwarders conn, at net env s)
        → Serves forwarders proto endpoint stream env out
    refused :
        (e : Error) (s : State)
        → IsKnown proto
        → dialed proto endpoint stream env.outside ≡ (err e, s)
        → out ≡ ([], at net env s)
        → Serves forwarders proto endpoint stream env out
    unknown :
        proto ≢ udp
        → proto ≢ tcp
        → out ≡ ([], env)
        → Serves forwarders proto endpoint stream env out

  -- At the end of a chain data goes both ways between the stream and the service.
  abbrev pub at_end : Bytes → Stream → Conn → List (Routine net)
  at_end proto stream conn =
      fwd_stream_to_conn proto stream conn ∷ fwd_conn_to_stream proto conn stream ∷ []

  -- In its middle data goes from the proxy before through the service to the one behind, and straight
  -- back.
  abbrev pub in_middle : Bytes → Stream → Stream → Conn → List (Routine net)
  in_middle proto in_stream out_stream conn =
      fwd_stream_to_conn proto in_stream conn
      ∷ fwd_conn_to_stream proto conn out_stream
      ∷ fwd_stream_to_stream out_stream in_stream
      ∷ []

  -- By the result of the connection.
  abbrev by_result : (Conn → List (Routine net)) → Env world → Result Conn × State → Done net
  by_result forwarders env o = elim o.0 [
    | err e ↦ ([], at net env o.1)
    | ok conn ↦ (forwarders conn, at net env o.1)
  ]

  Serves-known :
      (forwarders : Conn → List (Routine net)) (proto endpoint : Bytes) (stream : Stream)
      (env : Env world) (out : Done net)
      → IsKnown proto
      → out ≡ by_result forwarders env (dialed proto endpoint stream env.outside)
      → Serves forwarders proto endpoint stream env out
  Serves-known forwarders proto endpoint stream env out known h =
      let o = dialed proto endpoint stream env.outside in
      elim (Result-cases o.0) [
        | inl (conn, e) ↦
            connected conn o.1 known (ap (λ r. (r, o.1)) e)
              (h ∙ ap (λ r. by_result forwarders env (r, o.1)) e)
        | inr (f, e) ↦
            refused f o.1 known (ap (λ r. (r, o.1)) e)
              (h ∙ ap (λ r. by_result forwarders env (r, o.1)) e)
      ]

  Serves-any :
      (forwarders : Conn → List (Routine net)) (proto endpoint : Bytes) (stream : Stream)
      (env : Env world) (out : Done net)
      → (IsKnown proto → out ≡ by_result forwarders env (dialed proto endpoint stream env.outside))
      → (same proto udp ≡ false → same proto tcp ≡ false → out ≡ ([], env))
      → Serves forwarders proto endpoint stream env out
  Serves-any forwarders proto endpoint stream env out h k =
      let known : IsKnown proto → Serves forwarders proto endpoint stream env out =
        λ known. Serves-known forwarders proto endpoint stream env out known (h known) in
      elim (Bool-cases (same proto udp)) [
        | inl e ↦ known (inl ((same_iff proto udp).0 e))
        | inr e ↦ elim (Bool-cases (same proto tcp)) [
          | inl f ↦ known (inr ((same_iff proto tcp).0 f))
          | inr f ↦
              unknown (λ q. ground (arith, e, same_iff proto udp, q))
                (λ q. ground (arith, f, same_iff proto tcp, q)) (k e f)
        ]
      ]

  start_end-known :
      (proto endpoint : Bytes) (stream : Stream) (env : Env world)
      → IsKnown proto
      → start_end net proto endpoint stream env
        ≡ by_result (at_end proto stream) env (dialed proto endpoint stream env.outside)
  unfolding start_end udp_end_chain_handler tcp_end_chain_handler udp_resolve_and_dial same
  start_end-known proto endpoint stream env (inl e) =
      subst
        (λ p.
          start_end net p endpoint stream env
          ≡ by_result (at_end p stream) env (dialed p endpoint stream env.outside))
        (sym e) (ground (arith, Result-cases (dialed udp endpoint stream env.outside).0))
  start_end-known proto endpoint stream env (inr e) =
      subst
        (λ p.
          start_end net p endpoint stream env
          ≡ by_result (at_end p stream) env (dialed p endpoint stream env.outside))
        (sym e) refl

  pub start_end-Serves :
      (proto endpoint : Bytes) (stream : Stream) (env : Env world)
      → Serves
          (at_end proto stream)
          proto
          endpoint
          stream
          env
          (start_end net proto endpoint stream env)
  unfolding start_end
  start_end-Serves proto endpoint stream env =
      Serves-any (at_end proto stream) proto endpoint stream env _
        (start_end-known proto endpoint stream env) (λ e f. rw (e, f))

  start_mid-known :
      (proto endpoint : Bytes) (in_stream out_stream : Stream) (env : Env world)
      → IsKnown proto
      → start_mid net proto endpoint in_stream out_stream env
        ≡ by_result
            (in_middle proto in_stream out_stream)
            env
            (dialed proto endpoint out_stream env.outside)
  unfolding start_mid udp_mid_chain_handler tcp_mid_chain_handler udp_resolve_and_dial same
  start_mid-known proto endpoint in_stream out_stream env (inl e) =
      subst
        (λ p.
          start_mid net p endpoint in_stream out_stream env
          ≡ by_result (in_middle p in_stream out_stream) env
              (dialed p endpoint out_stream env.outside))
        (sym e) (ground (arith, Result-cases (dialed udp endpoint out_stream env.outside).0))
  start_mid-known proto endpoint in_stream out_stream env (inr e) =
      subst
        (λ p.
          start_mid net p endpoint in_stream out_stream env
          ≡ by_result (in_middle p in_stream out_stream) env
              (dialed p endpoint out_stream env.outside))
        (sym e) refl

  pub start_mid-Serves :
      (proto endpoint : Bytes) (in_stream out_stream : Stream) (env : Env world)
      → Serves
          (in_middle proto in_stream out_stream)
          proto
          endpoint
          out_stream
          env
          (start_mid net proto endpoint in_stream out_stream env)
  unfolding start_mid
  start_mid-Serves proto endpoint in_stream out_stream env =
      Serves-any (in_middle proto in_stream out_stream) proto endpoint out_stream env _
        (start_mid-known proto endpoint in_stream out_stream env) (λ e f. rw (e, f))
