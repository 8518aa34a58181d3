-- ===== src/Chain/Clients/Callback.antt =====
-- What becomes of the streams and of the mutex of udpServiceProxy in l4-proxy/udp-proxy.go.
use go_code_goes_here.Prelude.{
  ◌≡◌, refl, ap, sym, subst, arith, Bytes, Bool, List, [], ◌∷◌, ◌++◌, some, Option-cases,
  Bool-cases, inl, inr, same, AllValues, store, lookup, AllValues-store, AllValues-delete,
  AllValues-lookup,
}
use go_code_goes_here.World.{Result, ok, err}
use go_code_goes_here.Locate.{Env}
use go_code_goes_here.Chain.Link.{create_stream, send_data, Routine}
use go_code_goes_here.Chain.Serving.{at, udp, tunnel_proto_id}
use go_code_goes_here.Chain.Setup.{setup_chain, chain_setup_proto_id}
use go_code_goes_here.Chain.Setup.Opening.{setup_chain-IsOpen}
use go_code_goes_here.Chain.Forward.{Pipes}
use go_code_goes_here.Chain.Clients.{
  Task, of_chains, fwd_to_client, Clients, Served, second_try, first_try, serve_packet,
  on_closed_stream, closed_stream,
}
use go_code_goes_here.Chain.Clients.Sessions.{
  Sessions, packet, failed_read, closing, elsewhere, Reach, begins, steps,
}

module _ (pipes : Pipes) where
  open pipes use {State, Stream, net, world, reset}

  -- A stream that was opened to set up a chain.
  abbrev pub WasOpened : Stream → Type 0
  WasOpened v =
      (id : Bytes) × (s : State) × ((create_stream net id chain_setup_proto_id s).0 ≡ ok v)

  setup_chain-WasOpened :
      (spec : List Bytes) (env : Env world) (stream : Stream) (rs : List (Routine net))
      (env' : Env world)
      → setup_chain net spec env ≡ some (ok stream, rs, env')
      → WasOpened stream
  setup_chain-WasOpened spec env stream rs env' h =
      let o = setup_chain-IsOpen net spec env stream rs env' h in
      (o.id, o.resolved.outside, ap (λ (x : Result Stream × State). x.0) o.opens)

  second_try_keeps :
      (from d : Bytes) (stream : Stream) (started : List (Task pipes)) (clients : Clients pipes)
      (env : Env world)
      → AllValues WasOpened clients
      → AllValues WasOpened (second_try pipes from d stream started clients env).2
  unfolding second_try
  second_try_keeps from d stream started clients env h =
      elim (Option-cases (send_data net stream d env.outside).0) [
        | inl q ↦ rw (second_try, q) h
        | inr (e, q) ↦ rw (second_try, q) (AllValues-delete WasOpened from clients h)
      ]

  first_try_keeps :
      (spec : List Bytes) (from d : Bytes) (stream : Stream) (started : List (Task pipes))
      (clients : Clients pipes) (env : Env world) (out : Served pipes)
      → AllValues WasOpened clients
      → first_try pipes spec from d stream started clients env ≡ some out
      → AllValues WasOpened out.2
  unfolding first_try
  first_try_keeps spec from d stream started clients env out h r =
      let o = send_data net stream d env.outside in
      elim (Option-cases o.0) [
        | inl q ↦ let e : clients ≡ out.2 = ground (arith, q, r) in subst (AllValues WasOpened) e h
        | inr (f, q) ↦ elim (Option-cases (setup_chain net spec (at net env (reset stream o.1)))) [
          | inl n ↦ absurd (ground (arith, q, n, r))
          | inr ((err g, rs, env'), n) ↦
              let e : clients ≡ out.2 = ground (arith, q, n, r) in subst (AllValues WasOpened) e h
          | inr ((ok st, rs, env'), n) ↦
              let tasks = started ++ of_chains pipes rs ++ fwd_to_client st from ∷ [] in
              let e : second_try pipes from d st tasks (store from st clients) env' ≡ out =
                ground (arith, q, n, r) in
              rw (sym e) (
                second_try_keeps from d st tasks (store from st clients) env' (
                  AllValues-store WasOpened from st clients
                    (setup_chain-WasOpened spec _ st rs env' n) h))
        ]
      ]

  serve_packet_keeps :
      (spec : List Bytes) (from d : Bytes) (clients : Clients pipes) (env : Env world)
      (out : Served pipes)
      → AllValues WasOpened clients
      → serve_packet pipes spec from d clients env ≡ some out
      → AllValues WasOpened out.2
  unfolding serve_packet
  serve_packet_keeps spec from d clients env out h r = elim (Option-cases (lookup from clients)) [
    | inr (stream, q) ↦
        first_try_keeps spec from d stream [] clients env out h (rw (q, serve_packet) at r)
    | inl q ↦ elim (Option-cases (setup_chain net spec env)) [
      | inl n ↦ absurd (ground (arith, q, n, r))
      | inr ((err g, rs, env'), n) ↦
          let e : clients ≡ out.2 = ground (arith, q, n, r) in subst (AllValues WasOpened) e h
      | inr ((ok st, rs, env'), n) ↦
          first_try_keeps spec from d st (of_chains pipes rs ++ fwd_to_client st from ∷ [])
            (store from st clients) env' out
            (AllValues-store WasOpened from st clients (setup_chain-WasOpened spec env st rs env' n)
              h)
            (rw (q, n, serve_packet) at r)
    ]
  ]

  closed_stream_keeps :
      (is_it : Stream → Bool) (clients : Clients pipes)
      → AllValues WasOpened clients
      → AllValues WasOpened (closed_stream pipes is_it clients)
  unfolding closed_stream
  closed_stream_keeps is_it [] h = tt
  closed_stream_keeps is_it ((k, v) ∷ rest) h = elim (Bool-cases (is_it v)) [
    | inl e ↦ rw (closed_stream, e) h.1
    | inr e ↦ rw (closed_stream, e) (h.0, closed_stream_keeps is_it rest h.1)
  ]

  on_closed_stream_keeps :
      (protocol : Bytes) (is_it : Stream → Bool) (clients : Clients pipes)
      → AllValues WasOpened clients
      → AllValues WasOpened (on_closed_stream pipes protocol is_it clients)
  unfolding on_closed_stream
  on_closed_stream_keeps protocol is_it clients h =
      elim (Bool-cases (same protocol (tunnel_proto_id net udp))) [
        | inl e ↦ rw (on_closed_stream, e) (closed_stream_keeps is_it clients h)
        | inr e ↦ rw (on_closed_stream, e) h
      ]

  -- Every stream of the map was opened to set up a chain.
  Reach-WasOpened :
      {spec : List Bytes} {env : Env world} {u : Sessions pipes}
      → Reach pipes spec env u
      → AllValues WasOpened u.clients
  Reach-WasOpened begins = tt
  Reach-WasOpened (steps r (packet from d g l h)) =
      serve_packet_keeps _ from d _ _ _ (Reach-WasOpened r) h
  Reach-WasOpened (steps r (failed_read g)) = Reach-WasOpened r
  Reach-WasOpened (steps r (closing protocol is_it l)) =
      on_closed_stream_keeps protocol is_it _ (Reach-WasOpened r)
  Reach-WasOpened (steps r (elsewhere env')) = Reach-WasOpened r

  -- Where a stream keeps the protocol that it was opened with, the callback removes no client when the
  -- stream of a client closes: the protocol is that of chain setup, and not that of the tunnel.
  pub closed_client_stays :
      (protocol_of : Stream → Bytes) {spec : List Bytes} {env : Env world} {u : Sessions pipes}
      (from : Bytes) (stream : Stream) (is_it : Stream → Bool)
      → ((id : Bytes) (s : State) (v : Stream)
          → (create_stream net id chain_setup_proto_id s).0 ≡ ok v
          → protocol_of v ≡ chain_setup_proto_id)
      → Reach pipes spec env u
      → lookup from u.clients ≡ some stream
      → on_closed_stream pipes (protocol_of stream) is_it u.clients ≡ u.clients
  unfolding on_closed_stream same
  closed_client_stays protocol_of from stream is_it keeps r h =
      let (id, s, e) = AllValues-lookup WasOpened from stream _ (Reach-WasOpened r) h in
      let p = keeps id s stream e in rw (on_closed_stream, p) refl
