-- ===== src/Chain/Setup/Opening.antt =====
-- What setupChain of l4-proxy/chain-setup.go has done when it returns a stream, and that setting up a
-- chain ends.
use go_code_goes_here.Prelude.{
  ◌≡◌, refl, sym, arith, Bytes, true, Bool-cases, inl, inr, List, [], ◌∷◌, some, Option-cases,
}
use go_code_goes_here.World.{ServiceInfo, Result, Result-cases, ok, err, wrapped}
use go_code_goes_here.Locate.{Env, resolve_service}
use go_code_goes_here.Locate.Returns.{IsBounded, resolve_service_returns}
use go_code_goes_here.Chain.Link.{
  create_stream, Net, Routine, conn_qual_monitor, send_setup_request, receive_setup_ack,
}
use go_code_goes_here.Chain.Serving.{is_protocol, at}
use go_code_goes_here.Chain.Setup.{chain_setup_proto_id, await_chain, setup_chain_to, setup_chain}

module _ (net : Net) where
  open net use {State, Stream, world}

  -- A chain that is set up: it starts with a protocol and a service, the service was resolved to a peer,
  -- the stream goes to that peer, is monitored, and was sent the chain and then acknowledged it.
  pub record IsOpen (spec : List Bytes) (env : Env world) (stream : Stream)
      (started : List (Routine net)) : Type 0 where
    pub tp_proto : Bytes
    pub serv_name : Bytes
    pub rest : List Bytes
    pub id : Bytes
    pub info : ServiceInfo
    pub resolved : Env world
    pub s : State
    pub text : Bytes
    pub names_service : spec ≡ tp_proto ∷ serv_name ∷ rest
    pub known_protocol : is_protocol tp_proto ≡ true
    pub resolves : resolve_service world serv_name env ≡ some (ok (id, info), resolved)
    pub opens : create_stream net id chain_setup_proto_id resolved.outside ≡ (ok stream, s)
    pub monitored : started ≡ conn_qual_monitor id info stream ∷ []
    pub acknowledges :
        (receive_setup_ack net stream (send_setup_request net stream spec s).1).0 ≡ ok text

  opened :
      (p serv_name : Bytes) (rest : List Bytes) (env : Env world) (stream : Stream)
      (started : List (Routine net)) (env' : Env world) (id : Bytes) (info : ServiceInfo)
      (env1 : Env world)
      → is_protocol p ≡ true
      → resolve_service world serv_name env ≡ some (ok (id, info), env1)
      → (o : Result Stream × State) → create_stream net id chain_setup_proto_id env1.outside ≡ o
      → elim o.0 [
        | err e ↦ some (err (wrapped e), [], at net env1 o.1)
        | ok st ↦ some (await_chain net (p ∷ serv_name ∷ rest) id info st (at net env1 o.1))
      ]
        ≡ some (ok stream, started, env')
      → IsOpen (p ∷ serv_name ∷ rest) env stream started
  unfolding await_chain
  opened p serv_name rest env stream started env' id info env1 e q (err f, s) o h =
      absurd (ground (arith, h))
  opened p serv_name rest env stream started env' id info env1 e q (ok st, s) o h =
      let spec = p ∷ serv_name ∷ rest in
      elim (Result-cases (receive_setup_ack net st (send_setup_request net st spec s).1).0) [
        | inr (f, k) ↦ absurd (ground (arith, k, h))
        | inl (text, k) ↦
            let same_stream : st ≡ stream = ground (arith, k, h) in
            let same_started : conn_qual_monitor id info st ∷ [] ≡ started = ground (arith, k, h) in
            record {
              tp_proto = p;
              serv_name = serv_name;
              rest = rest;
              id = id;
              info = info;
              resolved = env1;
              s = s;
              text = text;
              names_service = refl;
              known_protocol = e;
              resolves = q;
              opens = rw (sym same_stream) o;
              monitored = rw (sym same_stream) (sym same_started);
              acknowledges = rw (sym same_stream) k;
            }
      ]

  -- When setupChain returns a stream, the chain starts with a protocol and a service, the service
  -- was resolved to a peer, the stream was opened to that peer, one monitor was started for it and
  -- nothing else, and after the chain was sent over the stream an acknowledgement came back.
  pub setup_chain-IsOpen :
      (spec : List Bytes) (env : Env world) (stream : Stream) (started : List (Routine net))
      (env' : Env world)
      → setup_chain net spec env ≡ some (ok stream, started, env')
      → IsOpen spec env stream started
  unfolding setup_chain setup_chain_to await_chain
  setup_chain-IsOpen [] env stream started env' h = absurd (ground (arith, h))
  setup_chain-IsOpen (p ∷ []) env stream started env' h = absurd (ground (arith, h))
  setup_chain-IsOpen (p ∷ serv_name ∷ rest) env stream started env' h =
      elim (Bool-cases (is_protocol p)) [
        | inr e ↦ absurd (ground (arith, e, h))
        | inl e ↦ elim (Option-cases (resolve_service world serv_name env)) [
          | inl n ↦ absurd (ground (arith, e, n, h))
          | inr ((err f, env1), q) ↦ absurd (ground (arith, e, q, h))
          | inr ((ok (id, info), env1), q) ↦
              opened p serv_name rest env stream started env' id info env1 e q
                (create_stream net id chain_setup_proto_id env1.outside) refl
                (rw (e, q, setup_chain, setup_chain_to) at h)
        ]
      ]

  -- Where the backoff lets at most as many attempts pass as it is told, setupChain returns.
  pub setup_chain_returns :
      (spec : List Bytes) (env : Env world)
      → IsBounded world
      → (out : Result Stream × List (Routine net) × Env world) × (setup_chain net spec env
          ≡ some out)
  unfolding setup_chain setup_chain_to
  setup_chain_returns [] env bounded = (_, refl)
  setup_chain_returns (p ∷ []) env bounded = (_, refl)
  setup_chain_returns (p ∷ serv_name ∷ rest) env bounded =
      let ((r, env1), q) = resolve_service_returns world serv_name env bounded in
      elim (Option-cases (setup_chain net (p ∷ serv_name ∷ rest) env)) [
        | inr (out, e) ↦ (out, e)
        | inl n ↦ absurd (ground (arith, n, q, Bool-cases (is_protocol p), Result-cases r))
      ]
