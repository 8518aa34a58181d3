-- ===== src/Chain/Clients/Mutex.antt =====
-- The mutex of udpServiceProxy in l4-proxy/udp-proxy.go: when it is free, and when it never is again.
use go_code_goes_here.Prelude.{
  ◌≡◌, refl, ap, sym, arith, Bytes, true, false, List, some, none, inl, inr, ◌⊎◌, lookup,
}
use go_code_goes_here.World.{Error, err}
use go_code_goes_here.Locate.{Env}
use go_code_goes_here.Chain.Link.{Routine}
use go_code_goes_here.Chain.Setup.{setup_chain}
use go_code_goes_here.Chain.Forward.{Pipes}
use go_code_goes_here.Chain.Clients.{
  Turn, goes_on, returned, Clients, Served, of_chains, serve_packet,
}
use go_code_goes_here.Chain.Clients.Sessions.{
  locks, ends, Sessions, behind, Step, packet, failed_read, closing, elsewhere, Reach, begins,
  steps,
}

locked_ends : (t : Turn) → (locks t ≡ false) ⊎ (ends t ≡ true)
locked_ends goes_on = inl refl
locked_ends (returned locked) = inr refl

module _ (pipes : Pipes) where
  open pipes use {net, world}

  -- As long as udpServiceProxy has not returned, the mutex is free between the rounds of its loop.
  pub Reach-mutex :
      {spec : List Bytes} {env : Env world} {u : Sessions pipes}
      → Reach pipes spec env u
      → (u.locked ≡ false) ⊎ (u.over ≡ true)
  Reach-mutex begins = inl refl
  Reach-mutex (steps r (packet {out} from d g l h)) = locked_ends out.0
  Reach-mutex (steps r (failed_read g)) = inr refl
  Reach-mutex (steps r (closing protocol is_it l)) = inl l
  Reach-mutex (steps r (elsewhere env')) = Reach-mutex r

  -- Any number of steps.
  pub data Steps (spec : List Bytes) (u : Sessions pipes) : Sessions pipes → Type 0 where
    stay : Steps spec u u
    go : {v w : Sessions pipes} → Steps spec u v → Step pipes spec v w → Steps spec u w

  -- What nothing but the caches and the world changes any more.
  abbrev pub IsStuck : Clients pipes → Sessions pipes → Type 0
  IsStuck clients v = (v.locked ≡ true) × (v.over ≡ true) × (v.clients ≡ clients)

  Step-IsStuck :
      {spec : List Bytes} {clients : Clients pipes} {v w : Sessions pipes}
      → IsStuck clients v
      → Step pipes spec v w
      → IsStuck clients w
  Step-IsStuck (l, o, c) (packet from d g l' h) = absurd (ground (arith, l, l'))
  Step-IsStuck (l, o, c) (failed_read g) = absurd (ground (arith, o, g))
  Step-IsStuck (l, o, c) (closing protocol is_it l') = absurd (ground (arith, l, l'))
  Step-IsStuck (l, o, c) (elsewhere env') = (l, o, c)

  Steps-IsStuck :
      {spec : List Bytes} {clients : Clients pipes} {v w : Sessions pipes}
      → IsStuck clients v
      → Steps spec v w
      → IsStuck clients w
  Steps-IsStuck i stay = i
  Steps-IsStuck i (go r s) = Step-IsStuck (Steps-IsStuck i r) s

  -- When no chain can be set up for a packet of a new client, udpServiceProxy returns with the mutex
  -- locked, and whatever happens then, it stays locked, and the callback for closed streams never
  -- changes the map.
  pub failed_setup_locks :
      (spec : List Bytes) (from d : Bytes) (u w : Sessions pipes) (e : Error)
      (rs : List (Routine net)) (env' : Env world) (out : Served pipes)
      → lookup from u.clients ≡ none
      → setup_chain net spec u.env ≡ some (err e, rs, env')
      → serve_packet pipes spec from d u.clients u.env ≡ some out
      → Steps spec (behind pipes out) w
      → IsStuck u.clients w
  unfolding serve_packet
  failed_setup_locks spec from d u w e rs env' out h k r after =
      let q : (returned true, of_chains pipes rs, u.clients, env') ≡ out =
        ground (arith, h, k, r) in
      Steps-IsStuck
        (
          ap (λ (o : Served pipes). locks o.0) (sym q),
          ap (λ (o : Served pipes). ends o.0) (sym q),
          ap (λ (o : Served pipes). o.2) (sym q),
        )
        after
