-- ===== src/Chain/Monitor.antt =====
-- connQualMonitor of l4-proxy/chain-setup.go: a goroutine that pings a peer once a second.
use go_code_goes_here.Prelude.{
  ℕ, zero, suc, ◌+◌, ◌<◌, ◌≡◌, ◌≢◌, refl, subst, arith, Bytes, Bool, true, false, List, ◌||◌, ◌==◌,
  ◌⊎◌, Bool-cases, inl, inr,
}
use go_code_goes_here.World.{ServiceInfo}
use go_code_goes_here.Rcache.{second}
use go_code_goes_here.Pcache.{RPeerInfo, PeerCache, remove_peer}
use go_code_goes_here.Pcache.Shape.{cache}
use go_code_goes_here.Pcache.Removal.{Removes, remove_peer-Removes}
use go_code_goes_here.Chain.Link.{Net}

module _ (net : Net) where
  open net use {State, Stream, ping, less_than, new_ticker, await_tick, close_conn}

  -- Whether a round-trip time ends the connection.
  unfoldable pub is_too_slow : ServiceInfo → ℕ → Bool
  is_too_slow info rtt = rtt == 0 || less_than info.network_hard_req (record { rtt = rtt })

  -- The loop, for a number of rounds: whether it has ended, the peer cache and the world.
  unfoldable pub conn_qual_monitor_rounds :
      ℕ → Bytes → ServiceInfo → Stream → PeerCache → State → Bool × PeerCache × State
  conn_qual_monitor_rounds zero pid info stream cache s = (false, cache, s)
  conn_qual_monitor_rounds (suc n) pid info stream cache s =
      let (ticker, s1) = new_ticker second s in
      let (rtt, s2) = ping pid info.network_hard_req.rtt s1 in
      elim (is_too_slow info rtt) [
        | true ↦ (true, remove_peer pid cache, close_conn stream s2)
        | false ↦ conn_qual_monitor_rounds n pid info stream cache (await_tick ticker s2)
      ]

  -- A round-trip time that meets the hard requirement of a service, and one that misses it: no answer
  -- is a time of 0.
  abbrev pub Meets : ServiceInfo → ℕ → Type 0
  Meets info rtt = (rtt ≢ 0) × (less_than info.network_hard_req (record { rtt = rtt }) ≡ false)

  abbrev pub Misses : ServiceInfo → ℕ → Type 0
  Misses info rtt = (rtt ≡ 0) ⊎ (less_than info.network_hard_req (record { rtt = rtt }) ≡ true)

  -- The ping of a round that begins in a state.
  abbrev pub pinged : Bytes → ServiceInfo → State → ℕ × State
  pinged pid info s = ping pid info.network_hard_req.rtt (new_ticker second s).1

  -- The state in which a monitor begins its next round, after a number of rounds in which the ping met
  -- the hard requirement.
  pub data Goes (pid : Bytes) (info : ServiceInfo) (s : State) : ℕ → State → Type 0 where
    begins : Goes pid info s 0 s
    waits :
        {k : ℕ} {t : State}
        → Goes pid info s k t
        → Meets info (pinged pid info t).0
        → Goes pid info s (suc k) (await_tick (new_ticker second t).0 (pinged pid info t).1)

  -- A monitor that goes on after a number of rounds, and one that has ended in one of them.
  pub data Watched (pid : Bytes) (info : ServiceInfo) (stream : Stream) (a b c : List RPeerInfo)
      (n : ℕ) (s : State) (out : Bool × PeerCache × State) : Type 0 where
    goes_on :
        Goes pid info s n out.2
        → out.0 ≡ false
        → out.1 ≡ cache a b c
        → Watched pid info stream a b c n s out
    ended :
        (k : ℕ) (t : State)
        → k < n
        → Goes pid info s k t
        → Misses info (pinged pid info t).0
        → out.0 ≡ true
        → Removes pid a b c out.1
        → out.2 ≡ close_conn stream (pinged pid info t).1
        → Watched pid info stream a b c n s out

  Meets-if : (info : ServiceInfo) (rtt : ℕ) → is_too_slow info rtt ≡ false → Meets info rtt
  unfolding is_too_slow
  Meets-if info rtt e = (λ z. ground (arith, e, z), ground (arith, e))

  Misses-if : (info : ServiceInfo) (rtt : ℕ) → is_too_slow info rtt ≡ true → Misses info rtt
  unfolding is_too_slow
  Misses-if info rtt e = elim (Bool-cases (rtt == 0)) [
    | inl z ↦ inl (ground (arith, z))
    | inr z ↦ inr (ground (arith, e, z))
  ]

  module _ (pid : Bytes) (info : ServiceInfo) (stream : Stream) (a b c : List RPeerInfo) where
    Watched-from :
        (left k n : ℕ) (s t : State)
        → k + left ≡ n
        → Goes pid info s k t
        → Watched pid info stream a b c n s
            (conn_qual_monitor_rounds left pid info stream (cache a b c) t)
    unfolding conn_qual_monitor_rounds
    Watched-from zero k n s t h g =
        let whole : k ≡ n = omega arith in
        goes_on (subst (λ j. Goes pid info s j t) whole g) refl refl
    Watched-from (suc left) k n s t h g =
        let (rtt, t') = pinged pid info t in
        elim (Bool-cases (is_too_slow info rtt)) [
          | inl e ↦
              rw (e, conn_qual_monitor_rounds)
                (ended k t (omega arith) g (Misses-if info rtt e) refl
                  (remove_peer-Removes pid a b c) refl)
          | inr e ↦
              rw (e, conn_qual_monitor_rounds)
                (Watched-from left (suc k) n s _ (omega arith) (waits g (Meets-if info rtt e)))
        ]

    -- On a cache of three levels: after a number of rounds the monitor goes on, and has left the cache
    -- as it was, if every ping was answered within the hard requirement of the service. Otherwise it has
    -- ended in the round of the first ping that was not: it has removed the peer as RemovePeer does, at
    -- most one entry of it, and closed the connection.
    pub conn_qual_monitor_rounds-Watched :
        (n : ℕ) (s : State)
        → Watched pid info stream a b c n s
            (conn_qual_monitor_rounds n pid info stream (cache a b c) s)
    conn_qual_monitor_rounds-Watched n s = Watched-from n 0 n s s (omega arith) begins
