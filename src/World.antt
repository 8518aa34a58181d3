-- ===== src/World.antt =====
-- What the program takes from outside its repository, as one record of operations on an abstract
-- state: the clock, pings, the registry service, peer discovery, streams. The operations may answer
-- anything; a property that relies on more states it as a hypothesis.
--
-- The records are those of PhysarumSM/common and service-registry, with the fields that the program
-- uses. A duration or a time is a number of nanoseconds.
pub mod Toy
use go_code_goes_here.Prelude.{ℕ, ◌≡◌, refl, ◌⊎◌, inl, inr, Bool, Bytes, Option, List}

-- p2putil.PerfInd
pub record PerfInd : Type 0 where
  pub rtt : ℕ

-- p2putil.PeerInfo
pub record PeerInfo : Type 0 where
  pub id : Bytes
  pub serv_name : Bytes
  pub serv_hash : Bytes
  pub perf : PerfInd

-- registry.ServiceInfo
pub record ServiceInfo : Type 0 where
  pub content_hash : Bytes
  pub docker_hash : Bytes
  pub network_soft_req : PerfInd
  pub network_hard_req : PerfInd

-- Go's zero value of PerfInd, which `p2putil.PerfInd{}` is.
abbrev pub no_perf : PerfInd
no_perf = record { rtt = 0 }

-- An error, by the place that makes it; `external` comes from outside. What the program prints of
-- an error is not modelled beyond the parts that its text is made of.
pub data Error : Type 0 where
  external : Bytes → Error
  no_suitable_peer no_better_service no_allocator no_provider bad_address : Error
  unable_to_find not_found chain_too_short unknown_protocol wrong_message no_port : Error
  lookup_failed : Bytes → Error → Error
  find_failed : Bytes → Bytes → Error → Error
  wrapped : Error → Error

-- A call that returns a value or an error, where the value is not read beside an error.
pub data Result {ℓ} (A : Type ℓ) : Type ℓ where
  ok : A → Result A
  err : Error → Result A

pub Result-cases {ℓ} :
    {A : Type ℓ} (r : Result A) → ((a : A) × (r ≡ ok a)) ⊎ ((e : Error) × (r ≡ err e))
Result-cases (ok a) = inl (a, refl)
Result-cases (err e) = inr (e, refl)

-- What the registry answers: Go returns the information beside the error too.
pub record Answer : Type 0 where
  pub info : ServiceInfo
  pub error : Option Error

pub record World : Type 1 where
  pub State : Type 0
  pub PeerChan : Type 0
  pub Backoff : Type 0
  pub Stream : Type 0
  -- PerfInd.LessThan
  pub less_than : PerfInd → PerfInd → Bool
  -- time.Now
  pub now : State → ℕ × State
  -- time.Sleep
  pub sleep : ℕ → State → State
  -- ping.Ping under a timeout, and the receive from its channel: the round-trip time, 0 on failure
  pub ping : Bytes → ℕ → State → ℕ × State
  -- registry.GetServiceWithHostRouting
  pub get_service : Bytes → State → Answer × State
  -- RoutingDiscovery.FindPeers
  pub find_peers : Bytes → State → Result PeerChan × State
  -- p2putil.SortPeers
  pub sort_peers : PeerChan → State → List PeerInfo × State
  -- util.NewExpoBackoffAttempts(wait, max, attempts), and its Attempt
  pub new_backoff : ℕ → ℕ → ℕ → State → Backoff × State
  pub attempt : Backoff → State → Bool × Backoff × State
  -- Host.NewStream
  pub new_stream : Bytes → Bytes → State → Result Stream × State
  -- bufio: a write with its flush, and ReadString up to a newline, which it keeps
  pub write_string : Stream → Bytes → State → Option Error × State
  pub read_string : Stream → State → Result Bytes × State
  -- network.Stream: Reset and Close, whose errors are dropped
  pub reset : Stream → State → State
  pub close_stream : Stream → State → State
