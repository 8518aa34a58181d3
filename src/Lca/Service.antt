-- ===== src/Lca/Service.antt =====
-- RequestHandler of lca/lca-manager.go: the side of a proxy that answers requests from other proxies by
-- its own service; and httpMetricsHandler of proxy/proxy.go, which reports when that last happened.
pub mod Idle
use go_code_goes_here.Prelude.{
  ℕ, ◌-◌, ◌/◌, Bytes, codes, Bool, true, false, List, [], ◌∷◌, ◌++◌, Option, none, some, ◌==◌,
  if◌then◌else◌,
}
use go_code_goes_here.World.{World, Error, Result, ok, err}
use go_code_goes_here.Strconv.{itoa}
use go_code_goes_here.Rcache.{second}
use go_code_goes_here.Lca.Wire.{write, err_dead_program}
use go_code_goes_here.Lca.Manager.{LcaManager}

-- What net/http and net/url give.
pub record Transport : Type 1 where
  pub world : World
  pub open world use *
  pub Request : Type 0
  pub Response : Type 0
  pub Url : Type 0
  pub read_request : Stream → State → Result Request × State
  pub request_uri : Request → Bytes
  pub parse_url : Request → Bytes → Result Url
  -- a request whose URL is nil is `none`
  pub round_trip : Request → Option Url → State → Result Response × State
  pub write_response : Response → Stream → State → Option Error × State

-- How the handler ends: the request was served, or a panic was recovered.
pub data Ending : Type 0 where
  served recovered : Ending

-- what stands behind the first slash
behind_slash : Bytes → Option Bytes
behind_slash [] = none
behind_slash (c ∷ s) = let rest = behind_slash s in if c == b'/' then some s else rest

-- tokens[2] of SplitN(uri, "/", 3), empty where there is none
arguments : Bytes → Bytes
unfolding behind_slash
arguments uri = elim (behind_slash uri) [
  | none ↦ []
  | some rest ↦ elim (behind_slash rest) [ none ↦ [] | some args ↦ args ]
]

-- What httpMetricsHandler writes at a time: the whole seconds since the last serviced request. The clock
-- does not run backwards.
unfoldable pub metrics_text : LcaManager → ℕ → Bytes
metrics_text manager time = itoa ((time - manager.tolsr) / second) ++ codes "\n"

-- httpMetricsHandler
unfoldable pub http_metrics_handler : (w : World) → LcaManager → w.State → Bytes × w.State
http_metrics_handler w manager s = let (time, s') = w.now s in (metrics_text manager time, s')

module _ (transport : Transport) where
  open transport use {
    State, Stream, world, Request, Response, Url, now, read_request, request_uri, parse_url,
    round_trip, write_response, close_stream,
  }

  -- The response of the service goes back; then the time is kept.
  unfoldable pub give_back : Response → Stream → LcaManager → State → Ending × LcaManager × State
  give_back resp stream manager s =
      let (e, s1) = write_response resp stream s in
      let (time, s2) = now s1 in
      elim e [
        | some e ↦ (recovered, manager, s1)
        | none ↦ (served, record manager { tolsr = time }, s2)
      ]

  -- From the round trip on. After an error the handler goes on to a nil response, and panics.
  unfoldable pub pass_on :
      Request → Option Url → Stream → LcaManager → State → Ending × LcaManager × State
  pass_on req url stream manager s =
      let (r, s1) = round_trip req url s in
      elim r [
        | err e ↦ (recovered, manager, (write world stream err_dead_program s1).1)
        | ok resp ↦ give_back resp stream manager s1
      ]

  -- From the read of the request on. A URL that is not parsed is nil from then on.
  unfoldable pub take_request :
      Bytes → Request → Stream → LcaManager → State → Ending × LcaManager × State
  unfolding arguments
  take_request address req stream manager s =
      let text = codes "http://" ++ address ++ codes "/" ++ arguments (request_uri req) in
      let (e, s1) = write world stream err_dead_program s in
      elim (parse_url req text) [
        | ok url ↦ pass_on req (some url) stream manager s
        | err f ↦ elim e [
          | some e ↦ (recovered, manager, s1)
          | none ↦ pass_on req none stream manager s1
        ]
      ]

  -- The handler that RequestHandler makes, without its deferred calls. pingService always succeeds.
  unfoldable pub answer_stream : Bytes → Stream → LcaManager → State → Ending × LcaManager × State
  answer_stream address stream manager s =
      let (r, s1) = read_request stream s in
      elim r [
        | err e ↦ (recovered, manager, s1)
        | ok req ↦ take_request address req stream manager s1
      ]

  -- The handler: the panic is recovered, and the stream closed.
  unfoldable pub handle_stream : Bytes → Stream → LcaManager → State → Ending × LcaManager × State
  handle_stream address stream manager s =
      let (ending, manager', s') = answer_stream address stream manager s in
      (ending, manager', close_stream stream s')
