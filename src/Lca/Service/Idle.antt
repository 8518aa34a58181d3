-- ===== src/Lca/Service/Idle.antt =====
-- When a service counts as idle: the time that RequestHandler of lca/lca-manager.go keeps, the report of
-- httpMetricsHandler in proxy/proxy.go, and the test of CullUnusedServices in lca/lca-allocator.go.
use go_code_goes_here.Prelude.{
  ℕ, ◌*◌, ◌-◌, ◌/◌, ◌^◌, ◌≤◌, ◌<◌, ◌≡◌, ◌↔◌, inl, inr, refl, ap, arith, Bytes, codes, true, Option,
  none, some, Option-cases, ltb, ◌++◌,
}
use go_code_goes_here.World.{Error, Result-cases}
use go_code_goes_here.Rcache.{second}
use go_code_goes_here.Strconv.{itoa}
use go_code_goes_here.Lca.Manager.{LcaManager}
use go_code_goes_here.Lca.Wire.{write, err_dead_program}
use go_code_goes_here.Lca.Cull.{is_unused}
use go_code_goes_here.Lca.Cull.Laws.{is_unused-itoa}
use go_code_goes_here.Lca.Service.{
  Transport, Ending, arguments, served, recovered, metrics_text, give_back, pass_on, take_request,
  answer_stream, handle_stream,
}

-- A service whose proxy reports its metrics is unused, as the allocator reads the report, exactly if its
-- last request was serviced 61 seconds ago or earlier; the time is below 2^63 nanoseconds.
pub is_unused-metrics_text :
    (manager : LcaManager) (time : ℕ)
    → time < 2 ^ 63
    → (is_unused (metrics_text manager time) ≡ true) ↔ (61 * second ≤ time - manager.tolsr)
unfolding metrics_text
is_unused-metrics_text manager time h =
    let elapsed = (time - manager.tolsr) / second in
    let e : is_unused (itoa elapsed ++ codes "\n") ≡ ltb 60 elapsed =
      is_unused-itoa elapsed (omega arith) in
    (λ k. ground (arith, e, k), λ k. ground (arith, e, k))

module _ (transport : Transport) where
  open transport use {
    State, Stream, Request, Response, Url, world, now, read_request, request_uri, parse_url,
    round_trip, write_response, close_stream,
  }

  -- How a handled stream can end: with a panic, and the time as it was; or served, and the time is the
  -- clock's after the response was written without an error.
  pub data Answered (stream : Stream) (manager : LcaManager) (out : Ending × LcaManager × State)
      : Type 0 where
    panicked : out.0 ≡ recovered → out.1 ≡ manager → Answered stream manager out
    answered :
        (resp : Response) (s s' : State)
        → write_response resp stream s ≡ (none, s')
        → out.0 ≡ served
        → out.1 ≡ record manager { tolsr = (now s').0 }
        → Answered stream manager out

  give_back-Answered :
      (resp : Response) (stream : Stream) (manager : LcaManager) (s : State)
      → Answered stream manager (give_back transport resp stream manager s)
  unfolding give_back
  give_back-Answered resp stream manager s =
      let o = write_response resp stream s in
      elim (Option-cases o.0) [
        | inr (e, q) ↦ panicked (rw (q, give_back) refl) (rw (q, give_back) refl)
        | inl q ↦
            let whole : o ≡ (none, o.1) = ap (λ (x : Option Error). (x, o.1)) q in
            answered resp s o.1 whole (rw (q, give_back) refl) (rw (q, give_back) refl)
      ]

  pass_on-Answered :
      (req : Request) (url : Option Url) (stream : Stream) (manager : LcaManager) (s : State)
      → Answered stream manager (pass_on transport req url stream manager s)
  unfolding pass_on
  pass_on-Answered req url stream manager s =
      let (r, s1) = round_trip req url s in
      elim (Result-cases r) [
        | inl (resp, q) ↦ rw (q, pass_on) (give_back-Answered resp stream manager s1)
        | inr (e, q) ↦ panicked (rw (q, pass_on) refl) (rw (q, pass_on) refl)
      ]

  take_request-Answered :
      (address : Bytes) (req : Request) (stream : Stream) (manager : LcaManager) (s : State)
      → Answered stream manager (take_request transport address req stream manager s)
  unfolding take_request
  take_request-Answered address req stream manager s =
      let text = codes "http://" ++ address ++ codes "/" ++ arguments (request_uri req) in
      let (e, s1) = write world stream err_dead_program s in
      elim (Result-cases (parse_url req text)) [
        | inl (url, q) ↦ rw (q, take_request) (pass_on-Answered req (some url) stream manager s)
        | inr (f, q) ↦ elim (Option-cases e) [
          | inr (g, k) ↦ panicked (rw (q, k, take_request) refl) (rw (q, k, take_request) refl)
          | inl k ↦ rw (q, k, take_request) (pass_on-Answered req none stream manager s1)
        ]
      ]

  closed :
      (stream : Stream) (manager : LcaManager) (out : Ending × LcaManager × State)
      → Answered stream manager out
      → Answered stream manager (out.0, out.1, close_stream stream out.2)
  closed stream manager out (panicked e f) = panicked e f
  closed stream manager out (answered resp s s' w e f) = answered resp s s' w e f

  answer_stream-Answered :
      (address : Bytes) (stream : Stream) (manager : LcaManager) (s : State)
      → Answered stream manager (answer_stream transport address stream manager s)
  unfolding answer_stream
  answer_stream-Answered address stream manager s =
      let (r, s1) = read_request stream s in
      elim (Result-cases r) [
        | inr (e, q) ↦ panicked (rw (q, answer_stream) refl) (rw (q, answer_stream) refl)
        | inl (req, q) ↦ rw (q, answer_stream) (take_request-Answered address req stream manager s1)
      ]

  -- The time of the last serviced request is set only by a request that was served: the handler ends
  -- either by a panic that it recovers, and the time is as it was, or after it has written a response
  -- to the stream, and the time is the one that the clock shows then.
  pub handle_stream-Answered :
      (address : Bytes) (stream : Stream) (manager : LcaManager) (s : State)
      → Answered stream manager (handle_stream transport address stream manager s)
  unfolding handle_stream
  handle_stream-Answered address stream manager s =
      closed stream manager (answer_stream transport address stream manager s)
        (answer_stream-Answered address stream manager s)
