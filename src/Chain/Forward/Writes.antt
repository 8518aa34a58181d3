-- ===== src/Chain/Forward/Writes.antt =====
-- The inner loops of the forwarders in l4-proxy/tcp-proxy.go and l4-proxy/udp-proxy.go.
use go_code_goes_here.Prelude.{
  ℕ, zero, suc, ◌+◌, ◌≤◌, ◌≡◌, refl, ap, ◌∙◌, arith, Bytes, Bool, true, false, Bool-cases, inl, inr,
  none, some, Option-cases, length, ltb,
}
use go_code_goes_here.World.{Result-cases, ok, err}
use go_code_goes_here.Chain.Link.{receive_data}
use go_code_goes_here.Chain.Forward.{
  Pipes, Writer, write_all, fwd_to_writer, finish, tcp_fwd_stream_to_conn,
}

module _ (pipes : Pipes) where
  open pipes use {State, Stream, Conn, net, write_conn, reset, close}

  -- What io.Writer documents: fewer bytes than the data's are returned only beside an error.
  abbrev pub IsWriter : Writer pipes → Type 0
  IsWriter write_some =
      (d : Bytes) (s : State) → (write_some d s).1 ≡ none → length d ≤ (write_some d s).0

  -- A forwarder that writes each payload that is not empty by one call.
  unfoldable pub fwd_by_one_write : Writer pipes → ℕ → Stream → State → Bool × State
  fwd_by_one_write write_some zero src s = (false, s)
  fwd_by_one_write write_some (suc n) src s =
      let (r, s1) = receive_data net src s in
      elim r [
        | err e ↦ (true, s1)
        | ok d ↦ elim (ltb 0 (length d)) [
          | false ↦ fwd_by_one_write write_some n src s1
          | true ↦
              let (m, e, s2) = write_some d s1 in
              elim e [ some e ↦ (true, s2) | none ↦ fwd_by_one_write write_some n src s2 ]
        ]
      ]

  written_once : Writer pipes → Bytes → State → Bool × State
  written_once write_some d s = elim (ltb 0 (length d)) [
    | false ↦ (true, s)
    | true ↦ let (n, e, s') = write_some d s in elim e [ some e ↦ (false, s') | none ↦ (true, s') ]
  ]

  write_all_lem :
      (write_some : Writer pipes) (k : ℕ) (d : Bytes) (s : State)
      → IsWriter write_some
      → write_all pipes write_some (suc (suc k)) 0 d s ≡ some (written_once write_some d s)
  unfolding write_all written_once
  write_all_lem write_some k d s w = elim (Bool-cases (ltb 0 (length d))) [
    | inr e ↦ rw (e, write_all, written_once) refl
    | inl e ↦ elim (Option-cases (write_some d s).1) [
      | inr (f, q) ↦ rw (e, q, write_all, written_once) refl
      | inl q ↦
          let whole : ltb (0 + (write_some d s).0) (length d) ≡ false = ground (arith, w d s q) in
          rw (e, q, whole, write_all, written_once) refl
    ]
  ]

  fwd_to_writer_lem :
      (write_some : Writer pipes) (k n : ℕ) (src : Stream) (s : State)
      → IsWriter write_some
      → fwd_to_writer pipes (suc (suc k)) write_some n src s
        ≡ some (fwd_by_one_write write_some n src s)
  unfolding fwd_to_writer fwd_by_one_write written_once
  fwd_to_writer_lem write_some k zero src s w = refl
  fwd_to_writer_lem write_some k (suc n) src s w =
      let (r, s1) = receive_data net src s in
      elim (Result-cases r) [
        | inr (e, q) ↦ rw (q, fwd_to_writer, fwd_by_one_write) refl
        | inl (d, q) ↦
            let lem = write_all_lem write_some k d s1 w in
            elim (Bool-cases (ltb 0 (length d))) [
              | inr e ↦
                  let v : write_all pipes write_some (suc (suc k)) 0 d s1 ≡ some (true, s1) =
                    lem ∙ rw (e, written_once) refl in
                  rw (q, fwd_to_writer, fwd_by_one_write, v, e)
                    (fwd_to_writer_lem write_some k n src s1 w)
              | inl e ↦
                  let s2 = (write_some d s1).2 in
                  elim (Option-cases (write_some d s1).1) [
                    | inr (f, g) ↦
                        let v : write_all pipes write_some (suc (suc k)) 0 d s1 ≡ some (false, s2) =
                          lem ∙ rw (e, g, written_once) refl in
                        rw (q, fwd_to_writer, fwd_by_one_write, v, e, g) refl
                    | inl g ↦
                        let v : write_all pipes write_some (suc (suc k)) 0 d s1 ≡ some (true, s2) =
                          lem ∙ rw (e, g, written_once) refl in
                        rw (q, fwd_to_writer, fwd_by_one_write, v, e, g)
                          (fwd_to_writer_lem write_some k n src s2 w)
                  ]
            ]
      ]

  -- Where the connection is a writer as io.Writer documents it, tcpFwdStream2Conn does for any number of
  -- messages what the forwarder does that writes each payload by one call, with two rounds of fuel for
  -- its inner loop or more: no payload is written twice, and the inner loop ends.
  pub tcp_fwd_stream_to_conn_once :
      (k n : ℕ) (src : Stream) (dst : Conn) (s : State)
      → IsWriter (write_conn dst)
      → tcp_fwd_stream_to_conn pipes (suc (suc k)) n src dst s
        ≡ finish pipes
            (λ t. close dst (reset src t))
            (some (fwd_by_one_write (write_conn dst) n src s))
  unfolding tcp_fwd_stream_to_conn
  tcp_fwd_stream_to_conn_once k n src dst s w =
      ap (finish pipes (λ t. close dst (reset src t)))
        (fwd_to_writer_lem (write_conn dst) k n src s w)
