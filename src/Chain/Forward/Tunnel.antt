-- ===== src/Chain/Forward/Tunnel.antt =====
-- One direction of a TCP tunnel: fwdConn2Stream of l4-proxy/tcp-proxy.go at one proxy and tcpFwdStream2Conn
-- at the next, each by the rounds of its loop, in any order.
use go_code_goes_here.Prelude.{
  ℕ, zero, suc, ◌+◌, ◌≤◌, ◌≡◌, refl, ap, sym, ◌∙◌, arith, Bytes, true, false, inl, inr, List, [],
  ◌∷◌, ◌++◌, none, some, Option-cases, length, append_assoc, append-nil, subst,
}
use go_code_goes_here.World.{Result, Result-cases, ok, err}
use go_code_goes_here.Chain.Message.{
  ChainMsg, Codec, new_chain_data, accept_data, encode_chain_data, decode_chain_data, expect_type,
  same_type,
}
use go_code_goes_here.Chain.Link.{receive_data, send_data}
use go_code_goes_here.Chain.Forward.{
  Pipes, write_all, fwd_to_writer, fwd_to_stream, max_tcp_tunnel_payload,
}

abbrev pub concat : List Bytes → Bytes
concat [] = []
concat (d ∷ ds) = d ++ concat ds

-- The bytes of a result, none for an error.
abbrev pub bytes_of : Result Bytes → Bytes
bytes_of (ok d) = d
bytes_of (err e) = []

module _ (codec : Codec) where
  -- What a message brings to a receiver of data.
  abbrev pub payload_of_data : ChainMsg → Bytes
  payload_of_data m = bytes_of (accept_data codec m)

  abbrev pub payloads : List ChainMsg → Bytes
  payloads [] = []
  payloads (m ∷ ms) = payload_of_data m ++ payloads ms

  payloads-append : (xs ys : List ChainMsg) → payloads (xs ++ ys) ≡ payloads xs ++ payloads ys
  payloads-append [] ys = refl
  payloads-append (x ∷ xs) ys =
      ap (λ r. payload_of_data x ++ r) (payloads-append xs ys)
      ∙ sym (append_assoc (payload_of_data x) (payloads xs) (payloads ys))

  payload-new_chain_data : (d : Bytes) → payload_of_data (new_chain_data codec d) ≡ d
  unfolding accept_data new_chain_data encode_chain_data decode_chain_data expect_type same_type
  payload-new_chain_data d = refl

module _ (pipes : Pipes) where
  open pipes use {State, Stream, Conn, net, codec, read_conn, write_conn, send_msg, recv_msg}

  -- What the two ends rely on: reads take what the client wrote, in its order; a stream is a queue of
  -- messages; a write without an error writes all of the data.
  pub record IsTunnel (src : Conn) (near far : Stream) (dst : Conn) : Type 0 where
    pub input : State → List Bytes
    pub queue : State → List ChainMsg
    pub output : State → Bytes
    pub reads :
        (s : State) (d : Bytes)
        → (read_conn src max_tcp_tunnel_payload s).0 ≡ ok d
        → let s' = (read_conn src max_tcp_tunnel_payload s).1 in
          (input s ≡ d ∷ input s') × ((queue s' ≡ queue s) × (output s' ≡ output s))
    pub sends :
        (s : State) (m : ChainMsg)
        → (send_msg near m s).0 ≡ none
        → let s' = (send_msg near m s).1 in
          (queue s' ≡ queue s ++ m ∷ []) × ((input s' ≡ input s) × (output s' ≡ output s))
    pub receives :
        (s : State) (m : ChainMsg)
        → (recv_msg far s).0 ≡ ok m
        → let s' = (recv_msg far s).1 in
          (queue s ≡ m ∷ queue s') × ((input s' ≡ input s) × (output s' ≡ output s))
    pub writes :
        (s : State) (d : Bytes)
        → (write_conn dst d s).1 ≡ none
        → let s' = (write_conn dst d s).2 in
          (output s' ≡ output s ++ d)
          × ((length d ≤ (write_conn dst d s).0) × ((input s' ≡ input s) × (queue s' ≡ queue s)))

  module _ (src : Conn) (near far : Stream) (dst : Conn) where
    -- A round of either loop that does not end it.
    pub data Step (s : State) : State → Type 0 where
      reading :
          {s' : State}
          → fwd_to_stream pipes max_tcp_tunnel_payload 1 src near s ≡ (false, s')
          → Step s s'
      writing :
          {s' : State} (fuel : ℕ)
          → fwd_to_writer pipes fuel (write_conn dst) 1 far s ≡ some (false, s')
          → Step s s'

    pub data Steps (s : State) : State → Type 0 where
      stay : Steps s s
      go : {t u : State} → Steps s t → Step t u → Steps s u

  module _ {src : Conn} {near far : Stream} {dst : Conn} (tunnel : IsTunnel src near far dst) where
    open tunnel use {input, queue, output}

    -- What was written, is under way, or is still to be read.
    abbrev pub in_transit : State → Bytes
    in_transit s = output s ++ (payloads codec (queue s) ++ concat (input s))

    sent_on :
        (q q2 : List ChainMsg) (i i2 : List Bytes) (o o2 d : Bytes)
        → i ≡ d ∷ i2
        → q2 ≡ q ++ new_chain_data codec d ∷ []
        → o2 ≡ o
        → o2 ++ (payloads codec q2 ++ concat i2) ≡ o ++ (payloads codec q ++ concat i)
    sent_on q q2 i i2 o o2 d e f g =
        rw
          (
            e,
            f,
            g,
            payloads-append codec q,
            payload-new_chain_data codec d,
            append-nil,
            append_assoc,
          )
          refl

    written_out :
        (q q2 : List ChainMsg) (i i2 : List Bytes) (o o2 d : Bytes) (m : ChainMsg)
        → q ≡ m ∷ q2
        → accept_data codec m ≡ ok d
        → i2 ≡ i
        → o2 ≡ o ++ d
        → o2 ++ (payloads codec q2 ++ concat i2) ≡ o ++ (payloads codec q ++ concat i)
    written_out q q2 i i2 o o2 d m e k f g =
        let p : payload_of_data codec m ≡ d = ap bytes_of k in
        rw (e, f, g, append_assoc)
          (ap (λ x. o ++ (x ++ (payloads codec q2 ++ concat i))) (sym p)
            ∙ ap (λ x. o ++ x)
                (sym (append_assoc (payload_of_data codec m) (payloads codec q2) (concat i))))

    reading_keeps :
        (s s' : State)
        → fwd_to_stream pipes max_tcp_tunnel_payload 1 src near s ≡ (false, s')
        → in_transit s' ≡ in_transit s
    unfolding fwd_to_stream send_data
    reading_keeps s s' h =
        let s1 = (read_conn src max_tcp_tunnel_payload s).1 in
        elim (Result-cases (read_conn src max_tcp_tunnel_payload s).0) [
          | inr (e, r) ↦ absurd (ground (arith, r, h))
          | inl (d, r) ↦
              let m = new_chain_data codec d in
              elim (Option-cases (send_msg near m s1).0) [
                | inr (e, w) ↦ absurd (ground (arith, r, w, h))
                | inl w ↦
                    let (i, (q, o)) = tunnel.reads s d r in
                    let (q', (i', o')) = tunnel.sends s1 m w in
                    let same_state : (send_msg near m s1).1 ≡ s' = ground (arith, r, w, h) in
                    subst (λ t. in_transit t ≡ in_transit s) same_state
                      (sent_on _ _ _ _ _ _ d (i ∙ ap (λ x. d ∷ x) (sym i'))
                        (q' ∙ ap (λ x. x ++ m ∷ []) q) (o' ∙ o))
              ]
        ]

    write_all_ends :
        (fuel n : ℕ) (d : Bytes) (s s' : State)
        → length d ≤ n
        → write_all pipes (write_conn dst) fuel n d s ≡ some (true, s')
        → s ≡ s'
    unfolding write_all
    write_all_ends zero n d s s' le h = absurd (ground (arith, h))
    write_all_ends (suc fuel) n d s s' le h = ground (arith, le, h)

    write_all_keeps :
        (fuel : ℕ) (d : Bytes) (s s' : State)
        → write_all pipes (write_conn dst) fuel 0 d s ≡ some (true, s')
        → (output s' ≡ output s ++ d) × ((input s' ≡ input s) × (queue s' ≡ queue s))
    unfolding write_all
    write_all_keeps zero d s s' h = absurd (ground (arith, h))
    write_all_keeps (suc fuel) [] s s' h =
        let e : s ≡ s' = ground (arith, h) in rw (sym e) (sym (append-nil (output s)), (refl, refl))
    write_all_keeps (suc fuel) (c ∷ cs) s s' h =
        let d = c ∷ cs in
        let s1 = (write_conn dst d s).2 in
        elim (Option-cases (write_conn dst d s).1) [
          | inr (e, w) ↦ absurd (ground (arith, w, h))
          | inl w ↦
              let (o, (le, (i, q))) = tunnel.writes s d w in
              let rest : write_all pipes (write_conn dst) fuel (0 + (write_conn dst d s).0) d s1
                  ≡ some (true, s') =
                ground (arith, w, h) in
              let e : s1 ≡ s' = write_all_ends fuel _ d s1 s' (omega arith) rest in
              rw (sym e) (o, (i, q))
        ]

    writing_keeps :
        (fuel : ℕ) (s s' : State)
        → fwd_to_writer pipes fuel (write_conn dst) 1 far s ≡ some (false, s')
        → in_transit s' ≡ in_transit s
    unfolding fwd_to_writer receive_data
    writing_keeps fuel s s' h =
        let s1 = (recv_msg far s).1 in
        elim (Result-cases (recv_msg far s).0) [
          | inr (e, r) ↦ absurd (ground (arith, r, h))
          | inl (m, r) ↦ elim (Result-cases (accept_data codec m)) [
            | inr (e, k) ↦ absurd (ground (arith, r, k, h))
            | inl (d, k) ↦ elim (Option-cases (write_all pipes (write_conn dst) fuel 0 d s1)) [
              | inl n ↦ absurd (ground (arith, r, k, n, h))
              | inr ((false, s2), n) ↦ absurd (ground (arith, r, k, n, h))
              | inr ((true, s2), n) ↦
                  let same_state : s2 ≡ s' = ground (arith, r, k, n, h) in
                  let (q, (i, o)) = tunnel.receives s m r in
                  let (o', (i', q')) = write_all_keeps fuel d s1 s2 n in
                  subst (λ t. in_transit t ≡ in_transit s) same_state
                    (written_out _ _ _ _ _ _ d m (q ∙ ap (λ x. m ∷ x) (sym q')) k (i' ∙ i)
                      (o' ∙ ap (λ x. x ++ d) o))
            ]
          ]
        ]

    -- However the rounds of the two loops of a tunnel follow one another, as long as neither loop ends,
    -- nothing that the client sent is lost, doubled or put in another order: what was written, what the
    -- messages under way hold, and what is still to be read make the same bytes, in this order.
    pub Steps-in_transit : {s t : State} → Steps src near far dst s t → in_transit t ≡ in_transit s
    Steps-in_transit stay = refl
    Steps-in_transit (go r (reading h)) = reading_keeps _ _ h ∙ Steps-in_transit r
    Steps-in_transit (go r (writing fuel h)) = writing_keeps fuel _ _ h ∙ Steps-in_transit r
