-- ===== src/Chain/Setup/Backward.antt =====
-- The acknowledgement of a chain on its way back, through the chainSetupHandler of every proxy of the
-- chain, in l4-proxy/chain-setup.go.
use mathlib.Core.List.{reverse}
use go_code_goes_here.Prelude.{
  ℕ, ◌≡◌, sym, subst, ap, ◌∙◌, arith, Bytes, codes, false, List, [], ◌∷◌, ◌++◌, none, some, join,
  join-one, join-reverse, snoc_inj,
}
use go_code_goes_here.World.{Result, ok, Result-cases}
use go_code_goes_here.Locate.{Env}
use go_code_goes_here.Chain.Message.{ChainMsg, new_chain_setup_ack, encode_chain_data}
use go_code_goes_here.Chain.Link.{Net, send_setup_ack, receive_setup_request}
use go_code_goes_here.Chain.Serving.{
  udp, tcp, is_protocol, tunnel_proto_id, start_end, start_mid, at, Done, udp_end_chain_handler,
  tcp_end_chain_handler, udp_resolve_and_dial, udp_mid_chain_handler, tcp_mid_chain_handler,
}
use go_code_goes_here.Chain.Setup.{relay, rev_chain_msg_prefix, chain_setup_handler}
use go_code_goes_here.Chain.Setup.Route.{DoesNotName, services_of, last_protocol, relay-append}
use go_code_goes_here.Chain.Setup.Handler.{chain_setup_handler_ends}
use go_code_goes_here.Chain.Setup.Relay.{Exchanged, chain_setup_handler_relays}

module _ (net : Net) where
  open net use {State, Stream, Conn, codec, world, send_msg, set_protocol, dial}

  -- A log of the messages that were sent: a send that works adds its message, and to set a protocol or
  -- to connect to a service sends none.
  pub record Log : Type 0 where
    pub sent : State → List (Stream × ChainMsg)
    pub sends :
        (stream : Stream) (msg : ChainMsg) (s : State)
        → (send_msg stream msg s).0 ≡ none
        → sent (send_msg stream msg s).1 ≡ sent s ++ (stream, msg) ∷ []
    pub sets :
        (stream : Stream) (proto : Bytes) (s : State) → sent (set_protocol stream proto s) ≡ sent s
    pub dials : (proto endpoint : Bytes) (s : State) → sent (dial proto endpoint s).1 ≡ sent s

  module _ (log : Log) where
    -- The last message that was sent is the acknowledgement with a text, over a stream.
    abbrev pub Answers : Stream → Bytes → State → Type 0
    Answers stream text s =
        (earlier : List (Stream × ChainMsg)) × (log.sent s
          ≡ earlier ++ (stream, new_chain_setup_ack codec text) ∷ [])

    -- A run of the handler at the proxy of a service that the chain names once, and that is no
    -- protocol's name, whose last message was an acknowledgement to the proxy before it.
    pub record Place (spec : List Bytes) (service text : Bytes) : Type 0 where
      pub endpoint : Bytes
      pub stream : Stream
      pub env : Env world
      pub s : State
      pub pre : List Bytes
      pub post : List Bytes
      pub out : Done net
      pub splits : spec ≡ pre ++ service ∷ post
      pub receives : receive_setup_request net stream env.outside ≡ (ok spec, s)
      pub is_service : is_protocol service ≡ false
      pub before : DoesNotName service pre
      pub behind : DoesNotName service post
      pub runs : chain_setup_handler net service endpoint stream env ≡ some out
      pub answers : Answers stream text out.1.outside

    -- The services of a chain from a proxy on, and the text that this proxy acknowledges with: the last
    -- proxy has no service behind it; any other one got from the next proxy, over the stream that it
    -- opened, the acknowledgement of the services behind it. The sends work.
    pub data Acknowledged (spec : List Bytes) : List Bytes → Bytes → Type 0 where
      ends :
          {service text : Bytes} (p : Place spec service text)
          → services_of p.post ≡ []
          → (send_setup_ack net p.stream (rev_chain_msg_prefix ++ service) p.s).0 ≡ none
          → Acknowledged spec (service ∷ []) text
      passes :
          {service text cs : Bytes} {c : ℕ} {more services : List Bytes} {out_stream : Stream}
          (p : Place spec service text)
          → services_of p.post ≡ (c ∷ cs) ∷ more
          → (x : Exchanged net spec (at net p.env p.s) (c ∷ cs) out_stream)
          → (send_setup_ack net p.stream (relay service x.msg) x.back).0 ≡ none
          → Acknowledged spec ((c ∷ cs) ∷ services) x.msg
          → Acknowledged spec (service ∷ (c ∷ cs) ∷ services) text

    sent-ack :
        (stream : Stream) (text : Bytes) (s : State)
        → (send_setup_ack net stream text s).0 ≡ none
        → Answers stream text (send_setup_ack net stream text s).1
    unfolding send_setup_ack
    sent-ack stream text s h =
        (log.sent s, log.sends stream (new_chain_setup_ack codec text) s (ground (arith, h)))

    -- The service is connected to after the protocol of a stream was set.
    abbrev dialed : Bytes → Bytes → Stream → State → Result Conn × State
    dialed proto endpoint stream s =
        dial proto endpoint (set_protocol stream (tunnel_proto_id net proto) s)

    sent-dialed :
        (proto endpoint : Bytes) (stream : Stream) (s : State)
        → log.sent (dialed proto endpoint stream s).1 ≡ log.sent s
    sent-dialed proto endpoint stream s =
        log.dials proto endpoint _ ∙ log.sets stream (tunnel_proto_id net proto) s

    sent-start_end :
        (proto endpoint : Bytes) (stream : Stream) (env : Env world)
        → log.sent (start_end net proto endpoint stream env).1.outside ≡ log.sent env.outside
    unfolding start_end udp_end_chain_handler tcp_end_chain_handler udp_resolve_and_dial
    sent-start_end proto endpoint stream env = ground (
      arith,
      sent-dialed udp endpoint stream env.outside,
      sent-dialed tcp endpoint stream env.outside,
      Result-cases (dialed udp endpoint stream env.outside).0,
      Result-cases (dialed tcp endpoint stream env.outside).0,
    )

    sent-start_mid :
        (proto endpoint : Bytes) (stream out_stream : Stream) (env : Env world)
        → log.sent (start_mid net proto endpoint stream out_stream env).1.outside
          ≡ log.sent env.outside
    unfolding start_mid udp_mid_chain_handler tcp_mid_chain_handler udp_resolve_and_dial
    sent-start_mid proto endpoint stream out_stream env = ground (
      arith,
      sent-dialed udp endpoint out_stream env.outside,
      sent-dialed tcp endpoint out_stream env.outside,
      Result-cases (dialed udp endpoint out_stream env.outside).0,
      Result-cases (dialed tcp endpoint out_stream env.outside).0,
    )

    same_text :
        (stream : Stream) (text text' : Bytes) (s : State)
        → Answers stream text s
        → Answers stream text' s
        → text ≡ text'
    unfolding new_chain_setup_ack encode_chain_data
    same_text stream text text' s (xs, h) (ys, k) =
        ap (λ m. m.1.payload) (snoc_inj xs ys _ _ (sym h ∙ k))

    took :
        {spec : List Bytes} {service text : Bytes} (p : Place spec service text)
        → receive_setup_request net p.stream p.env.outside ≡ (ok (p.pre ++ service ∷ p.post), p.s)
    took p = p.receives ∙ ap (λ l. (ok l, p.s)) p.splits

    ends-Answers :
        {spec : List Bytes} {service text : Bytes} (p : Place spec service text)
        → services_of p.post ≡ []
        → (send_setup_ack net p.stream (rev_chain_msg_prefix ++ service) p.s).0 ≡ none
        → Answers p.stream (rev_chain_msg_prefix ++ service) p.out.1.outside
    ends-Answers {service = service} p alone works =
        let text = rev_chain_msg_prefix ++ service in
        let proto = last_protocol [] p.pre in
        let s' = (send_setup_ack net p.stream text p.s).1 in
        let ran =
          chain_setup_handler_ends net service p.endpoint p.stream p.env p.pre p.post
            (ap (λ t. t.0) (took p)) p.is_service p.before p.behind alone in
        let (earlier, sent) = sent-ack p.stream text p.s works in
        let same_out : p.out ≡ start_end net proto p.endpoint p.stream (at net p.env s') =
          ground (arith, ran, p.receives, works, p.runs) in
        (
          earlier,
          ap (λ (o : Done net). log.sent o.1.outside) same_out
              ∙ sent-start_end proto p.endpoint p.stream (at net p.env s')
              ∙ sent,
        )

    passes-Answers :
        {spec : List Bytes} {service text cs : Bytes} {c : ℕ} {more : List Bytes}
        {out_stream : Stream} (p : Place spec service text)
        → services_of p.post ≡ (c ∷ cs) ∷ more
        → (x : Exchanged net spec (at net p.env p.s) (c ∷ cs) out_stream)
        → (send_setup_ack net p.stream (relay service x.msg) x.back).0 ≡ none
        → Answers p.stream (relay service x.msg) p.out.1.outside
    passes-Answers {spec = spec} {service = service} {cs = cs} {c = c} {more = more}
          {out_stream = out_stream} p names x works =
        let text = relay service x.msg in
        let proto = last_protocol [] p.pre in
        let s' = (send_setup_ack net p.stream text x.back).1 in
        let behind_ack = at net x.resolved s' in
        let x' : Exchanged net (p.pre ++ service ∷ p.post) (at net p.env p.s) (c ∷ cs) out_stream =
          subst (λ l. Exchanged net l (at net p.env p.s) (c ∷ cs) out_stream) p.splits x in
        let ran =
          chain_setup_handler_relays net service p.endpoint p.stream out_stream p.env p.s p.pre
            p.post c cs more (took p) p.is_service p.before p.behind names x' in
        let (earlier, sent) = sent-ack p.stream text x.back works in
        let same_out : p.out.1 ≡ (start_mid net proto p.endpoint p.stream out_stream behind_ack).1 =
          ground (arith, ran, p.runs) in
        (
          earlier,
          ap (λ (e : Env world). log.sent e.outside) same_out
              ∙ sent-start_mid proto p.endpoint p.stream out_stream behind_ack
              ∙ sent,
        )

    -- However long a chain is: where it names the service of every proxy from this one on once, none of
    -- them is a protocol's name, each of these proxies has answered the proxy before it, as a log of the
    -- messages shows, and got the answer of the one behind it, the text of this proxy's acknowledgement
    -- is the words for a reverse chain, and the services from the last one back to this one, with spaces
    -- between them.
    pub acknowledged-join :
        {spec services : List Bytes} {text : Bytes}
        → Acknowledged spec services text
        → text ≡ rev_chain_msg_prefix ++ join (reverse services) (codes " ")
    acknowledged-join (ends p alone works) =
        same_text p.stream _ _ p.out.1.outside p.answers (ends-Answers p alone works)
        ∙ ap (λ t. rev_chain_msg_prefix ++ t) (sym (join-one _ (codes " ")))
    acknowledged-join
          (passes {service = service} {cs = cs} {c = c} {services = services} p names x works
            next) =
        same_text p.stream _ _ p.out.1.outside p.answers (passes-Answers p names x works)
        ∙ ap (relay _) (acknowledged-join next)
        ∙ relay-append _ _
        ∙ ap (λ t. rev_chain_msg_prefix ++ t)
            (sym (join-reverse service (c ∷ cs) services (codes " ")))
