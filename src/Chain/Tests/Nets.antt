-- ===== src/Chain/Tests/Nets.antt =====
-- Proxies that all share one message, and a codec for token lists.
use go_code_goes_here.Prelude.{
  ℕ, zero, suc, ◌∙◌, ◌≡◌, refl, ap, arith, Bytes, codes, List, [], ◌∷◌, none, same, if◌then◌else◌,
}
use go_code_goes_here.World.{ok}
use go_code_goes_here.World.Toy.{toy, web}
use go_code_goes_here.Pcache.{add_peer}
use go_code_goes_here.Pcache.Shape.{cache}
use go_code_goes_here.Locate.{Env, peer_for}
use go_code_goes_here.Locate.Returns.{IsBounded}
use go_code_goes_here.Chain.Message.{setup_request, setup_ack, ChainMsg, Codec}
use go_code_goes_here.Chain.Message.RoundTrip.{IsLawful}
use go_code_goes_here.Chain.Link.{Net}
use go_code_goes_here.Chain.Serving.{tcp}

-- A token is written with a one before each byte, and a zero behind it.
abbrev pub put : Bytes → Bytes → Bytes
put [] rest = zero ∷ rest
put (c ∷ cs) rest = suc zero ∷ c ∷ put cs rest

abbrev pub encode : List Bytes → Bytes
encode [] = []
encode (t ∷ ts) = put t (encode ts)

abbrev pub push : ℕ → List Bytes → List Bytes
push c [] = (c ∷ []) ∷ []
push c (t ∷ ts) = (c ∷ t) ∷ ts

abbrev pub decode : Bytes → List Bytes
decode [] = []
decode (zero ∷ rest) = [] ∷ decode rest
decode (suc n ∷ []) = []
decode (suc n ∷ c ∷ rest) = push c (decode rest)

decode-put : (t rest : Bytes) → decode (put t rest) ≡ t ∷ decode rest
decode-put [] rest = refl
decode-put (c ∷ cs) rest = ap (push c) (decode-put cs rest)

pub decode-encode_tokens : (spec : List Bytes) → decode (encode spec) ≡ spec
decode-encode_tokens [] = refl
decode-encode_tokens (t ∷ ts) = decode-put t (encode ts) ∙ ap (λ x. t ∷ x) (decode-encode_tokens ts)

abbrev pub codec : Codec
codec = record { gob_encode = encode; gob_decode = decode; errorf = λ text. text }

pub codec-IsLawful : IsLawful codec
codec-IsLawful = record { decodes = decode-encode_tokens; formats = λ text h. refl }

abbrev pub web_name : Bytes
web_name = codes "web"

-- Every receive from a stream gives the same message.
abbrev pub net : ChainMsg → Net
net msg = record {
  codec = codec;
  world = toy;
  send_msg = λ stream m s. (none, s);
  recv_msg = λ stream s. (ok msg, s);
  set_protocol = λ stream proto s. s;
  Ticker = Unit;
  new_ticker = λ d s. (tt, s);
  await_tick = λ ticker s. s;
  close_conn = λ stream s. s;
  Conn = Bytes;
  dial = λ proto endpoint s. (ok endpoint, s);
}

abbrev pub acking : Net
acking = net (record { type = setup_ack; payload = codes "Reverse chain: web" })

abbrev pub asking : Net
asking = net (record { type = setup_request; payload = encode (tcp ∷ web_name ∷ []) })

abbrev pub env : Env toy
env = record {
  registry_cache = record { ttl = 10; entries = [] };
  peer_cache = cache [] [] [];
  outside = 0;
}

pub toy-IsBounded : IsBounded toy
toy-IsBounded = record {
  left = λ b. b;
  starts = λ first longest n s. omega arith;
  counts = λ b s h. ground arith;
}

abbrev pub env_after : Env toy
env_after = record {
  registry_cache = record {
    ttl = 10;
    entries = (web_name, record { info = web; expiry = 10 }) ∷ [];
  };
  peer_cache = add_peer (peer_for web_name web (codes "near")) (cache [] [] []);
  outside = 3;
}

-- A proxy in the middle: what comes in on `in` asks for a chain, and any other stream acknowledges it.
abbrev pub between : List Bytes → Net
between spec = record (net (record { type = setup_ack; payload = codes "Reverse chain: web" })) {
  recv_msg = λ stream s. (
    ok (
        if same stream (codes "in")
        then record { type = setup_request; payload = encode spec }
        else record { type = setup_ack; payload = codes "Reverse chain: web" }),
    s,
  );
}
