-- ===== src/Chain/Message/RoundTrip.antt =====
-- Round trips of the messages of l4-proxy/chain-setup.go.
use go_code_goes_here.Prelude.{◌≡◌, refl, ap, Bytes, List, Option, none, some, Lacks, if◌then◌else◌}
use go_code_goes_here.World.{ok, err, wrong_message}
use go_code_goes_here.Chain.Message.{
  ChainMsgType, error_msg, setup_request, setup_ack, data_msg, unnamed, same_type, ChainMsg, Object,
  an_error, a_string, strings, some_bytes, Codec, blank, encode_chain_data, decode_chain_data,
  new_chain_error, new_chain_setup_request, new_chain_setup_ack, new_chain_data, expect_type,
  accept_setup_request, accept_setup_ack, accept_data,
}

-- What the packages document: gob decodes what it encoded, and a format without a percent sign is its
-- own text.
pub record IsLawful (codec : Codec) : Type 0 where
  pub decodes : (spec : List Bytes) → codec.gob_decode (codec.gob_encode spec) ≡ spec
  pub formats : (text : Bytes) → Lacks b'%' text → codec.errorf text ≡ text

-- What a message of a type is meant to carry of an object.
abbrev pub carried : ChainMsgType → Object → Option Object
carried error_msg (an_error text) = some (an_error text)
carried error_msg (a_string text) = some (an_error text)
carried setup_request (strings spec) = some (strings spec)
carried setup_ack (a_string text) = some (a_string text)
carried data_msg (some_bytes d) = some (some_bytes d)
carried _ _ = none

-- An object whose text, where it has one, holds no percent sign.
abbrev pub IsPlain : Object → Type 0
IsPlain (an_error text) = Lacks b'%' text
IsPlain (a_string text) = Lacks b'%' text
IsPlain (strings spec) = Unit
IsPlain (some_bytes d) = Unit

abbrev pub received : (codec : Codec) → ChainMsgType → Object → Option Object
received codec t obj =
    let (msg, encoded) = encode_chain_data codec (blank t) obj in
    if encoded then decode_chain_data codec (some msg) else none

module _ (codec : Codec) where
  -- Decoding what was encoded for a type of message gives the object back, as an error where the
  -- message is one, and an object that does not fit the type is refused; where gob decodes what it
  -- encoded, formats without a percent sign are their own texts, and the object's text holds none.
  pub decode-encode :
      (t : ChainMsgType) (obj : Object)
      → IsLawful codec
      → IsPlain obj
      → received codec t obj ≡ carried t obj
  unfolding encode_chain_data decode_chain_data
  decode-encode error_msg (an_error text) laws h = ap (λ x. some (an_error x)) (laws.formats text h)
  decode-encode error_msg (a_string text) laws h = ap (λ x. some (an_error x)) (laws.formats text h)
  decode-encode error_msg (strings spec) laws h = refl
  decode-encode error_msg (some_bytes d) laws h = refl
  decode-encode setup_request (an_error text) laws h = refl
  decode-encode setup_request (a_string text) laws h = refl
  decode-encode setup_request (strings spec) laws h = ap (λ x. some (strings x)) (laws.decodes spec)
  decode-encode setup_request (some_bytes d) laws h = refl
  decode-encode setup_ack (an_error text) laws h = refl
  decode-encode setup_ack (a_string text) laws h = refl
  decode-encode setup_ack (strings spec) laws h = refl
  decode-encode setup_ack (some_bytes d) laws h = refl
  decode-encode data_msg (an_error text) laws h = refl
  decode-encode data_msg (a_string text) laws h = refl
  decode-encode data_msg (strings spec) laws h = refl
  decode-encode data_msg (some_bytes d) laws h = refl
  decode-encode (unnamed n) (an_error text) laws h = refl
  decode-encode (unnamed n) (a_string text) laws h = refl
  decode-encode (unnamed n) (strings spec) laws h = refl
  decode-encode (unnamed n) (some_bytes d) laws h = refl

  abbrev TakesOwnType : ChainMsg → Type 0
  TakesOwnType msg =
      (accept_setup_request codec msg ≡ (
        if same_type msg.type setup_request
        then ok (codec.gob_decode msg.payload)
        else err wrong_message))
      × ((accept_setup_ack codec msg
            ≡ (if same_type msg.type setup_ack then ok msg.payload else err wrong_message))
          × (accept_data codec msg
              ≡ (if same_type msg.type data_msg then ok msg.payload else err wrong_message)))

  takes : (t : ChainMsgType) (d : Bytes) → TakesOwnType (record { type = t; payload = d })
  unfolding accept_setup_request accept_setup_ack accept_data decode_chain_data expect_type
      same_type
  takes error_msg d = (refl, (refl, refl))
  takes setup_request d = (refl, (refl, refl))
  takes setup_ack d = (refl, (refl, refl))
  takes data_msg d = (refl, (refl, refl))
  takes (unnamed t) d = (refl, (refl, refl))

  -- Each of the three receivers takes a message exactly if it is of the type that it waits for, and
  -- then returns what the payload of such a message stands for.
  pub accepts_own_type :
      (msg : ChainMsg)
      → (accept_setup_request codec msg ≡ (
          if same_type msg.type setup_request
          then ok (codec.gob_decode msg.payload)
          else err wrong_message))
        × ((accept_setup_ack codec msg
              ≡ (if same_type msg.type setup_ack then ok msg.payload else err wrong_message))
            × (accept_data codec msg
                ≡ (if same_type msg.type data_msg then ok msg.payload else err wrong_message)))
  accepts_own_type msg = takes msg.type msg.payload

  -- Where gob decodes what it encoded: a setup request, an acknowledgement and data, as the
  -- constructors make them, come back from their receivers as they were sent; the receivers of
  -- acknowledgements and of data refuse each other's messages, and all three receivers refuse an
  -- error.
  pub messages_told_apart :
      (spec : List Bytes) (text d : Bytes)
      → IsLawful codec
      → (elim (new_chain_setup_request codec spec) [
        | none ↦ err wrong_message
        | some m ↦ accept_setup_request codec m
      ]
          ≡ ok spec)
        × ((accept_setup_ack codec (new_chain_setup_ack codec text) ≡ ok text)
            × ((accept_data codec (new_chain_data codec d) ≡ ok d)
                × ((accept_setup_ack codec (new_chain_data codec d) ≡ err wrong_message)
                    × ((accept_data codec (new_chain_setup_ack codec text) ≡ err wrong_message)
                        × ((accept_setup_ack codec (new_chain_error codec text) ≡ err wrong_message)
                            × ((accept_data codec (new_chain_error codec text) ≡ err wrong_message)
                                × (accept_setup_request codec (new_chain_error codec text)
                                    ≡ err wrong_message)))))))
  unfolding new_chain_setup_request new_chain_setup_ack new_chain_data new_chain_error
      accept_setup_request accept_setup_ack accept_data encode_chain_data decode_chain_data
      expect_type same_type
  messages_told_apart spec text d laws =
      (ap (λ x. ok x) (laws.decodes spec), (refl, (refl, (refl, (refl, (refl, (refl, refl)))))))
