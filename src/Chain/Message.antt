-- ===== src/Chain/Message.antt =====
-- The messages of l4-proxy/chain-setup.go, and their payloads.
pub mod RoundTrip
use go_code_goes_here.Prelude.{
  ℕ, ◌≡◌, Bytes, codes, Bool, true, false, List, [], ◌∷◌, Option, none, some, same, if◌then◌else◌,
}
use go_code_goes_here.World.{Error, Result, ok, err, wrong_message}

-- ChainMsgType, an int; a number with no name is given by its decimal text.
pub data ChainMsgType : Type 0 where
  error_msg setup_request setup_ack data_msg : ChainMsgType
  unnamed : Bytes → ChainMsgType

-- String
unfoldable pub type_text : ChainMsgType → Bytes
type_text error_msg = codes "Error"
type_text setup_request = codes "SetupRequest"
type_text setup_ack = codes "SetupACK"
type_text data_msg = codes "Data"
type_text (unnamed d) = d

-- `==` on ChainMsgType
unfoldable pub same_type : ChainMsgType → ChainMsgType → Bool
same_type error_msg error_msg = true
same_type setup_request setup_request = true
same_type setup_ack setup_ack = true
same_type data_msg data_msg = true
same_type (unnamed d) (unnamed e) = same d e
same_type _ _ = false

pub record ChainMsg : Type 0 where
  pub type : ChainMsgType
  pub payload : Bytes

-- The values of type interface{} that the payloads are made of; an error is its text.
pub data Object : Type 0 where
  an_error : Bytes → Object
  a_string : Bytes → Object
  strings : List Bytes → Object
  some_bytes : Bytes → Object

-- encoding/gob on a []string, where a failed decoding leaves the slice nil, and fmt.Errorf on a format
-- without arguments.
pub record Codec : Type 0 where
  pub gob_encode : List Bytes → Bytes
  pub gob_decode : Bytes → List Bytes
  pub errorf : Bytes → Bytes

abbrev pub blank : ChainMsgType → ChainMsg
blank t = record { type = t; payload = [] }

module _ (codec : Codec) where
  open codec use {gob_encode, gob_decode, errorf}

  -- The payload for an object in a message of a type, `none` where EncodeChainData returns an error.
  payload_of : ChainMsgType → Object → Option Bytes
  payload_of error_msg (an_error text) = some text
  payload_of error_msg (a_string text) = some text
  payload_of setup_request (strings spec) = some (gob_encode spec)
  payload_of setup_ack (a_string text) = some text
  payload_of data_msg (some_bytes d) = some d
  payload_of _ _ = none

  -- EncodeChainData: the message afterwards, and whether there was no error.
  unfoldable pub encode_chain_data : ChainMsg → Object → ChainMsg × Bool
  unfolding payload_of
  encode_chain_data msg obj = elim (payload_of msg.type obj) [
    | none ↦ (msg, false)
    | some d ↦ (record { type = msg.type; payload = d }, true)
  ]

  read_payload : ChainMsgType → Bytes → Option Object
  read_payload error_msg d = some (an_error (errorf d))
  read_payload setup_request d = some (strings (gob_decode d))
  read_payload setup_ack d = some (a_string d)
  read_payload data_msg d = some (some_bytes d)
  read_payload (unnamed t) d = none

  -- DecodeChainData, where the argument is `none` for nil, and so is the result for an error.
  unfoldable pub decode_chain_data : Option ChainMsg → Option Object
  unfolding read_payload
  decode_chain_data none = none
  decode_chain_data (some msg) = read_payload msg.type msg.payload

  -- NewChainError, of an error's text; the constructors only log a failed encoding.
  unfoldable pub new_chain_error : Bytes → ChainMsg
  new_chain_error text = (encode_chain_data (blank error_msg) (a_string text)).0

  -- NewChainSetupRequest
  unfoldable pub new_chain_setup_request : List Bytes → Option ChainMsg
  new_chain_setup_request spec =
      let (msg, encoded) = encode_chain_data (blank setup_request) (strings spec) in
      if encoded then some msg else none

  -- NewChainSetupACK
  unfoldable pub new_chain_setup_ack : Bytes → ChainMsg
  new_chain_setup_ack debug = (encode_chain_data (blank setup_ack) (a_string debug)).0

  -- NewChainData
  unfoldable pub new_chain_data : Bytes → ChainMsg
  new_chain_data d = (encode_chain_data (blank data_msg) (some_bytes d)).0

  -- expectTypePrintErr, which logs where it answers false.
  unfoldable pub expect_type : ChainMsg → ChainMsgType → Bool
  expect_type cm ct = same_type cm.type ct

  -- What receiveSetupRequest, receiveSetupACK and receiveData make of a message that came.
  unfoldable pub accept_setup_request : ChainMsg → Result (List Bytes)
  accept_setup_request msg =
      if expect_type msg setup_request
      then elim (decode_chain_data (some msg)) [
        | some (strings spec) ↦ ok spec
        | _ ↦ err wrong_message
      ]
      else err wrong_message

  unfoldable pub accept_setup_ack : ChainMsg → Result Bytes
  accept_setup_ack msg =
      if expect_type msg setup_ack
      then elim (decode_chain_data (some msg)) [
        | some (a_string text) ↦ ok text
        | _ ↦ err wrong_message
      ]
      else err wrong_message

  unfoldable pub accept_data : ChainMsg → Result Bytes
  accept_data msg =
      if expect_type msg data_msg
      then elim (decode_chain_data (some msg)) [
        | some (some_bytes d) ↦ ok d
        | _ ↦ err wrong_message
      ]
      else err wrong_message
