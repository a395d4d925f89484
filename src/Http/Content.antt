-- ===== src/Http/Content.antt =====
-- monolake-services/src/http/handlers/content_handler.rs: `ContentHandler::call`.
mod RoundTrip
mod Examples
use Prim.Native.String.{String}
use text.Mathlib.Text.{◌==◌ as str_eq}
use monolake.Base.{
  ℕ, Bool, true, false, ◌||◌, List, Option, none, some, ◌==◌, if◌then◌else◌, Result, ok, err,
}
use monolake.Http.Message.{
  HeaderMaps, Request, Response, ResponseWithContinue, content_length, generate_response,
}

abbrev pub content_encoding : String
content_encoding = "content-encoding"

abbrev pub accept_encoding : String
accept_encoding = "accept-encoding"

abbrev pub identity : String
identity = "identity"

-- The body codecs of monoio-http, by the name of the encoding, and the values of headers as text. `none`
-- is an error. `Data` is what a body holds in memory, `B` a request's body; a response may have none.
pub record Codecs (B Data : Type 0) : Type 0 where
  pub to_str : List ℕ → Option String
  pub parse_usize : String → Option ℕ
  pub fixed_body : Data → B
  pub decode_content : B → String → Option Data
  pub encode_content : Option B → String → Option Data

module _ (h : HeaderMaps) (B Data : Type 0) (k : Codecs B Data) (CX E : Type 0) where
  -- A header's text.
  abbrev pub text_of : Option (List ℕ) → Option String
  text_of none = none
  text_of (some value) = k.to_str value

  abbrev pub or_identity : Option String → String
  or_identity (some s) = s
  or_identity none = identity

  abbrev pub length_of : Option String → ℕ
  length_of none = 0
  length_of (some s) = elim (k.parse_usize s) [ some n ↦ n | none ↦ 0 ]

  abbrev pub encoding_of : String → h.Map → String
  encoding_of name headers = or_identity (text_of (h.get headers name))

  abbrev pub Handler : Type 0
  Handler = Request h B → CX → Result (ResponseWithContinue h B) E

  -- The response with its body encoded, if the client accepts an encoding.
  pub encoded : String → Response h B → ResponseWithContinue h B
  encoded accept response =
      if str_eq accept identity
      then (response, true)
      else elim (k.encode_content response.body accept) [
        | none ↦ (generate_response h B 500 false, true)
        | some bytes ↦ (record response { body = some (k.fixed_body bytes) }, true)
      ]

  pub call : Handler → Request h B → CX → Result (ResponseWithContinue h B) E
  call inner request ctx =
      let encoding = encoding_of content_encoding request.headers in
      let accept = encoding_of accept_encoding request.headers in
      if length_of (text_of (h.get request.headers content_length)) == 0 || str_eq encoding identity
      then elim (inner request ctx) [ err e ↦ err e | ok (response, cont) ↦ ok (response, true) ]
      else elim (k.decode_content request.body encoding) [
        | none ↦ ok (generate_response h B 400 false, true)
        | some bytes ↦ elim (inner (record request { body = k.fixed_body bytes }) ctx) [
          | err e ↦ err e
          | ok (response, cont) ↦ ok (encoded accept response)
        ]
      ]
