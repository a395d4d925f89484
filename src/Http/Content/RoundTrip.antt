-- ===== src/Http/Content/RoundTrip.antt =====
-- What the inner handler and the client can read.
use Prim.Native.String.{String}
use text.Mathlib.Text.{◌==◌ as str_eq}
use monolake.Base.{
  Bool, true, false, Option, none, some, ◌==◌, ok, Option-cases, ◌⊎◌, inl, inr, ◌≡◌, refl,
}
use monolake.Http.Message.{HeaderMaps, Request, Response, content_length, generate_response}
use monolake.Http.Content.{
  Codecs, content_encoding, accept_encoding, identity, Handler, encoding_of, length_of, text_of,
  encoded, call,
}

-- An encoding can be undone, and gives back what the body holds.
pub record CodecLaws {B Data : Type 0} (k : Codecs B Data) (held : Option B → Data) : Type 0 where
  pub decode-encode :
      (body : Option B) (encoding : String) (bytes : Data)
      → k.encode_content body encoding ≡ some bytes
      → k.decode_content (k.fixed_body bytes) encoding ≡ some (held body)

module _ (h : HeaderMaps) (B Data : Type 0) (k : Codecs B Data) (CX E : Type 0) where
  -- A request with a body in an encoding other than identity, which can be decoded; the inner handler
  -- answers to the request with the decoded body, and the client accepts an encoding other than identity.
  -- Then the client gets the handler's response with a body that decodes to what the handler's body
  -- holds; or, if the body cannot be encoded, a response with status 500. The connection goes on, whatever
  -- the inner handler has said.
  pub call-round_trip :
      (held : Option B → Data) (laws : CodecLaws k held) (inner : Handler h B Data k CX E)
      (request : Request h B) (ctx : CX) (bytes : Data) (response : Response h B) (cont : Bool)
      → (length_of h B Data k CX E (text_of h B Data k CX E (h.get request.headers content_length))
          == 0)
        ≡ false
      → str_eq (encoding_of h B Data k CX E content_encoding request.headers) identity ≡ false
      → k.decode_content request.body (encoding_of h B Data k CX E content_encoding request.headers)
        ≡ some bytes
      → inner (record request { body = k.fixed_body bytes }) ctx ≡ ok (response, cont)
      → str_eq (encoding_of h B Data k CX E accept_encoding request.headers) identity ≡ false
      → ((answer : Response h B) × (body : B) × (call h B Data k CX E inner request ctx
            ≡ ok (answer, true))
          × (answer.body ≡ some body)
          × (k.decode_content body (encoding_of h B Data k CX E accept_encoding request.headers)
              ≡ some (held response.body))
          × (answer.status ≡ response.status)
          × (answer.headers ≡ response.headers))
        ⊎ ((k.encode_content response.body
                (encoding_of h B Data k CX E accept_encoding request.headers)
              ≡ none)
            × (call h B Data k CX E inner request ctx ≡ ok (generate_response h B 500 false, true)))
  unfolding call encoded
  call-round_trip held laws inner request ctx bytes response cont long coded decodes handles wants =
      let accept = encoding_of h B Data k CX E accept_encoding request.headers in
      elim (Option-cases (k.encode_content response.body accept)) [
        | inl e ↦
            inr
              (e, rw (long, call) (rw coded (rw decodes (rw handles (rw (wants, encoded) (rw e))))))
        | inr (out, e) ↦ inl (
          record response { body = some (k.fixed_body out) },
          k.fixed_body out,
          rw (long, call) (rw coded (rw decodes (rw handles (rw (wants, encoded) (rw e))))),
          refl,
          laws.decode-encode response.body accept out e,
          refl,
          refl,
        )
      ]
