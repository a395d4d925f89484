-- ===== src/Http/Content/Examples.antt =====
-- A codec that adds one to a body, which is a number.
use monolake.Base.{
  ℕ, zero, suc, true, false, [], Option, none, some, Result, ok, some-inj, ◌≡◌, refl,
}
use mathlib.Core.Path.{subst}
use monolake.Http.Fixtures.{functions}
use monolake.Http.Message.{Request, Response, ResponseWithContinue, http_11}
use monolake.Http.Content.{Codecs, call, encoded}
use monolake.Http.Content.RoundTrip.{CodecLaws}

abbrev held : Option ℕ → ℕ
held none = 0
held (some n) = n

abbrev codecs : Codecs ℕ ℕ
codecs = record {
  to_str = λ value. some "gzip";
  parse_usize = λ s. some 7;
  fixed_body = λ n. n;
  decode_content = λ b encoding. elim b [ zero ↦ none | suc n ↦ some n ];
  encode_content = λ body encoding. some (suc (held body));
}

codecs-laws : CodecLaws codecs held
codecs-laws = record {
  decode-encode = λ body encoding bytes e.
      subst (λ b. codecs.decode_content b encoding ≡ some (held body)) (some-inj e) refl;
}

abbrev request : Request functions ℕ
request = record { version = http_11; uri = "/"; headers = λ n. some []; body = 5 }

abbrev reply : Response functions ℕ
reply = record { status = 200; version = http_11; headers = λ n. none; body = some 8 }

abbrev inner : Request functions ℕ → ℕ → Result (ResponseWithContinue functions ℕ) ℕ
inner r cx = ok (record reply { status = r.body }, false)

-- The same request, through the handler: decoded, handled and encoded again.
called :
    call functions ℕ ℕ codecs ℕ ℕ inner request 0
    ≡ ok (record reply { status = 4; body = some (suc (held reply.body)) }, true)
unfolding call encoded
called = refl
