-- ===== src/Http/Message.antt =====
-- Requests and responses of the crate `http`, over its header maps, and `generate_response` of
-- monolake-services/src/http/util.rs. A header value is a list of bytes.
use Prim.Native.String.{String}
use text.Mathlib.Text.{◌==◌ as str_eq}
use monolake.Base.{
  ℕ, ◌+◌, Bool, true, false, ◌&&◌, List, [], ◌∷◌, Option, none, some, ◌==◌, leb, if◌then◌else◌, ◌≡◌,
}

-- `HeaderMap`: `get` gives the first value of a name, `insert` puts one value in place of all of the
-- name's, `remove` takes all of them away.
pub record HeaderMaps : Type 1 where
  pub Map : Type 0
  pub empty : Map
  pub get : Map → String → Option (List ℕ)
  pub insert : Map → String → List ℕ → Map
  pub remove : Map → String → Map

pub record HeaderLaws (h : HeaderMaps) : Type 0 where
  pub get-empty : (n : String) → h.get h.empty n ≡ none
  pub get-insert :
      (m : h.Map) (n k : String) (v : List ℕ)
      → h.get (h.insert m n v) k ≡ (if str_eq n k then some v else h.get m k)
  pub get-remove :
      (m : h.Map) (n k : String) → h.get (h.remove m n) k ≡ (if str_eq n k then none else h.get m k)

pub data Version : Type 0 where
  http_09 http_10 http_11 http_2 http_3 : Version

abbrev pub connection : String
connection = "connection"

abbrev pub content_length : String
content_length = "content-length"

-- `CLOSE`, `KEEPALIVE` and the value 0, as bytes.
abbrev pub close_value : List ℕ
close_value = 99 ∷ 108 ∷ 111 ∷ 115 ∷ 101 ∷ []

abbrev pub keepalive_value : List ℕ
keepalive_value = 75 ∷ 101 ∷ 101 ∷ 112 ∷ 45 ∷ 65 ∷ 108 ∷ 105 ∷ 118 ∷ 101 ∷ []

abbrev pub zero_value : List ℕ
zero_value = 48 ∷ []

-- `eq_ignore_ascii_case`.
abbrev pub lower : ℕ → ℕ
lower c = if leb 65 c && leb c 90 then c + 32 else c

abbrev pub eq_ignore_ascii_case : List ℕ → List ℕ → Bool
eq_ignore_ascii_case [] [] = true
eq_ignore_ascii_case [] (d ∷ ds) = false
eq_ignore_ascii_case (c ∷ cs) [] = false
eq_ignore_ascii_case (c ∷ cs) (d ∷ ds) = lower c == lower d && eq_ignore_ascii_case cs ds

module _ (h : HeaderMaps) (B : Type 0) where
  -- The URI is its text.
  pub record Request : Type 0 where
    pub version : Version
    pub uri : String
    pub headers : h.Map
    pub body : B

  pub record Response : Type 0 where
    pub status : ℕ
    pub version : Version
    pub headers : h.Map
    pub body : Option B

  -- `ResponseWithContinue`.
  abbrev pub ResponseWithContinue : Type 0
  ResponseWithContinue = Response × Bool

  -- `Response::builder` makes an HTTP/1.1 response.
  unfoldable pub generate_response : ℕ → Bool → Response
  generate_response status_code close = record {
    status = status_code;
    version = http_11;
    headers =
        h.insert (if close then h.insert h.empty connection close_value else h.empty) content_length
          zero_value;
    body = none;
  }
