-- ===== src/ProxyProtocol/Examples.antt =====
-- The PROXY protocol at concrete values: a parser that takes a header of ten bytes from any ten.
use monolake.Base.{ℕ, List, [], ◌∷◌, ok, err, ◌≡◌, refl, arith, length, if◌then◌else◌, leb}
use monolake.Detect.Examples.{bytes, bytes-laws, bytes-stays_ended}
use monolake.ProxyProtocol.{
  Parser, version1, ipv4, not_proxy_header, unfinished, v1_header, header_loop,
}
use monolake.ProxyProtocol.Magic.{Goes}
use monolake.ProxyProtocol.Header.{Ends, header_loop-Ends, header_loop-stuck}

abbrev ten : Parser
ten = record {
  Addr = ℕ;
  parse = λ bs. if leb 10 (length bs) then ok (version1 (ipv4 127), 10) else err not_proxy_header;
}

-- PROXY and nine more bytes.
abbrev connection : List ℕ
connection = 80 ∷ 82 ∷ 79 ∷ 88 ∷ 89 ∷ 32 ∷ 1 ∷ 2 ∷ 3 ∷ 4 ∷ 5 ∷ 6 ∷ []

header_loop-Ends_example : Ends bytes bytes-laws ten v1_header connection (
    header_loop bytes ten 230 v1_header
      (82 ∷ 79 ∷ 88 ∷ 89 ∷ 32 ∷ 1 ∷ 2 ∷ 3 ∷ 4 ∷ 5 ∷ 6 ∷ [])
      (80 ∷ [])
      1)
unfolding Goes
header_loop-Ends_example =
    header_loop-Ends bytes bytes-laws ten bytes-stays_ended 230 v1_header
      (82 ∷ 79 ∷ 88 ∷ 89 ∷ 32 ∷ 1 ∷ 2 ∷ 3 ∷ 4 ∷ 5 ∷ 6 ∷ []) (80 ∷ []) (omega arith) (omega arith)
      refl

header_loop-stuck_example : header_loop bytes ten 1000 v1_header [] (80 ∷ 82 ∷ []) 2 ≡ unfinished
header_loop-stuck_example =
    header_loop-stuck bytes bytes-laws ten 1000 v1_header [] (80 ∷ 82 ∷ []) not_proxy_header
      (omega arith) refl refl refl
