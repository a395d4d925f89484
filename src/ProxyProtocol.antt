-- ===== src/ProxyProtocol.antt =====
-- monolake-services/src/proxy_protocol/mod.rs: `ProxyProtocolService::call`, which takes a PROXY
-- protocol header off the start of a connection.
pub mod Header
pub mod Magic
pub mod Accept
mod Examples
use monolake.Base.{
  ℕ, zero, suc, ◌+◌, ◌-◌, ◌≤◌, min, Bool, true, false, List, [], ◌∷◌, ◌++◌, Option, none, some,
  ◌==◌, ltb, if◌then◌else◌, length, Result, ok, err, ◌≡◌,
}
use monolake.Stream.{Streams, PrefixedReadIo, slice, same, drop}

-- Of the crate `proxy_protocol`: the errors that the code tells apart, and the headers.
pub data ParseError : Type 0 where
  not_proxy_header version1_unexpected_eof version2_unexpected_eof other_error : ParseError

pub data ProxyAddresses (Addr : Type 0) : Type 0 where
  ipv4 ipv6 : Addr → ProxyAddresses Addr
  no_source : ProxyAddresses Addr

pub data ProxyHeader (Addr : Type 0) : Type 0 where
  version1 version2 : ProxyAddresses Addr → ProxyHeader Addr
  unknown_version : ProxyHeader Addr

pub record Parser : Type 1 where
  pub Addr : Type 0
  pub parse : List ℕ → Result (ProxyHeader Addr × ℕ) ParseError

-- The cursor's position after a header lies in the bytes parsed.
pub record ParserLaws (p : Parser) : Type 0 where
  pub parse_fits :
      (bytes : List ℕ) (header : ProxyHeader p.Addr) (n : ℕ)
      → p.parse bytes ≡ ok (header, n)
      → n ≤ length bytes

-- A computation that may panic, and may not end on the fuel it was given.
pub data Run (A : Type 0) : Type 0 where
  panics unfinished : Run A
  returns : A → Run A

abbrev pub v1_header : List ℕ
v1_header = 80 ∷ 82 ∷ 79 ∷ 88 ∷ 89 ∷ 32 ∷ []

abbrev pub v2_header : List ℕ
v2_header = 13 ∷ 10 ∷ 13 ∷ 10 ∷ 0 ∷ 13 ∷ 10 ∷ 81 ∷ 85 ∷ 73 ∷ 84 ∷ 10 ∷ []

abbrev pub max_header_size : ℕ
max_header_size = 230

-- `a[i..j] == b[i..j]`; `none` is a panic.
abbrev pub same_slice : List ℕ → List ℕ → ℕ → ℕ → Option Bool
same_slice xs ys i j = elim (slice xs i j) [
  | none ↦ none
  | some u ↦ elim (slice ys i j) [ none ↦ none | some v ↦ some (same u v) ]
]

-- The errors on which the loop reads again.
abbrev pub is_incomplete : ParseError → Bool
is_incomplete not_proxy_header = true
is_incomplete version1_unexpected_eof = true
is_incomplete version2_unexpected_eof = true
is_incomplete other_error = false

-- The magic of which the bytes may be the start, chosen by the first of them.
abbrev pub matched : List ℕ → List ℕ → Option (Option (List ℕ))
matched target buffer = elim (same_slice buffer target 1 (min (length buffer) (length target))) [
  | none ↦ none
  | some eq ↦ some (if eq then some target else none)
]

pub target_header : List ℕ → Option (Option (List ℕ))
target_header [] = none
target_header (b ∷ bs) =
    if b == 80
    then matched v1_header (b ∷ bs)
    else (if b == 13 then matched v2_header (b ∷ bs) else some none)

abbrev pub source_of : {Addr : Type 0} → ProxyHeader Addr → Option Addr
source_of (version1 (ipv4 source)) = some source
source_of (version1 (ipv6 source)) = some source
source_of (version1 no_source) = none
source_of (version2 (ipv4 source)) = some source
source_of (version2 (ipv6 source)) = some source
source_of (version2 no_source) = none
source_of unknown_version = none

module _ (s : Streams) (p : Parser) where
  open s use {IO, Error, read}
  open p use {Addr, parse}

  pub data Failure : Type 0 where
    io_error : Error → Failure
    parse_error : ParseError → Failure

  -- What the loop leaves with: the parsed header and its length, if any, the stream and the buffer.
  abbrev pub Found : Type 0
  Found = Option (ProxyHeader Addr × ℕ) × IO × List ℕ

  -- The rest of a turn of the loop after a read.
  abbrev pub after_read :
      List ℕ → IO → List ℕ → ℕ → ℕ → Run (Result Found Failure) → Run (Result Found Failure)
  after_read target io buffer pos read_ next =
      elim (if ltb pos (length target)
        then same_slice buffer target pos (min (length target) (pos + read_))
        else some true) [
          | none ↦ panics
          | some false ↦ returns (ok (none, io, buffer))
          | some true ↦
              if pos + read_ == max_header_size
              then returns (err (parse_error not_proxy_header))
              else next
        ]

  -- `loop {parse; read; check_full;}`
  pub header_loop : ℕ → List ℕ → IO → List ℕ → ℕ → Run (Result Found Failure)
  header_loop zero target io buffer pos = unfinished
  header_loop (suc fuel) target io buffer pos = elim (parse buffer) [
    | ok (header, n) ↦ returns (ok (some (header, n), io, buffer))
    | err e ↦
        if is_incomplete e
        then (elim (read io (max_header_size - pos)) [
          | err x ↦ returns (err (io_error x))
          | ok (bytes, io') ↦
              after_read target io' (buffer ++ bytes) pos (length bytes)
                (header_loop fuel target io' (buffer ++ bytes) (pos + length bytes))
        ])
        else returns (ok (none, io, buffer))
  ]

  abbrev pub Accepted : Type 0
  Accepted = PrefixedReadIo s × Option Addr

  -- The cursor over the buffer, past the header if there was one, and the remote address.
  abbrev pub accepted : Found → Accepted
  accepted (none, io, buffer) = (record { io = io; prefix = buffer }, none)
  accepted (some (header, n), io, buffer) =
      (record { io = io; prefix = drop n buffer }, source_of header)

  abbrev pub with_target : ℕ → Option (Option (List ℕ)) → IO → List ℕ → Run (Result Found Failure)
  with_target fuel none io buffer = panics
  with_target fuel (some none) io buffer = returns (ok (none, io, buffer))
  with_target fuel (some (some target)) io buffer =
      header_loop fuel target io buffer (length buffer)

  abbrev pub finish : Run (Result Found Failure) → Run (Result Accepted Failure)
  finish panics = panics
  finish unfinished = unfinished
  finish (returns (ok f)) = returns (ok (accepted f))
  finish (returns (err x)) = returns (err x)

  -- `call` up to the call of the inner service, which takes what this returns.
  pub accept : ℕ → IO → Run (Result Accepted Failure)
  accept fuel io = elim (read io max_header_size) [
    | err x ↦ returns (err (io_error x))
    | ok (buffer, io') ↦ finish (with_target fuel (target_header buffer) io' buffer)
  ]
