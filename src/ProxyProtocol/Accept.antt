-- ===== src/ProxyProtocol/Accept.antt =====
-- A connection as it is handed to the inner service.
use monolake.Base.{ℕ, ◌≤◌, List, [], ◌++◌, Option, none, some, length, Result, ok, err, ◌≡◌, ◌⊎◌}
use monolake.Stream.{Streams, StreamLaws, content, drop}
use monolake.ProxyProtocol.{
  Parser, ParserLaws, Run, panics, unfinished, returns, max_header_size, v1_header, v2_header,
  target_header, source_of, Failure, Accepted, accept,
}
use monolake.ProxyProtocol.Header.{Stalls}
use monolake.ProxyProtocol.Magic.{Goes}

-- What looking for a header at its first byte gives: no magic, or one that goes on.
abbrev Looked : List ℕ → Option (List ℕ) → Type 0
Looked buffer none = Unit {0}
Looked buffer (some target) = ((target ≡ v1_header) ⊎ (target ≡ v2_header)) × Goes target buffer

module _ (s : Streams) (laws : StreamLaws s) (p : Parser) (plaws : ParserLaws p) where
  open s use {IO, Error, read, rest}

  -- Either all of the stream is handed on, with no address; or all of it after a header that was
  -- parsed, with the header's source.
  abbrev pub HandsOn : List ℕ → Result (Accepted s p) (Failure s p) → Type 0
  HandsOn bytes (ok (io, addr)) =
      ((content io ≡ bytes) × (addr ≡ none))
      ⊎ ((header : _) × (n : ℕ) × (buffer after : List ℕ) × (bytes ≡ buffer ++ after)
          × (p.parse buffer ≡ ok (header, n))
          × (n ≤ length buffer)
          × (content io ≡ drop n bytes)
          × (addr ≡ source_of header))
  HandsOn bytes (err x) = Unit {0}

  -- The service does not end, on a connection that begins like one of the two magics.
  abbrev pub Hangs : List ℕ → Type 0
  Hangs bytes =
      (target : List ℕ) × ((target ≡ v1_header) ⊎ (target ≡ v2_header))
      × Stalls s laws p target bytes

  abbrev AcceptEnds : List ℕ → Run (Result (Accepted s p) (Failure s p)) → Type 0
  AcceptEnds bytes r =
      ((f : Result (Accepted s p) (Failure s p)) × (r ≡ returns f) × HandsOn bytes f)
      ⊎ ((r ≡ unfinished) × Hangs bytes)

  -- A connection that is closed before its first byte makes the service panic.
  pub accept-closed :
      (fuel : ℕ) (io io' : IO)
      → read io max_header_size ≡ ok ([], io')
      → accept s p fuel io ≡ panics
  unfolding accept target_header
  accept-closed fuel io io' e = rw (e, accept)
