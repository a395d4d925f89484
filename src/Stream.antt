-- ===== src/Stream.antt =====
-- The reading half of a connection, as monoio's `AsyncReadRent` gives it to the detectors and to the
-- PROXY protocol: bytes are numbers, and `rest` are the bytes that a stream will still give.
use monolake.Base.{
  ℕ, zero, suc, ◌-◌, ◌≤◌, ◌<◌, Bool, true, false, ◌&&◌, List, [], ◌∷◌, ◌++◌, Option, none, some,
  ◌==◌, leb, if◌then◌else◌, length, Result, ok, ◌≡◌, refl, ap, arith,
}

pub record Streams : Type 1 where
  pub IO : Type 0
  pub Error : Type 0
  pub read : IO → ℕ → Result (List ℕ × IO) Error
  pub rest : IO → List ℕ

-- A read gives at most as many bytes as it has room for, the next ones of the stream, and none only
-- at the end or without room.
pub record StreamLaws (s : Streams) : Type 0 where
  pub read_fits :
      (io io' : s.IO) (room : ℕ) (bs : List ℕ) → s.read io room ≡ ok (bs, io') → length bs ≤ room
  pub read_next :
      (io io' : s.IO) (room : ℕ) (bs : List ℕ)
      → s.read io room ≡ ok (bs, io')
      → s.rest io ≡ bs ++ s.rest io'
  pub read_end :
      (io io' : s.IO) (room : ℕ) → s.read io room ≡ ok ([], io') → 0 < room → s.rest io ≡ []

-- A stream at its end stays there.
pub record StaysEnded (s : Streams) : Type 0 where
  pub read_ended :
      (io io' : s.IO) (room : ℕ)
      → s.read io room ≡ ok ([], io')
      → 0 < room
      → (again : ℕ) → s.read io' again ≡ ok ([], io')

-- `PrefixedReadIo` over a cursor: the bytes of the cursor, then those of the stream.
pub record PrefixedReadIo (s : Streams) : Type 0 where
  pub io : s.IO
  pub prefix : List ℕ

abbrev pub content : {s : Streams} → PrefixedReadIo s → List ℕ
content {s} p = p.prefix ++ s.rest p.io

abbrev pub take : ℕ → List ℕ → List ℕ
take zero xs = []
take (suc n) [] = []
take (suc n) (x ∷ xs) = x ∷ take n xs

abbrev pub drop : ℕ → List ℕ → List ℕ
drop zero xs = xs
drop (suc n) [] = []
drop (suc n) (x ∷ xs) = drop n xs

-- `&xs[a..b]`, which panics beyond the end or when `b` is less than `a`.
abbrev pub slice : List ℕ → ℕ → ℕ → Option (List ℕ)
slice xs a b = if leb a b && leb b (length xs) then some (take (b - a) (drop a xs)) else none

abbrev pub same : List ℕ → List ℕ → Bool
same [] [] = true
same [] (y ∷ ys) = false
same (x ∷ xs) [] = false
same (x ∷ xs) (y ∷ ys) = x == y && same xs ys

abbrev pub starts_with : List ℕ → List ℕ → Bool
starts_with [] ys = true
starts_with (x ∷ xs) [] = false
starts_with (x ∷ xs) (y ∷ ys) = x == y && starts_with xs ys

pub drop-append : (xs ys : List ℕ) → drop (length xs) (xs ++ ys) ≡ ys
drop-append [] ys = refl
drop-append (x ∷ xs) ys = drop-append xs ys

pub take-all : (xs : List ℕ) → take (length xs) xs ≡ xs
take-all [] = refl
take-all (x ∷ xs) = ap (λ l. x ∷ l) (take-all xs)

pub append_assoc : (xs ys zs : List ℕ) → (xs ++ ys) ++ zs ≡ xs ++ (ys ++ zs)
append_assoc [] ys zs = refl
append_assoc (x ∷ xs) ys zs = ap (λ l. x ∷ l) (append_assoc xs ys zs)

pub append-nil : (xs : List ℕ) → xs ++ [] ≡ xs
append-nil [] = refl
append-nil (x ∷ xs) = ap (λ l. x ∷ l) (append-nil xs)

-- What comes next, against what is expected there.
pub same-take :
    (bs tail more : List ℕ)
    → length bs ≤ length tail
    → same (take (length bs) tail) bs ≡ true
    → (tail' : List ℕ) × (tail ≡ bs ++ tail')
      × (starts_with tail (bs ++ more) ≡ starts_with tail' more)
same-take [] tail more h e = (tail, refl, refl)
same-take (b ∷ bs) [] more h e = absurd (omega arith)
same-take (b ∷ bs) (t ∷ tail) more h e =
    let (tail', p, q) = same-take bs tail more (omega arith) (ground arith) in
    (tail', ground (arith, p), ground (arith, q))

pub differ-take :
    (bs tail more : List ℕ)
    → length bs ≤ length tail
    → same (take (length bs) tail) bs ≡ false
    → starts_with tail (bs ++ more) ≡ false
differ-take [] tail more h e = cc
differ-take (b ∷ bs) [] more h e = absurd (omega arith)
differ-take (b ∷ bs) (t ∷ tail) more h e = ground (arith, differ-take bs tail more)
