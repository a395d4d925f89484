-- ===== src/Detect/Prefix.antt =====
-- What `PrefixDetector` answers, and that it loses no byte.
use monolake.Base.{
  ℕ, zero, suc, ◌+◌, ◌-◌, ◌≤◌, ◌<◌, true, false, List, [], ◌∷◌, ◌++◌, some, Bool-cases,
  Result-cases, inl, inr, ◌==◌, length, length-append, ok, err, ◌≡◌, refl, sym, ap, ◌∙◌, arith,
}
use monolake.Stream.{
  Streams, StreamLaws, content, slice, take, same, starts_with, drop-append, take-all, append_assoc,
  append-nil, same-take, differ-take,
}
use monolake.Detect.{Detected, detect_loop, detect}

module _ (s : Streams) (laws : StreamLaws s) where
  open s use {IO, Error, read, rest}

  -- The right answer for a stream, of which `buf` was read before; an error is one of a read.
  abbrev pub IsRight : List ℕ → List ℕ → IO → Detected s → Type 0
  IsRight buf tail io (ok (det, p)) =
      (content p ≡ buf ++ rest io) × (det ≡ starts_with tail (rest io))
  IsRight buf tail io (err e) = (io' : IO) × (room : ℕ) × (read io' room ≡ err e)

  slices :
      (buf bytes tail : List ℕ)
      → length bytes ≤ length tail
      → (slice (buf ++ tail) (length buf) (length buf + length bytes)
          ≡ some (take (length bytes) tail))
        × (slice (buf ++ bytes) (length buf) (length buf + length bytes) ≡ some bytes)
  slices buf bytes tail h = (
    ground (arith, length-append buf tail, drop-append buf tail),
    ground (arith, length-append buf bytes, drop-append buf bytes, take-all bytes),
  )

  abbrev Answers : ℕ → List ℕ → List ℕ → IO → Type 0
  Answers fuel buf tail io =
      (d : Detected s) × (detect_loop s fuel (buf ++ tail) io (length buf) buf ≡ some d)
      × IsRight buf tail io d

  at_end :
      (fuel : ℕ) (buf tail : List ℕ) (io io' : IO)
      → read io (length (buf ++ tail) - length buf) ≡ ok ([], io')
      → Answers (suc fuel) buf tail io
  unfolding detect_loop
  at_end fuel buf tail io io' e = (
    ok (length buf == length (buf ++ tail), record { io = io'; prefix = buf }),
    rw (e, detect_loop),
    (ap (λ l. buf ++ l) (sym next), answer tail refl),
  )
    where
      next : rest io ≡ rest io'
      next = laws.read_next io io' _ [] e

      answer :
          (t : List ℕ)
          → tail ≡ t
          → (length buf == length (buf ++ tail)) ≡ starts_with tail (rest io)
      answer [] q = rw q (ground (arith, append-nil buf))
      answer (x ∷ xs) q =
          rw (laws.read_end io io' _ e (ground (arith, q, length-append buf tail)))
            (rw q (ground (arith, length-append buf (x ∷ xs))))

  -- A turn in which the bytes are those expected, and one in which they are not.
  goes_on :
      (fuel : ℕ) (buf tail bytes : List ℕ) (io io' : IO)
      → read io (length (buf ++ tail) - length buf) ≡ ok (bytes, io')
      → 0 < length bytes
      → length bytes ≤ length tail
      → same (take (length bytes) tail) bytes ≡ true
      → detect_loop s (suc fuel) (buf ++ tail) io (length buf) buf
        ≡ detect_loop s fuel (buf ++ tail) io' (length buf + length bytes) (buf ++ bytes)
  unfolding detect_loop
  goes_on fuel buf tail bytes io io' e some_read fits match =
      let (p, q) = slices buf bytes tail fits in ground (arith, e, p, q, match)

  stops :
      (fuel : ℕ) (buf tail bytes : List ℕ) (io io' : IO)
      → read io (length (buf ++ tail) - length buf) ≡ ok (bytes, io')
      → 0 < length bytes
      → length bytes ≤ length tail
      → same (take (length bytes) tail) bytes ≡ false
      → detect_loop s (suc fuel) (buf ++ tail) io (length buf) buf
        ≡ some (ok (false, record { io = io'; prefix = buf ++ bytes }))
  unfolding detect_loop
  stops fuel buf tail bytes io io' e some_read fits differ =
      let (p, q) = slices buf bytes tail fits in ground (arith, e, p, q, differ)

  after_read :
      (fuel : ℕ) (buf tail : List ℕ) (io io' : IO) (b : ℕ) (bs : List ℕ)
      → ((buf tail : List ℕ) (io : IO) → length tail < fuel → Answers fuel buf tail io)
      → length tail < suc fuel
      → read io (length (buf ++ tail) - length buf) ≡ ok (b ∷ bs, io')
      → length (b ∷ bs) ≤ length tail
      → Answers (suc fuel) buf tail io
  after_read fuel buf tail io io' b bs ih h e fits =
      elim (Bool-cases (same (take (length (b ∷ bs)) tail) (b ∷ bs))) [
        | inr differ ↦ (
          ok (false, record { io = io'; prefix = buf ++ b ∷ bs }),
          stops fuel buf tail (b ∷ bs) io io' e (omega arith) fits differ,
          (
            append_assoc buf (b ∷ bs) (rest io') ∙ ap (λ l. buf ++ l) (sym next),
            rw next (sym (differ-take (b ∷ bs) tail (rest io') fits differ)),
          ),
        )
        | inl match ↦
            let (tail', t, w) = same-take (b ∷ bs) tail (rest io') fits match in
            let (d, r, k) =
              ih (buf ++ b ∷ bs) tail' io' (ground (arith, t, h, length-append (b ∷ bs) tail')) in
            (
              d,
              goes_on fuel buf tail (b ∷ bs) io io' e (omega arith) fits match ∙ shift tail' t ∙ r,
              carry tail' w d k,
            )
      ]
    where
      next : rest io ≡ (b ∷ bs) ++ rest io'
      next = laws.read_next io io' _ (b ∷ bs) e

      shift :
          (tail' : List ℕ)
          → tail ≡ (b ∷ bs) ++ tail'
          → detect_loop s fuel (buf ++ tail) io' (length buf + length (b ∷ bs)) (buf ++ b ∷ bs)
            ≡ detect_loop s fuel
                ((buf ++ b ∷ bs) ++ tail')
                io'
                (length (buf ++ b ∷ bs))
                (buf ++ b ∷ bs)
      shift tail' t = rw (length-append buf (b ∷ bs), append_assoc buf (b ∷ bs) tail', t)

      carry :
          (tail' : List ℕ)
          → starts_with tail ((b ∷ bs) ++ rest io') ≡ starts_with tail' (rest io')
          → (d : Detected s) → IsRight (buf ++ b ∷ bs) tail' io' d
          → IsRight buf tail io d
      carry tail' w (ok (det, p)) k = (
        k.0 ∙ append_assoc buf (b ∷ bs) (rest io') ∙ ap (λ l. buf ++ l) (sym next),
        k.1 ∙ sym w ∙ ap (starts_with tail) (sym next),
      )
      carry tail' w (err x) k = k

  failed :
      (fuel : ℕ) (buf tail : List ℕ) (io : IO) (x : Error)
      → read io (length (buf ++ tail) - length buf) ≡ err x
      → Answers (suc fuel) buf tail io
  unfolding detect_loop
  failed fuel buf tail io x e = (err x, rw (e, detect_loop), (io, _, e))

  detect_loop-IsRight :
      (fuel : ℕ) (buf tail : List ℕ) (io : IO) → length tail < fuel → Answers fuel buf tail io
  detect_loop-IsRight zero buf tail io h = absurd (omega arith)
  detect_loop-IsRight (suc fuel) buf tail io h =
      elim (Result-cases (read io (length (buf ++ tail) - length buf))) [
        | inr (x, e) ↦ failed fuel buf tail io x e
        | inl (([], io'), e) ↦ at_end fuel buf tail io io' e
        | inl ((b ∷ bs, io'), e) ↦
            after_read fuel buf tail io io' b bs (detect_loop-IsRight fuel) h e
              (ground (arith, laws.read_fits io io' _ _ e, length-append buf tail))
      ]

  -- Detection does not panic and ends. Unless a read fails, it answers whether the stream starts with
  -- the pattern, and the stream that it hands on has all the bytes of the first.
  pub detect-IsRight :
      (pattern : List ℕ) (io : IO)
      → (d : Detected s) × (detect s pattern io ≡ some d) × IsRight [] pattern io d
  unfolding detect
  detect-IsRight pattern io = detect_loop-IsRight (suc (length pattern)) [] pattern io (omega arith)
