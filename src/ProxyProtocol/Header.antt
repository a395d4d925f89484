-- ===== src/ProxyProtocol/Header.antt =====
-- The loop that reads a header: it loses no byte, and it ends unless the stream does first.
use monolake.Base.{
  ℕ, zero, suc, ◌+◌, ◌-◌, ◌≤◌, ◌<◌, min, Bool, true, false, List, [], ◌∷◌, ◌++◌, none, some, ◌==◌,
  ltb, if◌then◌else◌, length, length-append, Result, ok, err, ◌≡◌, refl, sym, ap, ◌∙◌, arith,
  Result-cases, Bool-cases, inl, inr, ◌⊎◌,
}
use mathlib.Core.Path.{Path, subst}
use mathlib.Core.Logic.{◌≢◌}
use monolake.Stream.{Streams, StreamLaws, StaysEnded, append_assoc, append-nil}
use monolake.ProxyProtocol.{
  ParseError, ProxyHeader, Parser, Run, unfinished, returns, max_header_size, same_slice,
  is_incomplete, Failure, Found, after_read, header_loop, io_error, parse_error, not_proxy_header,
}
use monolake.ProxyProtocol.Magic.{
  Goes, same_slice-some, same_slice-empty, same_slice-Goes, Goes-past, Goes-on,
}

module _ (s : Streams) (laws : StreamLaws s) (p : Parser) where
  open s use {IO, Error, read, rest}
  open p use {Addr, parse}

  -- All the bytes of the connection are too few to be a header, as the parser says, and agree with the
  -- magic that is looked for.
  pub record Stalls (target bytes : List ℕ) : Type 0 where
    pub goes : Goes target bytes
    pub error : ParseError
    pub short : length bytes < max_header_size
    pub incomplete : (parse bytes ≡ err error) × (is_incomplete error ≡ true)

  -- All the bytes are still there, and the header is one that was parsed.
  abbrev pub Conserves : List ℕ → Result (Found s p) (Failure s p) → Type 0
  Conserves bytes (ok (none, io, buffer)) = buffer ++ rest io ≡ bytes
  Conserves bytes (ok (some h, io, buffer)) = (buffer ++ rest io ≡ bytes) × (parse buffer ≡ ok h)
  Conserves bytes (err x) = Unit {0}

  abbrev pub Ends : List ℕ → List ℕ → Run (Result (Found s p) (Failure s p)) → Type 0
  Ends target bytes r =
      ((f : Result (Found s p) (Failure s p)) × (r ≡ returns f) × Conserves bytes f)
      ⊎ ((r ≡ unfinished) × Stalls target bytes)

  after_read-Ends :
      (target : List ℕ) (io : IO) (buffer : List ℕ) (pos n : ℕ)
      (next : Run (Result (Found s p) (Failure s p)))
      → length buffer ≡ pos + n
      → (ltb pos (length target) ≡ false → Goes target buffer)
      → (ltb pos (length target) ≡ true
          → same_slice buffer target pos (min (length target) (pos + n)) ≡ some true
          → Goes target buffer)
      → (pos + n ≢ max_header_size → Goes target buffer → Ends target (buffer ++ rest io) next)
      → Ends target (buffer ++ rest io) (after_read s p target io buffer pos n next)
  after_read-Ends target io buffer pos n next l g g' f =
      elim (Bool-cases (ltb pos (length target))) [
        | inr past ↦ rw (past, after_read) (checked true (λ e. g past))
        | inl within ↦
            let (eq, e) =
              same_slice-some buffer target pos (min (length target) (pos + n))
                (ground (arith, within)) (omega (arith, l)) (omega arith) in
            rw (within, after_read) (rw e (checked eq (λ t. g' within (e ∙ ap (λ a. some a) t))))
      ]
    where
      checked :
          (eq : Bool)
          → (eq ≡ true → Goes target buffer)
          → Ends target (buffer ++ rest io) (elim eq [
            | false ↦ returns (ok (none, io, buffer))
            | true ↦
                if pos + n == max_header_size
                then returns (err (parse_error not_proxy_header))
                else next
          ])
      checked false k = inl (_, refl, refl)
      checked true k = elim (Bool-cases (pos + n == max_header_size)) [
        | inl full ↦ rw full (inl (_, refl, tt))
        | inr room ↦ rw room (f (ground (arith, room)) (k refl))
      ]

  nothing_read :
      (target : List ℕ) (io : IO) (buffer : List ℕ) (pos : ℕ)
      (next : Run (Result (Found s p) (Failure s p)))
      → pos ≤ length buffer
      → pos < max_header_size
      → after_read s p target io buffer pos 0 next ≡ next
  nothing_read target io buffer pos next h k = elim (Bool-cases (ltb pos (length target))) [
    | inr past ↦ rw (past, after_read) (ground (arith, k))
    | inl within ↦
        let here : min (length target) (pos + 0) ≡ pos = ground (arith, within) in
        let e : same_slice buffer target pos (min (length target) (pos + 0)) ≡ some true =
          ap (same_slice buffer target pos) here
          ∙ same_slice-empty buffer target pos h (ground (arith, within)) in
        rw (within, after_read) (rw e (ground (arith, k)))
  ]

  abbrev Loop : ℕ → List ℕ → IO → List ℕ → Type 0
  Loop fuel target io buffer =
      Ends target (buffer ++ rest io) (header_loop s p fuel target io buffer (length buffer))

  read_again :
      (fuel : ℕ) (target : List ℕ) (io io' : IO) (buffer bytes : List ℕ) (e : ParseError)
      → parse buffer ≡ err e
      → is_incomplete e ≡ true
      → read io (max_header_size - length buffer) ≡ ok (bytes, io')
      → header_loop s p (suc fuel) target io buffer (length buffer)
        ≡ after_read s p target io'
            (buffer ++ bytes)
            (length buffer)
            (length bytes)
            (header_loop s p fuel target io' (buffer ++ bytes) (length buffer + length bytes))
  unfolding header_loop
  read_again fuel target io io' buffer bytes e x y z = rw (x, header_loop) (rw y (rw z))

  read_fails :
      (fuel : ℕ) (target : List ℕ) (io : IO) (buffer : List ℕ) (e : ParseError) (q : Error)
      → parse buffer ≡ err e
      → is_incomplete e ≡ true
      → read io (max_header_size - length buffer) ≡ err q
      → header_loop s p (suc fuel) target io buffer (length buffer) ≡ returns (err (io_error q))
  unfolding header_loop
  read_fails fuel target io buffer e q x y z = rw (x, header_loop) (rw y (rw z))

  turn :
      (fuel : ℕ) (target : List ℕ) (io io' : IO) (buffer : List ℕ) (b : ℕ) (bs : List ℕ)
      (e : ParseError)
      → ((io : IO) (buffer : List ℕ)
          → length buffer < max_header_size
          → max_header_size ≤ length buffer + fuel
          → Goes target buffer
          → Loop fuel target io buffer)
      → Goes target buffer
      → max_header_size ≤ length buffer + suc fuel
      → parse buffer ≡ err e
      → is_incomplete e ≡ true
      → read io (max_header_size - length buffer) ≡ ok (b ∷ bs, io')
      → length buffer + length (b ∷ bs) ≤ max_header_size
      → Loop (suc fuel) target io buffer
  turn fuel target io io' buffer b bs e ih before enough x y z fits =
      subst (λ r. Ends target (buffer ++ rest io) r)
        (sym (read_again fuel target io io' buffer (b ∷ bs) e x y z))
        (subst
          (λ c.
            Ends target c
              (after_read s p target io' (buffer ++ b ∷ bs) (length buffer) (length (b ∷ bs)) next))
          kept
          (after_read-Ends target io' (buffer ++ b ∷ bs) (length buffer) (length (b ∷ bs)) next l
            (λ past. Goes-past target buffer (b ∷ bs) (ground (arith, past)) before)
            (λ within found.
              same_slice-Goes target (buffer ++ b ∷ bs) (length buffer) (omega (arith, l))
                (ground (arith, within))
                (Goes-on target buffer (b ∷ bs) (ground (arith, within)) before)
                (subst
                  (λ n.
                    same_slice (buffer ++ b ∷ bs) target (length buffer) (min (length target) n)
                    ≡ some true)
                  (sym l) found))
            (λ room goes.
              subst
                (λ n.
                  Ends target ((buffer ++ b ∷ bs) ++ rest io')
                    (header_loop s p fuel target io' (buffer ++ b ∷ bs) n))
                l
                (ih io' (buffer ++ b ∷ bs) (ground (arith, l, room, fits))
                  (ground (arith, l, enough)) goes))))
    where
      next : Run (Result (Found s p) (Failure s p))
      next = header_loop s p fuel target io' (buffer ++ b ∷ bs) (length buffer + length (b ∷ bs))

      l : length (buffer ++ b ∷ bs) ≡ length buffer + length (b ∷ bs)
      l = length-append buffer (b ∷ bs)

      kept : (buffer ++ b ∷ bs) ++ rest io' ≡ buffer ++ rest io
      kept =
          append_assoc buffer (b ∷ bs) (rest io')
          ∙ ap (λ l. buffer ++ l) (sym (laws.read_next io io' _ (b ∷ bs) z))

  parsed :
      (fuel : ℕ) (target : List ℕ) (io : IO) (buffer : List ℕ) (h : ProxyHeader Addr × ℕ)
      → parse buffer ≡ ok h
      → Loop (suc fuel) target io buffer
  unfolding header_loop
  parsed fuel target io buffer h x = inl (ok (some h, io, buffer), rw (x, header_loop), (refl, x))

  refused :
      (fuel : ℕ) (target : List ℕ) (io : IO) (buffer : List ℕ) (e : ParseError)
      → parse buffer ≡ err e
      → is_incomplete e ≡ false
      → Loop (suc fuel) target io buffer
  unfolding header_loop
  refused fuel target io buffer e x y =
      inl (ok (none, io, buffer), rw (x, header_loop) (rw y), refl)

  -- At the end of the stream a turn of the loop changes nothing.
  idle_turn :
      (fuel : ℕ) (target : List ℕ) (io io' : IO) (buffer : List ℕ) (e : ParseError)
      → length buffer < max_header_size
      → parse buffer ≡ err e
      → is_incomplete e ≡ true
      → read io (max_header_size - length buffer) ≡ ok ([], io')
      → header_loop s p (suc fuel) target io buffer (length buffer)
        ≡ header_loop s p fuel target io' buffer (length buffer)
  idle_turn fuel target io io' buffer e h x y z =
      read_again fuel target io io' buffer [] e x y z
      ∙ nothing_read target io' (buffer ++ []) (length buffer) _ (omega (arith, same_length)) h
      ∙ ap (λ w. header_loop s p fuel target io' w.0 w.1) same_place
    where
      same_length : length (buffer ++ []) ≡ length buffer
      same_length = ap length (append-nil buffer)

      same_place : Path (List ℕ × ℕ) (buffer ++ [], length buffer + 0) (buffer, length buffer)
      same_place = rw (append-nil buffer) (ap (λ n. (buffer, n)) (omega arith))

  -- A stream that is at its end in the middle of a header, and stays there, keeps the loop going for
  -- ever.
  pub header_loop-stuck :
      (fuel : ℕ) (target : List ℕ) (io : IO) (buffer : List ℕ) (e : ParseError)
      → length buffer < max_header_size
      → parse buffer ≡ err e
      → is_incomplete e ≡ true
      → read io (max_header_size - length buffer) ≡ ok ([], io)
      → header_loop s p fuel target io buffer (length buffer) ≡ unfinished
  unfolding header_loop
  header_loop-stuck zero target io buffer e h x y z = refl
  header_loop-stuck (suc fuel) target io buffer e h x y z =
      idle_turn fuel target io io buffer e h x y z
      ∙ header_loop-stuck fuel target io buffer e h x y z

  stalled :
      (ends : StaysEnded s) (fuel : ℕ) (target : List ℕ) (io io' : IO) (buffer : List ℕ)
      (e : ParseError)
      → length buffer < max_header_size
      → parse buffer ≡ err e
      → is_incomplete e ≡ true
      → read io (max_header_size - length buffer) ≡ ok ([], io')
      → Goes target buffer
      → Loop (suc fuel) target io buffer
  stalled ends fuel target io io' buffer e h x y z goes =
      let room : 0 < max_header_size - length buffer = omega (arith, h) in
      let all : buffer ++ rest io ≡ buffer =
        ap (λ l. buffer ++ l) (laws.read_end io io' _ z room) ∙ append-nil buffer in
      inr (
        idle_turn fuel target io io' buffer e h x y z
            ∙ header_loop-stuck fuel target io' buffer e h x y
                (ends.read_ended io io' _ z room (max_header_size - length buffer)),
        subst (Stalls target) (sym all)
            (record { goes = goes; error = e; short = h; incomplete = (x, y) }),
      )

  -- The loop does not panic, on a stream that stays at its end, when the buffer is not full and
  -- agrees with the magic as far as both go. On as much fuel as there is room in the buffer it
  -- returns, and unless it returns an error every byte that it has read is still in the buffer, and
  -- a header that it returns is what the parser makes of it. Otherwise it does not end, and then
  -- all the bytes of the connection are fewer than the buffer holds, they agree with the magic as
  -- far as both go, and the parser calls them incomplete.
  pub header_loop-Ends :
      (ends : StaysEnded s) (fuel : ℕ) (target : List ℕ) (io : IO) (buffer : List ℕ)
      → length buffer < max_header_size
      → max_header_size ≤ length buffer + fuel
      → Goes target buffer
      → Ends target (buffer ++ rest io) (header_loop s p fuel target io buffer (length buffer))
  header_loop-Ends ends zero target io buffer h k goes = absurd (omega arith)
  header_loop-Ends ends (suc fuel) target io buffer h k goes = elim (Result-cases (parse buffer)) [
    | inl (f, x) ↦ parsed fuel target io buffer f x
    | inr (e, x) ↦ elim (Bool-cases (is_incomplete e)) [
      | inr final ↦ refused fuel target io buffer e x final
      | inl more ↦ elim (Result-cases (read io (max_header_size - length buffer))) [
        | inr (q, z) ↦ inl (_, read_fails fuel target io buffer e q x more z, tt)
        | inl (([], io'), z) ↦ stalled ends fuel target io io' buffer e h x more z goes
        | inl ((b ∷ bs, io'), z) ↦
            turn fuel target io io' buffer b bs e (header_loop-Ends ends fuel target) goes k x more
              z (omega (arith, laws.read_fits io io' _ (b ∷ bs) z, h))
      ]
    ]
  ]
