-- ===== src/Detect/Fixed.antt =====
-- `FixedLengthDetector` of monolake-services/src/common/detect.rs. `read_exact` of monoio is a
-- parameter, and so is the function that decides, which may change the buffer.
use monolake.Base.{ℕ, List, ◌++◌, Result, ok, err, Result-cases, inl, inr, ◌≡◌, sym, ap, ◌∙◌, arith}
use monolake.Stream.{Streams, PrefixedReadIo, content}

module _ (s : Streams) (read_exact : s.IO → ℕ → Result (List ℕ × s.IO) s.Error) where
  pub detect_fixed :
      {DetOut : Type 0}
      → ℕ
      → (List ℕ → DetOut × List ℕ)
      → s.IO
      → Result (DetOut × PrefixedReadIo s) s.Error
  detect_fixed n decide io = elim (read_exact io n) [
    | err e ↦ err e
    | ok (buf, io') ↦ let (r, buf') = decide buf in ok (r, record { io = io'; prefix = buf' })
  ]

  -- When the function leaves the buffer as it is, the service behind the detector reads all the bytes
  -- that the connection had, and the function has seen the first of them.
  pub detect_fixed-content :
      {DetOut : Type 0} (n : ℕ) (decide : List ℕ → DetOut × List ℕ) (io : s.IO) (r : DetOut)
      (p : PrefixedReadIo s)
      → ((io1 io2 : s.IO) (bs : List ℕ)
          → read_exact io1 n ≡ ok (bs, io2)
          → s.rest io1 ≡ bs ++ s.rest io2)
      → ((bs : List ℕ) → (decide bs).1 ≡ bs)
      → detect_fixed n decide io ≡ ok (r, p)
      → (content {s = s} p ≡ s.rest io) × ((decide p.prefix).0 ≡ r)
  unfolding detect_fixed
  detect_fixed-content {DetOut} n decide io r p exact same e =
      elim (Result-cases (read_exact io n)) [
        | inr (x, q) ↦ absurd (ground (arith, e, q))
        | inl ((bs, io'), q) ↦
            let out : ◌≡◌ {A = Result (DetOut × PrefixedReadIo s) s.Error}
                (ok ((decide bs).0, record { io = io'; prefix = (decide bs).1 })) (ok (r, p)) =
              rw (q, detect_fixed) at e in
            let got : (decide bs).0 ≡ r = cc in
            let p_is : record { io = io'; prefix = (decide bs).1 } ≡ p = cc in
            let kept : p.prefix ≡ bs =
              sym (ap (λ (a : PrefixedReadIo s). a.prefix) p_is) ∙ same bs in
            (
              sym (ap (λ (a : PrefixedReadIo s). content {s = s} a) p_is)
                  ∙ ap (λ l. l ++ s.rest io') (same bs)
                  ∙ sym (exact io io' bs q),
              ap (λ l. (decide l).0) kept ∙ got,
            )
      ]
