-- ===== src/Services/Echo.antt =====
-- monolake-services/src/tcp/echo.rs: `EchoService::call`, with fuel for its loop; `none` means that the
-- fuel ran out. The two halves of the connection are values of their own.
mod Examples
use monolake.Base.{
  ℕ, zero, suc, ◌+◌, ◌<◌, List, [], ◌∷◌, ◌++◌, Option, none, some, Result, ok, err, Result-cases,
  ◌⊎◌, inl, inr, length, length-append, ◌≡◌, refl, sym, ap, ◌∙◌, arith,
}
use mathlib.Core.Path.{subst}
use monolake.Stream.{Streams, StreamLaws, append_assoc, append-nil}

-- The writing half of a connection.
pub record Writers (E : Type 0) : Type 1 where
  pub W : Type 0
  pub write_all : W → List ℕ → Result W E
  pub written : W → List ℕ

pub record WriterLaws {E : Type 0} (w : Writers E) : Type 0 where
  pub written-write_all :
      (out out' : w.W) (bs : List ℕ)
      → w.write_all out bs ≡ ok out'
      → w.written out' ≡ w.written out ++ bs

module _ (s : Streams) (w : Writers s.Error) where
  pub call : ℕ → ℕ → s.IO → w.W → Option (Result w.W s.Error)
  call zero buffer_size io out = none
  call (suc fuel) buffer_size io out = elim (s.read io buffer_size) [
    | err e ↦ some (err e)
    | ok (bs, io') ↦ elim bs [
      | [] ↦ some (ok out)
      | b ∷ r ↦ elim (w.write_all out (b ∷ r)) [
        | err e ↦ some (err e)
        | ok out' ↦ call fuel buffer_size io' out'
      ]
    ]
  ]

  -- Everything that was still to come is written, or a read or a write fails, and what has been written
  -- until then are the bytes that have been read.
  pub data Echoed (buffer_size : ℕ) (io : s.IO) (out : w.W)
      : Option (Result w.W s.Error) → Type 0 where
    read_broken :
        (io' : s.IO) (out' : w.W) (sent : List ℕ) (e : s.Error)
        → s.rest io ≡ sent ++ s.rest io'
        → w.written out' ≡ w.written out ++ sent
        → s.read io' buffer_size ≡ err e
        → Echoed buffer_size io out (some (err e))
    write_broken :
        (io' : s.IO) (out' : w.W) (sent bs : List ℕ) (e : s.Error)
        → s.rest io ≡ sent ++ (bs ++ s.rest io')
        → w.written out' ≡ w.written out ++ sent
        → w.write_all out' bs ≡ err e
        → Echoed buffer_size io out (some (err e))
    echoed :
        (out' : w.W)
        → w.written out' ≡ w.written out ++ s.rest io
        → Echoed buffer_size io out (some (ok out'))

  further :
      (buffer_size : ℕ) (io io' : s.IO) (out out' : w.W) (bs : List ℕ)
      (r : Option (Result w.W s.Error))
      → s.rest io ≡ bs ++ s.rest io'
      → w.written out' ≡ w.written out ++ bs
      → Echoed buffer_size io' out' r
      → Echoed buffer_size io out r
  further buffer_size io io' out out' bs r e g (read_broken io2 out2 sent x a c d) =
      read_broken io2 out2 (bs ++ sent) x
        (e ∙ ap (λ l. bs ++ l) a ∙ sym (append_assoc bs sent (s.rest io2)))
        (c ∙ ap (λ l. l ++ sent) g ∙ append_assoc (w.written out) bs sent) d
  further buffer_size io io' out out' bs r e g (write_broken io2 out2 sent cs x a c d) =
      write_broken io2 out2 (bs ++ sent) cs x
        (e ∙ ap (λ l. bs ++ l) a ∙ sym (append_assoc bs sent (cs ++ s.rest io2)))
        (c ∙ ap (λ l. l ++ sent) g ∙ append_assoc (w.written out) bs sent) d
  further buffer_size io io' out out' bs r e g (echoed out2 h) = echoed out2 (
      h
      ∙ ap (λ l. l ++ s.rest io') g
      ∙ append_assoc (w.written out) bs (s.rest io')
      ∙ ap (λ l. w.written out ++ l) (sym e))

  -- With more fuel than there are bytes to come and a buffer that has room, the echo loop ends. When it
  -- ends without an error, all the bytes that were to come are written, in their order and behind what was
  -- written before. When it ends by an error, that is one of a read or of a write, and until then the bytes
  -- that had been read were written, but for those of the write that failed.
  pub call-Echoed :
      (laws : StreamLaws s) (writes : WriterLaws w) (fuel buffer_size : ℕ) (io : s.IO) (out : w.W)
      → 0 < buffer_size
      → length (s.rest io) < fuel
      → Echoed buffer_size io out (call fuel buffer_size io out)
  unfolding call
  call-Echoed laws writes zero buffer_size io out room enough = elim enough [ ]
  call-Echoed laws writes (suc fuel) buffer_size io out room enough =
      elim (Result-cases (s.read io buffer_size)) [
        | inr (x, e) ↦
            rw (e, call) (read_broken io out [] x refl (sym (append-nil (w.written out))) e)
        | inl ((bs, io'), e) ↦
            rw (e, call)
              (got (λ io2 out2 m. call-Echoed laws writes fuel buffer_size io2 out2 room m) bs io'
                e)
      ]
    where
      got :
          ((io2 : s.IO) (out2 : w.W)
            → length (s.rest io2) < fuel
            → Echoed buffer_size io2 out2 (call fuel buffer_size io2 out2))
          → (bs : List ℕ) (io' : s.IO) → s.read io buffer_size ≡ ok (bs, io')
          → Echoed buffer_size io out (elim bs [
            | [] ↦ some (ok out)
            | b ∷ r ↦ elim (w.write_all out (b ∷ r)) [
              | err e ↦ some (err e)
              | ok out' ↦ call fuel buffer_size io' out'
            ]
          ])
      got later [] io' e = echoed out (
          sym (append-nil (w.written out))
          ∙ ap (λ l. w.written out ++ l) (sym (laws.read_end io io' buffer_size e room)))
      got later (b ∷ r) io' e =
          let next = laws.read_next io io' buffer_size (b ∷ r) e in
          elim (Result-cases (w.write_all out (b ∷ r))) [
            | inr (x, q) ↦
                rw q (write_broken io' out [] (b ∷ r) x next (sym (append-nil (w.written out))) q)
            | inl (out', q) ↦ rw q (
                further buffer_size io io' out out' (b ∷ r) (call fuel buffer_size io' out') next
                  (writes.written-write_all out out' (b ∷ r) q)
                  (later io' out'
                    (omega (arith, enough, ap length next, length-append r (s.rest io')))))
          ]
