-- ===== src/Detect/Examples.antt =====
-- Detection on the preface of HTTP/2, and the streams that the examples read: lists of bytes.
use monolake.Base.{
  ℕ, zero, suc, ◌≤◌, ◌<◌, List, [], ◌∷◌, ◌++◌, some, Result, ok, ◌≡◌, refl, sym, ap, arith, length,
}
use mathlib.Core.Path.{subst}
use monolake.Stream.{Streams, StreamLaws, StaysEnded, take, drop}
use monolake.Detect.{Detected, detect, preface}
use monolake.Detect.Prefix.{IsRight, detect-IsRight}

abbrev pub bytes : Streams
bytes = record {
  IO = List ℕ;
  Error = Unit {0};
  read = λ io room. ok (take room io, drop room io);
  rest = λ io. io;
}

length-take : (n : ℕ) (xs : List ℕ) → length (take n xs) ≤ n
length-take zero xs = omega arith
length-take (suc n) [] = omega arith
length-take (suc n) (x ∷ xs) = omega (arith, length-take n xs)

take-drop : (n : ℕ) (xs : List ℕ) → xs ≡ take n xs ++ drop n xs
take-drop zero xs = refl
take-drop (suc n) [] = refl
take-drop (suc n) (x ∷ xs) = ap (λ l. x ∷ l) (take-drop n xs)

take-empty : (n : ℕ) (xs : List ℕ) → take n xs ≡ [] → 0 < n → xs ≡ []
take-empty zero xs e h = absurd (omega arith)
take-empty (suc n) [] e h = refl
take-empty (suc n) (x ∷ xs) e h = cc

-- What a read that succeeds has given.
given :
    (n : ℕ) (xs bs : List ℕ) (io : List ℕ)
    → ◌≡◌ {A = Result (List ℕ × List ℕ) (Unit {0})} (ok (take n xs, drop n xs)) (ok (bs, io))
    → (take n xs ≡ bs) × (drop n xs ≡ io)
given n xs bs io e = (cc, cc)

pub bytes-laws : StreamLaws bytes
bytes-laws = record {
  read_fits = λ io io' room bs e.
      let (t, d) = given room io bs io' e in ground (arith, t, length-take room io);
  read_next = λ io io' room bs e.
      let (t, d) = given room io bs io' e in ground (arith, t, d, take-drop room io);
  read_end = λ io io' room e h. take-empty room io (given room io [] io' e).0 h;
}

pub bytes-stays_ended : StaysEnded bytes
bytes-stays_ended = record {
  read_ended = λ io io' room e h again.
      let (t, d) = given room io [] io' e in
      let gone : io ≡ [] = take-empty room io t h in
      let here : io' ≡ [] = ground (arith, d, gone, drop-nil room) in
      subst
        (λ l.
          ◌≡◌ {A = Result (List ℕ × List ℕ) (Unit {0})} (ok (take again l, drop again l))
            (ok ([], l)))
        (sym here) (ended again);
}
  where
    drop-nil : (n : ℕ) → drop n [] ≡ []
    drop-nil zero = refl
    drop-nil (suc n) = refl

    ended :
        (n : ℕ)
        → ◌≡◌ {A = Result (List ℕ × List ℕ) (Unit {0})} (ok (take n [], drop n [])) (ok ([], []))
    ended zero = refl
    ended (suc n) = refl

detect-IsRight_example :
    (d : Detected bytes) × (detect bytes preface (preface ++ 0 ∷ 4 ∷ []) ≡ some d)
    × IsRight bytes bytes-laws [] preface (preface ++ 0 ∷ 4 ∷ []) d
detect-IsRight_example = detect-IsRight bytes bytes-laws preface (preface ++ 0 ∷ 4 ∷ [])
