-- ===== src/ProxyProtocol/Magic.antt =====
-- What the bytes read so far and the magic of the PROXY protocol have in common.
use monolake.Base.{
  ℕ, zero, suc, ◌+◌, ◌-◌, ◌≤◌, min, Bool, true, List, [], ◌∷◌, ◌++◌, some, length, length-append,
  ◌≡◌, refl, ap, arith,
}
use mathlib.Core.Path.{subst}
use monolake.Stream.{same, drop, take}
use monolake.ProxyProtocol.{same_slice}

pub same_slice-some :
    (xs ys : List ℕ) (i j : ℕ)
    → i ≤ j
    → j ≤ length xs
    → j ≤ length ys
    → (eq : Bool) × (same_slice xs ys i j ≡ some eq)
same_slice-some xs ys i j h k l =
    (same (take (j - i) (drop i xs)) (take (j - i) (drop i ys)), ground (arith, h, k, l))

pub same_slice-empty :
    (xs ys : List ℕ) (i : ℕ) → i ≤ length xs → i ≤ length ys → same_slice xs ys i i ≡ some true
same_slice-empty xs ys i h k = ground (arith, h, k, none_between)
  where
    none_between : i - i ≡ 0
    none_between = omega arith

-- The bytes and the magic agree as far as both go.
abbrev pub agrees : ℕ → List ℕ → List ℕ → Bool
agrees n target bytes = same (take n bytes) (take n target)

unfoldable pub Goes : List ℕ → List ℕ → Type 0
Goes target bytes = agrees (min (length target) (length bytes)) target bytes ≡ true

agrees-further :
    (n k : ℕ) (xs ys : List ℕ)
    → same (take n xs) (take n ys) ≡ true
    → same (take k (drop n xs)) (take k (drop n ys)) ≡ true
    → same (take (n + k) xs) (take (n + k) ys) ≡ true
agrees-further zero k xs ys a b =
    let e : k ≡ 0 + k = omega arith in subst (λ m. same (take m xs) (take m ys) ≡ true) e b
agrees-further (suc n) k [] [] a b =
    let e : suc (n + k) ≡ suc n + k = omega arith in
    subst (λ m. same (take m []) (take m []) ≡ true) e refl
agrees-further (suc n) k [] (y ∷ ys) a b = cc
agrees-further (suc n) k (x ∷ xs) [] a b = cc
agrees-further (suc n) k (x ∷ xs) (y ∷ ys) a b =
    let e : suc (n + k) ≡ suc n + k = omega arith in
    subst (λ m. same (take m (x ∷ xs)) (take m (y ∷ ys)) ≡ true) e
      (ground (arith, a, agrees-further n k xs ys (ground (arith, a)) b))

take-append : (n : ℕ) (xs ys : List ℕ) → n ≤ length xs → take n (xs ++ ys) ≡ take n xs
take-append zero xs ys h = refl
take-append (suc n) [] ys h = absurd (omega arith)
take-append (suc n) (x ∷ xs) ys h = ap (λ l. x ∷ l) (take-append n xs ys (omega arith))

-- What has been compared goes on to agree when the slice of the next bytes is the same.
pub same_slice-Goes :
    (target bytes : List ℕ) (n : ℕ)
    → n ≤ length bytes
    → n ≤ length target
    → agrees n target bytes ≡ true
    → same_slice bytes target n (min (length target) (length bytes)) ≡ some true
    → Goes target bytes
unfolding Goes
same_slice-Goes target bytes n h k a e =
    let end : ℕ = min (length target) (length bytes) in
    let rest : same (take (end - n) (drop n bytes)) (take (end - n) (drop n target)) ≡ true =
      ground (arith, e, h, k) in
    subst (λ m. agrees m target bytes ≡ true) (omega (arith, h, k))
      (agrees-further n (end - n) bytes target a rest)

-- Bytes beyond the magic do not matter.
pub Goes-past :
    (target buffer more : List ℕ)
    → length target ≤ length buffer
    → Goes target buffer
    → Goes target (buffer ++ more)
unfolding Goes
Goes-past target buffer more h g =
    let here : min (length target) (length (buffer ++ more)) ≡ length target =
      omega (arith, length-append buffer more, h) in
    let before : min (length target) (length buffer) ≡ length target = omega (arith, h) in
    rw here (
      rw (take-append (length target) buffer more h)
        (subst (λ m. agrees m target buffer ≡ true) before g))

pub Goes-on :
    (target buffer more : List ℕ)
    → length buffer ≤ length target
    → Goes target buffer
    → agrees (length buffer) target (buffer ++ more) ≡ true
unfolding Goes
Goes-on target buffer more h g =
    rw (take-append (length buffer) buffer more (omega arith))
      (subst (λ m. agrees m target buffer ≡ true) (omega (arith, h)) g)
