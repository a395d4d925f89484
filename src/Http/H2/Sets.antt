-- ===== src/Http/H2/Sets.antt =====
-- Sets of futures as lists: what holds of all the entries, how many there are of a kind, and what is
-- left when one has been taken out.
use monolake.Base.{
  ℕ, zero, suc, ◌+◌, Bool, List, [], ◌∷◌, ◌++◌, some, get_elem?, some-inj, if◌then◌else◌, ◌≡◌, refl,
  arith,
}
use mathlib.Core.Path.{subst}
use monolake.Http.H2.{without}

module _ {A : Type 0} where
  abbrev pub All : (A → Type 0) → List A → Type 0
  All P [] = Unit {0}
  All P (x ∷ xs) = P x × All P xs

  -- How many entries pass the test.
  pub count : (A → Bool) → List A → ℕ
  count p [] = 0
  count p (x ∷ xs) = (if p x then 1 else 0) + count p xs

  pub count-append : (p : A → Bool) (xs ys : List A) → count p (xs ++ ys) ≡ count p xs + count p ys
  unfolding count
  count-append p [] ys = omega arith
  count-append p (x ∷ xs) ys = omega (arith, count-append p xs ys)

  pub count-nil : (p : A → Bool) → count p [] ≡ 0
  unfolding count
  count-nil p = refl

  pub count-cons :
      (p : A → Bool) (x : A) (xs : List A) → count p (x ∷ xs) ≡ (if p x then 1 else 0) + count p xs
  unfolding count
  count-cons p x xs = refl

  pub count-without :
      (p : A → Bool) (xs : List A) (i : ℕ) (x : A)
      → get_elem? xs i ≡ some x
      → count p xs ≡ (if p x then 1 else 0) + count p (without xs i)
  unfolding count
  count-without p [] i x e = cc
  count-without p (y ∷ ys) zero x e = ground (arith, e)
  count-without p (y ∷ ys) (suc i) x e = omega (arith, count-without p ys i x e)

  pub All-append : (P : A → Type 0) (xs ys : List A) → All P xs → All P ys → All P (xs ++ ys)
  All-append P [] ys a b = b
  All-append P (x ∷ xs) ys (p, a) b = (p, All-append P xs ys a b)

  pub All-without : (P : A → Type 0) (xs : List A) (i : ℕ) → All P xs → All P (without xs i)
  All-without P [] i a = tt
  All-without P (x ∷ xs) zero (p, a) = a
  All-without P (x ∷ xs) (suc i) (p, a) = (p, All-without P xs i a)

  pub All-get_elem? :
      (P : A → Type 0) (xs : List A) (i : ℕ) (x : A) → All P xs → get_elem? xs i ≡ some x → P x
  All-get_elem? P [] i x a e = absurd (cc e)
  All-get_elem? P (y ∷ ys) zero x (p, a) e = subst P (some-inj e) p
  All-get_elem? P (y ∷ ys) (suc i) x (p, a) e = All-get_elem? P ys i x a e
