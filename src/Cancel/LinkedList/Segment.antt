-- ===== src/Cancel/LinkedList/Segment.antt =====
-- Doubly linked segments and free lists, as predicates on the slots that a vector holds.
use mathlib.Core.Path.{subst, subst₂}
use monolake.Base.{
  ℕ, List, [], ◌∷◌, ◌++◌, Option, none, some, ◌≡◌, ◌≢◌, refl, sym, arith, ◌==◌, if◌then◌else◌,
}
use monolake.Cancel.LinkedList.{Node}

abbrev pub Slots {ℓ} : Type ℓ → Type ℓ
Slots A = ℕ → Option (Node A)

abbrev pub Skips : ℕ → List ℕ → Type 0
Skips i [] = Unit {0}
Skips i (j ∷ vs) = (j ≢ i) × Skips i vs

abbrev pub Apart : List ℕ → Type 0
Apart [] = Unit {0}
Apart (i ∷ vs) = Skips i vs × Apart vs

module _ {ℓ} {A : Type ℓ} where
  abbrev pub update : Slots A → ℕ → Node A → Slots A
  update f i n j = if i == j then some n else f j

  -- `Segment f p h t n es`: from `h`, whose predecessor is `p`, the slots hold the entries `es`, up
  -- to `t`, whose successor is `n`.
  abbrev pub Segment : Slots A → ℕ → ℕ → ℕ → ℕ → List (ℕ × A) → Type ℓ
  Segment f p h t n [] = (h ≡ n) × (t ≡ p) × Unit {ℓ}
  Segment f p h t n ((i, a) ∷ es) =
      (m : ℕ) × (h ≡ i)
      × (f i ≡ some (record { prev = p; next = m; datum = some a }))
      × Segment f i m t n es

  -- No entry is in slot `i`.
  abbrev pub Avoids : ℕ → List (ℕ × A) → Type 0
  Avoids i [] = Unit {0}
  Avoids i ((j, a) ∷ es) = (j ≢ i) × Avoids i es

  abbrev pub Distinct : List (ℕ × A) → Type 0
  Distinct [] = Unit {0}
  Distinct ((i, a) ∷ es) = Avoids i es × Distinct es

  pub Segment-update :
      (f : Slots A) (i : ℕ) (v : Node A) (p h t n : ℕ) (es : List (ℕ × A))
      → Avoids i es
      → Segment f p h t n es
      → Segment (update f i v) p h t n es
  Segment-update f i v p h t n [] av s = s
  Segment-update f i v p h t n ((j, a) ∷ es) av (m, e, g, s) =
      (m, e, ground arith, Segment-update f i v j m t n es av.1 s)

  pub Segment-append :
      (f : Slots A) (p h t n q m : ℕ) (xs ys : List (ℕ × A))
      → Segment f p h q m xs
      → Segment f q m t n ys
      → Segment f p h t n (xs ++ ys)
  Segment-append f p h t n q m [] ys (e, g, _) s = subst₂ (λ x y. Segment f x y t n ys) g (sym e) s
  Segment-append f p h t n q m ((j, a) ∷ es) ys (k, e, g, s) r =
      (k, e, g, Segment-append f j k t n q m es ys s r)

  -- Where a segment is cut.
  abbrev pub Cut : Slots A → ℕ → ℕ → ℕ → ℕ → List (ℕ × A) → List (ℕ × A) → Type ℓ
  Cut f p h t n xs ys = (q : ℕ) × (m : ℕ) × Segment f p h q m xs × Segment f q m t n ys

  pub Segment-split :
      (f : Slots A) (p h t n : ℕ) (xs ys : List (ℕ × A))
      → Segment f p h t n (xs ++ ys)
      → Cut f p h t n xs ys
  Segment-split f p h t n [] ys s = (p, h, (refl, refl, tt), s)
  Segment-split f p h t n ((j, a) ∷ es) ys (k, e, g, s) =
      let (q, m, l, r) = Segment-split f j k t n es ys s in (q, m, (k, e, g, l), r)

  pub tail-ne :
      (f : Slots A) (k p h t n : ℕ) (x : ℕ × A) (es : List (ℕ × A))
      → Avoids k (x ∷ es)
      → Segment f p h t n (x ∷ es)
      → t ≢ k
  tail-ne f k p h t n (i, a) [] av (m, e, g, (mn, ti, _)) = omega arith
  tail-ne f k p h t n (i, a) (y ∷ es) av (m, e, g, s) = tail-ne f k i m t n y es av.1 s

  -- The last slot of a segment that is not empty, with its successor changed.
  pub Segment-last :
      (f : Slots A) (p h t n n' : ℕ) (x : ℕ × A) (es : List (ℕ × A))
      → Distinct (x ∷ es)
      → Segment f p h t n (x ∷ es)
      → (v : Node A) × (a : A) × (f t ≡ some v)
        × (v.datum ≡ some a)
        × Segment (update f t (record v { next = n' })) p h t n' (x ∷ es)
  Segment-last f p h t n n' (i, a) [] d (m, e, g, (mn, ti, _)) = (
    record { prev = p; next = m; datum = some a },
    a,
    ground arith,
    refl,
    (n', e, ground arith, (refl, ti, tt)),
  )
  Segment-last f p h t n n' (i, a) (y ∷ es) d (m, e, g, s) =
      let (v, b, ft, vb, r) = Segment-last f i m t n n' y es d.1 s in
      let apart = tail-ne f i i m t n y es d.0 s in (v, b, ft, vb, (m, e, ground arith, r))

  -- The first slot of a segment that is not empty, with its predecessor changed.
  pub Segment-first :
      (f : Slots A) (p p' h t n : ℕ) (x : ℕ × A) (es : List (ℕ × A))
      → Distinct (x ∷ es)
      → Segment f p h t n (x ∷ es)
      → (v : Node A) × (f h ≡ some v)
        × (h ≡ x.0)
        × (v.datum ≡ some x.1)
        × Segment (update f h (record v { prev = p' })) p' h t n (x ∷ es)
  Segment-first f p p' h t n (i, a) es d (m, e, g, s) = (
    record { prev = p; next = m; datum = some a },
    ground arith,
    e,
    refl,
    (m, e, ground arith, rest),
  )
    where
      rest : Segment (update f h (record { prev = p'; next = m; datum = some a })) i m t n es
      rest =
          subst
            (λ k. Segment (update f k (record { prev = p'; next = m; datum = some a })) i m t n es)
            (sym e)
            (Segment-update f i (record { prev = p'; next = m; datum = some a }) i m t n es d.0 s)

  -- The slots of a free list, from its first one.
  abbrev pub Free : Slots A → ℕ → ℕ → List ℕ → Type ℓ
  Free f h n [] = (h ≡ n) × Unit {ℓ}
  Free f h n (i ∷ vs) =
      (v : Node A) × (h ≡ i) × (f i ≡ some v) × (v.datum ≡ none) × Free f v.next n vs

  pub Free-update :
      (f : Slots A) (i : ℕ) (v : Node A) (h n : ℕ) (vs : List ℕ)
      → Skips i vs
      → Free f h n vs
      → Free (update f i v) h n vs
  Free-update f i v h n [] k s = s
  Free-update f i v h n (j ∷ vs) k (w, e, g, o, s) =
      (w, e, ground arith, o, Free-update f i v w.next n vs k.1 s)

  -- A slot that holds a value is no free slot, and the other way round.
  pub Free-Skips :
      (f : Slots A) (i h n : ℕ) (vs : List ℕ) (v : Node A) (a : A)
      → f i ≡ some v
      → v.datum ≡ some a
      → Free f h n vs
      → Skips i vs
  Free-Skips f i h n [] v a e d s = tt
  Free-Skips f i h n (j ∷ vs) v a e d (w, q, g, o, s) =
      ((λ k. ground arith), Free-Skips f i w.next n vs v a e d s)

  pub Segment-Avoids :
      (f : Slots A) (i p h t n : ℕ) (es : List (ℕ × A))
      → ((v : Node A) (a : A) → f i ≡ some v → v.datum ≡ some a → ⊥)
      → Segment f p h t n es
      → Avoids i es
  Segment-Avoids f i p h t n [] e s = tt
  Segment-Avoids f i p h t n ((j, a) ∷ es) e (m, q, g, s) = (
    (λ k. e (record { prev = p; next = m; datum = some a }) a (rw (← k) g) refl),
    Segment-Avoids f i j m t n es e s,
  )

  pub Avoids-append :
      (k : ℕ) (xs ys : List (ℕ × A)) → Avoids k xs → Avoids k ys → Avoids k (xs ++ ys)
  Avoids-append k [] ys p q = q
  Avoids-append k ((j, a) ∷ xs) ys p q = (p.0, Avoids-append k xs ys p.1 q)

  pub Distinct-concat :
      (i : ℕ) (a : A) (es : List (ℕ × A)) → Avoids i es → Distinct es → Distinct (es ++ (i, a) ∷ [])
  Distinct-concat i a [] av d = (tt, tt)
  Distinct-concat i a ((j, b) ∷ es) av d = (
    Avoids-append j es ((i, a) ∷ []) d.0 ((λ e. av.0 (sym e)), tt),
    Distinct-concat i a es av.1 d.1,
  )
