-- ===== src/Cancel/LinkedList/Write.antt =====
-- A write through `get_mut` changes the value of one entry.
use mathlib.Core.Path.{subst}
use monolake.Base.{
  ℕ, List, [], ◌∷◌, some, ◌≡◌, ◌≢◌, refl, sym, ap, ◌∙◌, arith, ◌==◌, if◌then◌else◌, length,
  get_elem?, set, length-set, get_elem?-lt, Option-cases, Bool-cases, inl, inr, ==_iff,
}
use monolake.Cancel.LinkedList.{Node, LinkedList, null, put}
use monolake.Cancel.LinkedList.Segment.{
  Slots, update, Segment, Avoids, Distinct, Free, Segment-update, Free-update, Free-Skips,
}
use monolake.Cancel.LinkedList.Represents.{slots, read, lookup, Represents, slots-set}

module _ {ℓ} {A : Type ℓ} where
  abbrev pub replace : ℕ → A → List (ℕ × A) → List (ℕ × A)
  replace i b [] = []
  replace i b ((j, a) ∷ es) = if j == i then (j, b) ∷ es else (j, a) ∷ replace i b es

  pub lookup-replace :
      (i : ℕ) (b a : A) (es : List (ℕ × A)) (j : ℕ)
      → lookup i es ≡ some a
      → lookup j (replace i b es) ≡ (if i == j then some b else lookup j es)
  lookup-replace i b a [] j h = cc
  lookup-replace i b a ((k, c) ∷ es) j h = ground (arith, lookup-replace i b a es j)

  pub replace-Avoids :
      (i : ℕ) (b : A) (k : ℕ) (es : List (ℕ × A)) → Avoids k es → Avoids k (replace i b es)
  replace-Avoids i b k [] av = tt
  replace-Avoids i b k ((j, a) ∷ es) av = ground (arith, replace-Avoids i b k es av.1)

  pub replace-Distinct :
      (i : ℕ) (b : A) (es : List (ℕ × A)) → Distinct es → Distinct (replace i b es)
  replace-Distinct i b [] d = tt
  replace-Distinct i b ((j, a) ∷ es) d =
      ground (arith, replace-Avoids i b j es d.0, replace-Distinct i b es d.1)

  pub length-replace : (i : ℕ) (b : A) (es : List (ℕ × A)) → length (replace i b es) ≡ length es
  length-replace i b [] = refl
  length-replace i b ((j, a) ∷ es) = ground (arith, length-replace i b es)

  replace-Segment :
      (f : Slots A) (i : ℕ) (b : A) (v : Node A) (p h t n : ℕ) (es : List (ℕ × A))
      → Distinct es
      → f i ≡ some v
      → Segment f p h t n es
      → Segment (update f i (record v { datum = some b })) p h t n (replace i b es)
  replace-Segment f i b v p h t n [] d e s = s
  replace-Segment f i b v p h t n ((j, a) ∷ es) d e (m, q, g, s) = elim (Bool-cases (j == i)) [
    | inl hit ↦
        let ji : j ≡ i = (==_iff j i).0 hit in
        rw hit
          (m, q, ground arith, Segment-update f i _ j m t n es (subst (λ k. Avoids k es) ji d.0) s)
    | inr miss ↦ rw miss (m, q, ground arith, replace-Segment f i b v j m t n es d.1 e s)
  ]

  replace-ne-nil :
      (i : ℕ) (b a : A) (es : List (ℕ × A)) → lookup i es ≡ some a → replace i b es ≢ []
  replace-ne-nil i b a [] h e = cc
  replace-ne-nil i b a ((j, c) ∷ es) h e = ground arith

  -- A write at the index of an entry succeeds, and the list then stands for the same entries with
  -- that one's value replaced.
  pub put_lem :
      (l : LinkedList A) (i : ℕ) (a b : A) (es : List (ℕ × A)) (vs : List ℕ)
      → Represents l es vs
      → lookup i es ≡ some a
      → (l' : LinkedList A) × (put l i b ≡ some l') × Represents l' (replace i b es) vs
  unfolding put
  put_lem l i a b es vs r h = elim (Option-cases (slots l i)) [
    | inl missing ↦ absurd (ground (arith, h, missing, r.reads i))
    | inr (v, e) ↦ (
      record l { nodes = set l.nodes i (record v { datum = some b }) },
      ground (arith, e, h, r.reads i),
      record {
        chain =
            subst (λ f. Segment f null l.head l.tail null (replace i b es)) (sym (eq v e))
              (replace-Segment (slots l) i b v null l.head l.tail null es r.distinct e r.chain);
        distinct = replace-Distinct i b es r.distinct;
        free =
            subst (λ f. Free f l.vacancy_head null vs) (sym (eq v e))
              (Free-update (slots l) i _ l.vacancy_head null vs
                (Free-Skips (slots l) i l.vacancy_head null vs v a e (ground (arith, r.reads i))
                  r.free)
                r.free);
        apart = r.apart;
        reset = λ n. absurd (replace-ne-nil i b a es h n);
        reads = λ j.
            ap (λ f. read f j) (eq v e) ∙ ground (arith, r.reads j, lookup-replace i b a es j h);
        filled = omega (
          arith,
          length-set l.nodes i (record v { datum = some b }),
          length-replace i b es,
          r.filled,
        );
        fits = omega (arith, length-set l.nodes i (record v { datum = some b }), r.fits);
      },
    )
  ]
    where
      eq :
          (v : Node A)
          → slots l i ≡ some v
          → get_elem? (set l.nodes i (record v { datum = some b }))
            ≡ update (slots l) i (record v { datum = some b })
      eq v e = slots-set l.nodes i (record v { datum = some b }) (get_elem?-lt l.nodes i e)
