-- ===== src/Cancel/LinkedList/Remove.antt =====
-- `remove` takes one entry out, wherever it stands, and leaves the others in their order.
use mathlib.Core.Path.{subst}
use native.Mathlib.Decide.{dec_le}
use monolake.Base.{
  ℕ, List, [], ◌∷◌, ◌++◌, none, some, ◌≡◌, refl, sym, ap, ◌∙◌, arith, length, get_elem?, set,
  length-append, length-set, get_elem?-lt, get_elem?-some, Option-cases, inl, inr,
}
use monolake.Cancel.LinkedList.{Node, LinkedList, null, vacate, detach, remove}
use monolake.Cancel.LinkedList.Segment.{
  update, Segment, Avoids, Free, Skips, Segment-update, Segment-append, Segment-split, Free-update,
  Free-Skips,
}
use monolake.Cancel.LinkedList.Represents.{
  slots, read, lookup, erase, Represents, slots-set, lookup-CutAt, read-none-Avoids, erase-Avoids,
}
use monolake.Cancel.LinkedList.Unlink.{
  Gap, Avoids-left, Avoids-right, head-Avoids, lookup-drop, Distinct-drop, unlink_prev_lem,
  unlink_next_lem,
}

module _ {ℓ} {A : Type ℓ} where
  Gap-reset :
      (l : LinkedList A) (i q k : ℕ) (xs ys : List (ℕ × A)) (vs : List ℕ)
      → Gap l i q k k q xs ys vs
      → xs ++ ys ≡ []
      → q ≡ null
  Gap-reset l i q k [] ys vs g e = g.left.1
  Gap-reset l i q k (x ∷ xs) ys vs g e = cc

  vacate_lem :
      (l : LinkedList A) (i q k : ℕ) (xs ys : List (ℕ × A)) (vs : List ℕ)
      → Gap l i q k k q xs ys vs
      → (l' : LinkedList A) × (vacate l i ≡ some l') × Represents l' (xs ++ ys) (i ∷ vs)
  unfolding vacate
  vacate_lem l i q k xs ys vs g = (
    record l { vacancy_head = i; nodes = set l.nodes i v },
    ground (arith, g.hole),
    record {
      chain = subst (λ f. Segment f null l.head l.tail null (xs ++ ys)) (sym eq) joined;
      distinct = g.distinct;
      free = (v, refl, at_i, refl, rest);
      apart = (g.skipped, g.apart);
      reset = λ e w h. ground (arith, at_i, h, Gap-reset l i q k xs ys vs g e);
      reads = λ j. ap (λ f. read f j) eq ∙ ground (arith, g.reads j, g.hole);
      filled = omega (arith, length-set l.nodes i v, length-append xs ys, g.filled);
      fits = omega (arith, length-set l.nodes i v, g.fits);
    },
  )
    where
      v : Node A
      v = record { prev = q; next = l.vacancy_head; datum = none }

      eq : get_elem? (set l.nodes i v) ≡ update (slots l) i v
      eq = slots-set l.nodes i v (get_elem?-lt l.nodes i g.hole)

      at_i : get_elem? (set l.nodes i v) i ≡ some v
      at_i = ap (λ f. f i) eq ∙ ground arith

      joined : Segment (update (slots l) i v) null l.head l.tail null (xs ++ ys)
      joined =
          Segment-update (slots l) i v null l.head l.tail null (xs ++ ys) g.outside
            (Segment-append (slots l) null l.head l.tail null q k xs ys g.left g.right)

      rest : Free (get_elem? (set l.nodes i v)) l.vacancy_head null vs
      rest =
          subst (λ f. Free f l.vacancy_head null vs) (sym eq)
            (Free-update (slots l) i v l.vacancy_head null vs g.skipped g.free)

  -- Taking the value out of slot `i` opens a gap.
  take_lem :
      (l : LinkedList A) (i q k : ℕ) (a : A) (xs ys : List (ℕ × A)) (vs : List ℕ)
      → Represents l (xs ++ (i, a) ∷ ys) vs
      → Segment (slots l) null l.head q i xs
      → slots l i ≡ some (record { prev = q; next = k; datum = some a })
      → Segment (slots l) i k l.tail null ys
      → Gap
          (record l { nodes = set l.nodes i (record { prev = q; next = k; datum = none }) })
          i
          q
          k
          i
          i
          xs
          ys
          vs
  take_lem l i q k a xs ys vs r left e right = record {
    left =
        subst (λ f. Segment f null l.head q i xs) (sym eq)
          (Segment-update (slots l) i v null l.head q i xs (Avoids-left i xs ys out) left);
    right =
        subst (λ f. Segment f i k l.tail null ys) (sym eq)
          (Segment-update (slots l) i v i k l.tail null ys (Avoids-right i xs ys out) right);
    hole = ap (λ f. f i) eq ∙ ground arith;
    free =
        subst (λ f. Free f l.vacancy_head null vs) (sym eq)
          (Free-update (slots l) i v l.vacancy_head null vs skipped r.free);
    filled = omega (arith, length-set l.nodes i v, length-append xs ((i, a) ∷ ys), r.filled);
    fits = omega (arith, length-set l.nodes i v, r.fits);
    reads = λ j. ap (λ f. read f j) eq ∙ ground (arith, r.reads j, lookup-drop i a xs ys j out);
    distinct = Distinct-drop i a xs ys r.distinct;
    outside = out;
    apart = r.apart;
    skipped = skipped;
  }
    where
      v : Node A
      v = record { prev = q; next = k; datum = none }

      out : Avoids i (xs ++ ys)
      out = head-Avoids i a xs ys r.distinct

      eq : get_elem? (set l.nodes i v) ≡ update (slots l) i v
      eq = slots-set l.nodes i v (get_elem?-lt l.nodes i e)

      skipped : Skips i vs
      skipped = Free-Skips (slots l) i l.vacancy_head null vs _ a e refl r.free

  -- Removing an entry that is there.
  remove_present :
      (l : LinkedList A) (i : ℕ) (a : A) (xs ys : List (ℕ × A)) (vs : List ℕ)
      → Represents l (xs ++ (i, a) ∷ ys) vs
      → (l' : LinkedList A) × (remove l i ≡ some (some a, l')) × Represents l' (xs ++ ys) (i ∷ vs)
  unfolding remove detach
  remove_present l i a xs ys vs r =
      let (q, m, left, right) =
        Segment-split (slots l) null l.head l.tail null xs ((i, a) ∷ ys) r.chain in
      let (k, mi, e, after) = right in
      let left' = subst (λ n. Segment (slots l) null l.head q n xs) mi left in
      let (l1, e1, g1) =
        unlink_prev_lem _ i q k i xs ys vs (take_lem l i q k a xs ys vs r left' e after) in
      let (l2, e2, g2) = unlink_next_lem l1 i q k k xs ys vs g1 in
      let (l3, e3, r3) = vacate_lem l2 i q k xs ys vs g2 in
      (l3, ground (arith, get_elem?-lt l.nodes i e, e, e1, e2, e3), r3)

  remove_absent : (l : LinkedList A) (i : ℕ) → read (slots l) i ≡ none → remove l i ≡ some (none, l)
  unfolding remove
  remove_absent l i h = elim (dec_le (length l.nodes) i) [
    | yes beyond ↦ ground arith
    | no within ↦ let (v, e) = get_elem?-some l.nodes i (omega arith) in ground (arith, e)
  ]

  -- `remove i` on a list that stands for `es` never panics: it returns the value of entry `i`, if
  -- there is one, and leaves a list that stands for the other entries in their order.
  pub remove_lem :
      (l : LinkedList A) (i : ℕ) (es : List (ℕ × A)) (vs : List ℕ)
      → Represents l es vs
      → (l' : LinkedList A) × (vs' : List ℕ) × (remove l i ≡ some (lookup i es, l'))
        × Represents l' (erase i es) vs'
  unfolding remove
  remove_lem l i es vs r = elim (Option-cases (lookup i es)) [
    | inl missing ↦ (
      l,
      vs,
      rw missing (remove_absent l i (r.reads i ∙ missing)),
      rw (erase-Avoids i es (read-none-Avoids r i (r.reads i ∙ missing))) r,
    )
    | inr (a, found) ↦
        let (xs, ys, e, f) = lookup-CutAt i a es found in
        let (l', e', r') = remove_present l i a xs ys vs (subst (λ z. Represents l z vs) e r) in
        (l', i ∷ vs, rw found e', rw f r')
  ]
