-- ===== src/Cancel/LinkedList/Unlink.antt =====
-- `remove` while a slot is taken out: the gap between the entries before it and those after it.
use mathlib.Core.Path.{subst}
use monolake.Base.{
  ℕ, suc, ◌+◌, ◌≤◌, List, [], ◌∷◌, ◌++◌, none, some, ◌≡◌, ◌≢◌, refl, sym, ap, ◌∙◌, arith, ◌==◌,
  if◌then◌else◌, length, get_elem?, set, length-set, get_elem?-lt,
}
use monolake.Cancel.LinkedList.{Node, LinkedList, null, unlink_prev, unlink_next}
use monolake.Cancel.LinkedList.Segment.{
  update, Segment, Avoids, Distinct, Free, Skips, Apart, Segment-update, Segment-last,
  Segment-first, Free-update, Free-Skips, tail-ne,
}
use monolake.Cancel.LinkedList.Represents.{
  slots, read, lookup, slots-set, slot-ne-null, lookup-Avoids,
}

module _ {ℓ} {A : Type ℓ} where
  -- While slot `i` is taken out, between the entries `xs` before it and `ys` after it: `q` is its
  -- `prev` and `k` its `next`; `x` is what follows `xs` by the links, and `y` what precedes `ys`.
  pub record Gap (l : LinkedList A) (i q k x y : ℕ) (xs ys : List (ℕ × A)) (vs : List ℕ)
      : Type ℓ where
    pub left : Segment (slots l) null l.head q x xs
    pub right : Segment (slots l) y k l.tail null ys
    pub hole : slots l i ≡ some (record { prev = q; next = k; datum = none })
    pub free : Free (slots l) l.vacancy_head null vs
    pub filled : length l.nodes ≡ suc (length xs + length ys + length vs)
    pub fits : length l.nodes ≤ null
    pub reads : (j : ℕ) → read (slots l) j ≡ lookup j (xs ++ ys)
    pub distinct : Distinct (xs ++ ys)
    pub outside : Avoids i (xs ++ ys)
    pub apart : Apart vs
    pub skipped : Skips i vs

  pub Avoids-left : (k : ℕ) (xs ys : List (ℕ × A)) → Avoids k (xs ++ ys) → Avoids k xs
  Avoids-left k [] ys av = tt
  Avoids-left k ((j, a) ∷ xs) ys av = (av.0, Avoids-left k xs ys av.1)

  pub Avoids-right : (k : ℕ) (xs ys : List (ℕ × A)) → Avoids k (xs ++ ys) → Avoids k ys
  Avoids-right k [] ys av = av
  Avoids-right k ((j, a) ∷ xs) ys av = Avoids-right k xs ys av.1

  Distinct-left : (xs ys : List (ℕ × A)) → Distinct (xs ++ ys) → Distinct xs
  Distinct-left [] ys d = tt
  Distinct-left ((j, a) ∷ xs) ys d = (Avoids-left j xs ys d.0, Distinct-left xs ys d.1)

  Distinct-right : (xs ys : List (ℕ × A)) → Distinct (xs ++ ys) → Distinct ys
  Distinct-right [] ys d = d
  Distinct-right ((j, a) ∷ xs) ys d = Distinct-right xs ys d.1

  -- The first of `ys` is no slot of `xs`, and the last of `xs` none of `ys`.
  pub head-Avoids :
      (i : ℕ) (a : A) (xs ys : List (ℕ × A)) → Distinct (xs ++ (i, a) ∷ ys) → Avoids i (xs ++ ys)
  head-Avoids i a [] ys d = d.0
  head-Avoids i a ((j, b) ∷ xs) ys d =
      ((λ e. (Avoids-right j xs ((i, a) ∷ ys) d.0).0 (sym e)), head-Avoids i a xs ys d.1)

  Avoids-drop :
      (k i : ℕ) (a : A) (xs ys : List (ℕ × A)) → Avoids k (xs ++ (i, a) ∷ ys) → Avoids k (xs ++ ys)
  Avoids-drop k i a [] ys av = av.1
  Avoids-drop k i a ((j, b) ∷ xs) ys av = (av.0, Avoids-drop k i a xs ys av.1)

  pub lookup-drop :
      (i : ℕ) (a : A) (xs ys : List (ℕ × A)) (j : ℕ)
      → Avoids i (xs ++ ys)
      → lookup j (xs ++ ys) ≡ (if i == j then none else lookup j (xs ++ (i, a) ∷ ys))
  lookup-drop i a [] ys j av = ground (arith, lookup-Avoids i ys av)
  lookup-drop i a ((k, b) ∷ xs) ys j av = ground (arith, lookup-drop i a xs ys j av.1)

  pub Distinct-drop :
      (i : ℕ) (a : A) (xs ys : List (ℕ × A)) → Distinct (xs ++ (i, a) ∷ ys) → Distinct (xs ++ ys)
  Distinct-drop i a [] ys d = d.1
  Distinct-drop i a ((j, b) ∷ xs) ys d = (Avoids-drop j i a xs ys d.0, Distinct-drop i a xs ys d.1)

  last-Avoids :
      (l : LinkedList A) (p h t n : ℕ) (x : ℕ × A) (xs ys : List (ℕ × A))
      → Distinct (x ∷ xs ++ ys)
      → Segment (slots l) p h t n (x ∷ xs)
      → Avoids t ys
  last-Avoids l p h t n (i, a) [] ys d (m, e, g, (mn, ti, _)) =
      subst (λ k. Avoids k ys) (sym ti) d.0
  last-Avoids l p h t n (i, a) (y ∷ xs) ys d (m, e, g, s) = last-Avoids l i m t n y xs ys d.1 s

  pub unlink_prev_lem :
      (l : LinkedList A) (i q k y : ℕ) (xs ys : List (ℕ × A)) (vs : List ℕ)
      → Gap l i q k i y xs ys vs
      → (l' : LinkedList A) × (unlink_prev l q k ≡ some l') × Gap l' i q k k y xs ys vs
  unfolding unlink_prev
  unlink_prev_lem l i q k y [] ys vs g = (
    record l { head = k },
    ground (arith, g.left.1),
    record {
      left = (refl, g.left.1, tt);
      right = g.right;
      hole = g.hole;
      free = g.free;
      filled = g.filled;
      fits = g.fits;
      reads = g.reads;
      distinct = g.distinct;
      outside = g.outside;
      apart = g.apart;
      skipped = g.skipped;
    },
  )
  unlink_prev_lem l i q k y (x ∷ xs) ys vs g = (
    record l { nodes = set l.nodes q v },
    ground (arith, last.2, slot-ne-null l.nodes q last.0 g.fits last.2),
    record {
      left = subst (λ f. Segment f null l.head q k (x ∷ xs)) (sym eq) last.4;
      right =
          subst (λ f. Segment f y k l.tail null ys) (sym eq)
            (Segment-update (slots l) q v y k l.tail null ys
              (last-Avoids l null l.head q i x xs ys g.distinct g.left) g.right);
      hole = ap (λ f. f i) eq ∙ ground (arith, g.hole, apart);
      free =
          subst (λ f. Free f l.vacancy_head null vs) (sym eq)
            (Free-update (slots l) q v l.vacancy_head null vs
              (Free-Skips (slots l) q l.vacancy_head null vs last.0 last.1 last.2 last.3 g.free)
              g.free);
      filled = length-set l.nodes q v ∙ g.filled;
      fits = omega (arith, length-set l.nodes q v, g.fits);
      reads = λ j. ap (λ f. read f j) eq ∙ ground (arith, g.reads j, last.2);
      distinct = g.distinct;
      outside = g.outside;
      apart = g.apart;
      skipped = g.skipped;
    },
  )
    where
      last :
          (w : Node A) × (a : A) × (slots l q ≡ some w)
          × (w.datum ≡ some a)
          × Segment (update (slots l) q (record w { next = k })) null l.head q k (x ∷ xs)
      last =
          Segment-last (slots l) null l.head q i k x xs (Distinct-left (x ∷ xs) ys g.distinct)
            g.left

      v : Node A
      v = record (last.0) { next = k }

      eq : get_elem? (set l.nodes q v) ≡ update (slots l) q v
      eq = slots-set l.nodes q v (get_elem?-lt l.nodes q last.2)

      apart : q ≢ i
      apart = tail-ne (slots l) i null l.head q i x xs (Avoids-left i (x ∷ xs) ys g.outside) g.left

  pub unlink_next_lem :
      (l : LinkedList A) (i q k x : ℕ) (xs ys : List (ℕ × A)) (vs : List ℕ)
      → Gap l i q k x i xs ys vs
      → (l' : LinkedList A) × (unlink_next l q k ≡ some l') × Gap l' i q k x q xs ys vs
  unfolding unlink_next
  unlink_next_lem l i q k x xs [] vs g = (
    record l { tail = q },
    ground (arith, g.right.0),
    record {
      left = g.left;
      right = (g.right.0, refl, tt);
      hole = g.hole;
      free = g.free;
      filled = g.filled;
      fits = g.fits;
      reads = g.reads;
      distinct = g.distinct;
      outside = g.outside;
      apart = g.apart;
      skipped = g.skipped;
    },
  )
  unlink_next_lem l i q k x xs (y ∷ ys) vs g = (
    record l { nodes = set l.nodes k v },
    ground (arith, first.1, slot-ne-null l.nodes k first.0 g.fits first.1),
    record {
      left =
          subst (λ f. Segment f null l.head q x xs) (sym eq)
            (Segment-update (slots l) k v null l.head q x xs before g.left);
      right = subst (λ f. Segment f q k l.tail null (y ∷ ys)) (sym eq) first.4;
      hole = ap (λ f. f i) eq ∙ ground (arith, g.hole, apart);
      free =
          subst (λ f. Free f l.vacancy_head null vs) (sym eq)
            (Free-update (slots l) k v l.vacancy_head null vs
              (Free-Skips (slots l) k l.vacancy_head null vs first.0 y.1 first.1 first.3 g.free)
              g.free);
      filled = length-set l.nodes k v ∙ g.filled;
      fits = omega (arith, length-set l.nodes k v, g.fits);
      reads = λ j. ap (λ f. read f j) eq ∙ ground (arith, g.reads j, first.1);
      distinct = g.distinct;
      outside = g.outside;
      apart = g.apart;
      skipped = g.skipped;
    },
  )
    where
      first :
          (w : Node A) × (slots l k ≡ some w)
          × (k ≡ y.0)
          × (w.datum ≡ some y.1)
          × Segment (update (slots l) k (record w { prev = q })) q k l.tail null (y ∷ ys)
      first =
          Segment-first (slots l) i q k l.tail null y ys (Distinct-right xs (y ∷ ys) g.distinct)
            g.right

      v : Node A
      v = record (first.0) { prev = q }

      eq : get_elem? (set l.nodes k v) ≡ update (slots l) k v
      eq = slots-set l.nodes k v (get_elem?-lt l.nodes k first.1)

      apart : k ≢ i
      apart = λ e. (Avoids-right i xs (y ∷ ys) g.outside).0 (sym first.2 ∙ e)

      before : Avoids k xs
      before =
          subst (λ j. Avoids j xs) (sym first.2)
            (Avoids-left y.0 xs ys (head-Avoids y.0 y.1 xs ys g.distinct))
