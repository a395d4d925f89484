-- ===== src/Cancel/LinkedList/Iter.antt =====
-- `into_iter` gives the values of the entries, in order, and ends.
use mathlib.Core.Path.{subst}
use monolake.Base.{
  ℕ, zero, suc, ◌≤◌, ◌<◌, List, [], ◌∷◌, none, some, ◌≡◌, sym, arith, length, get_elem?, set,
  length-set, get_elem?-lt,
}
use monolake.Cancel.LinkedList.{Node, LinkedList, null, into_iter, next, collect}
use monolake.Cancel.LinkedList.Segment.{Segment, Avoids, Distinct, Segment-update}
use monolake.Cancel.LinkedList.Represents.{Represents, slots-set, slot-ne-null}

module _ {ℓ} {A : Type ℓ} where
  abbrev pub values : List (ℕ × A) → List A
  values [] = []
  values ((i, a) ∷ es) = a ∷ values es

  next-first :
      (nodes : List (Node A)) (p h m : ℕ) (a : A)
      → length nodes ≤ null
      → get_elem? nodes h ≡ some (record { prev = p; next = m; datum = some a })
      → next (record { head = h; nodes = nodes })
        ≡ some (
          some a,
          record { head = m; nodes = set nodes h (record { prev = p; next = m; datum = none }) },
        )
  unfolding next
  next-first nodes p h m a fits g = ground (arith, slot-ne-null nodes h _ fits g)

  next-end :
      (nodes : List (Node A)) (h : ℕ)
      → h ≡ null
      → next (record { head = h; nodes = nodes }) ≡ some (none, record { head = h; nodes = nodes })
  unfolding next
  next-end nodes h e = ground arith

  after :
      (nodes : List (Node A)) (p h m t : ℕ) (a : A) (es : List (ℕ × A))
      → Avoids h es
      → get_elem? nodes h ≡ some (record { prev = p; next = m; datum = some a })
      → Segment (get_elem? nodes) h m t null es
      → Segment
          (get_elem? (set nodes h (record { prev = p; next = m; datum = none })))
          h
          m
          t
          null
          es
  after nodes p h m t a es av g s =
      subst (λ f. Segment f h m t null es) (sym (slots-set nodes h _ (get_elem?-lt nodes h g)))
        (Segment-update (get_elem? nodes) h _ h m t null es av s)

  collect-Segment :
      (fuel : ℕ) (nodes : List (Node A)) (p h t : ℕ) (es : List (ℕ × A))
      → length es < fuel
      → length nodes ≤ null
      → Distinct es
      → Segment (get_elem? nodes) p h t null es
      → collect fuel (record { head = h; nodes = nodes }) ≡ some (values es)
  unfolding collect
  collect-Segment zero nodes p h t es lt fits d s = elim lt [ ]
  collect-Segment (suc fuel) nodes p h t [] lt fits d s = rw (next-end nodes h s.0, collect)
  collect-Segment (suc fuel) nodes p h t ((i, a) ∷ es) lt fits d (m, e, g, s) =
      let g' =
        subst (λ k. get_elem? nodes k ≡ some (record { prev = p; next = m; datum = some a }))
          (sym e) g in
      let s' = subst (λ k. Segment (get_elem? nodes) k m t null es) (sym e) s in
      let av = subst (λ k. Avoids k es) (sym e) d.0 in
      let nodes' = set nodes h (record { prev = p; next = m; datum = none }) in
      let rest =
        collect-Segment fuel nodes' h m t es (omega arith)
          (omega (arith, length-set nodes h (record { prev = p; next = m; datum = none }))) d.1
          (after nodes p h m t a es av g' s') in
      rw (next-first nodes p h m a fits g', collect) (rw rest)

  -- The iteration of a list that stands for `es` gives the values of `es` in order and ends, whatever
  -- the fuel, if it is more than the number of entries.
  pub collect-into_iter :
      (l : LinkedList A) (es : List (ℕ × A)) (vs : List ℕ) (fuel : ℕ)
      → Represents l es vs
      → length es < fuel
      → collect fuel (into_iter l) ≡ some (values es)
  unfolding into_iter
  collect-into_iter l es vs fuel r lt =
      collect-Segment fuel l.nodes null l.head l.tail es lt r.fits r.distinct r.chain
