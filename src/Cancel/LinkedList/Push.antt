-- ===== src/Cancel/LinkedList/Push.antt =====
-- `push_back` appends one entry, in a slot that no entry has, and keeps all the others.
use mathlib.Core.Path.{subst}
use monolake.Base.{
  ℕ, suc, ◌+◌, ◌≤◌, ◌<◌, List, [], ◌∷◌, ◌++◌, some, ◌≡◌, refl, sym, ap, ◌∙◌, arith, ◌==◌,
  if◌then◌else◌, length, get_elem?, set, length-append, length-set, get_elem?-lt, get_elem?-none,
}
use monolake.Cancel.LinkedList.{Node, LinkedList, null, allocate, link, push_back}
use monolake.Cancel.LinkedList.Segment.{
  update, Segment, Avoids, Distinct, Free, Apart, Segment-update, Segment-append, Segment-last,
  Free-update, Free-Skips, tail-ne, Distinct-concat,
}
use monolake.Cancel.LinkedList.Represents.{
  slots, read, lookup, Represents, slots-set, slots-concat, slot-ne-null, lookup-concat,
  read-none-Avoids,
}

module _ {ℓ} {A : Type ℓ} where
  -- Between the two halves of `push_back`: slot `idx` is filled and not yet linked.
  record Pending (l : LinkedList A) (idx : ℕ) (val : A) (es : List (ℕ × A)) (vs : List ℕ)
      : Type ℓ where
    before : ℕ
    slot : slots l idx ≡ some (record { prev = before; next = null; datum = some val })
    clean : es ≡ [] → before ≡ null
    chain : Segment (slots l) null l.head l.tail null es
    distinct : Distinct es
    unused : Avoids idx es
    free : Free (slots l) l.vacancy_head null vs
    apart : Apart vs
    reads : (j : ℕ) → read (slots l) j ≡ (if idx == j then some val else lookup j es)
    filled : length l.nodes ≡ suc (length es + length vs)
    fits : length l.nodes ≤ null

  allocate_lem :
      (l : LinkedList A) (val : A) (es : List (ℕ × A)) (vs : List ℕ)
      → Represents l es vs
      → length es < null
      → (idx : ℕ) × (l' : LinkedList A) × (vs' : List ℕ) × (allocate l val ≡ some (idx, l'))
        × Pending l' idx val es vs'
  unfolding allocate
  allocate_lem l val es [] r h = (
    length l.nodes,
    record l { nodes = l.nodes ++ fresh ∷ [] },
    [],
    ground arith,
    record {
      before = null;
      slot = ap (λ f. f (length l.nodes)) (slots-concat l.nodes fresh) ∙ ground arith;
      clean = λ _. refl;
      chain = rw (slots-concat l.nodes fresh) (
          Segment-update (slots l) (length l.nodes) fresh null l.head l.tail null es unused
            r.chain);
      distinct = r.distinct;
      unused = unused;
      free = r.free;
      apart = tt;
      reads = λ j. ap (λ f. read f j) (slots-concat l.nodes fresh) ∙ ground (arith, r.reads j);
      filled = omega (arith, length-append l.nodes (fresh ∷ []), r.filled);
      fits = omega (arith, length-append l.nodes (fresh ∷ []), r.filled);
    },
  )
    where
      fresh : Node A
      fresh = record { prev = null; next = null; datum = some val }

      unused : Avoids (length l.nodes) es
      unused =
          read-none-Avoids r (length l.nodes)
            (rw (get_elem?-none l.nodes (length l.nodes) (omega arith)))
  allocate_lem l val es (i ∷ vs) r h = (
    i,
    record l { vacancy_head = v.next; nodes = set l.nodes i v' },
    vs,
    ground (arith, slot-ne-null l.nodes i v r.fits r.free.2, r.free.1, r.free.2),
    record {
      before = v.prev;
      slot = ap (λ f. f i) eq ∙ ground arith;
      clean = λ e. r.reset e v (rw r.free.1 r.free.2);
      chain =
          subst (λ f. Segment f null l.head l.tail null es) (sym eq)
            (Segment-update (slots l) i v' null l.head l.tail null es unused r.chain);
      distinct = r.distinct;
      unused = unused;
      free = rw eq (Free-update (slots l) i v' v.next null vs r.apart.0 r.free.4);
      apart = r.apart.1;
      reads = λ j. ap (λ f. read f j) eq ∙ ground (arith, r.reads j);
      filled = omega (arith, length-set l.nodes i v', r.filled);
      fits = omega (arith, length-set l.nodes i v', r.fits);
    },
  )
    where
      v : Node A
      v = r.free.0

      v' : Node A
      v' = record v { next = null; datum = some val }

      eq : slots (record l { nodes = set l.nodes i v' }) ≡ update (slots l) i v'
      eq = slots-set l.nodes i v' (get_elem?-lt l.nodes i r.free.2)

      unused : Avoids i es
      unused = read-none-Avoids r i (rw r.free.2 r.free.3)

  link_lem :
      (l : LinkedList A) (idx : ℕ) (val : A) (es : List (ℕ × A)) (vs : List ℕ)
      → Pending l idx val es vs
      → (l' : LinkedList A) × (link l idx ≡ some l') × Represents l' (es ++ (idx, val) ∷ []) vs
  unfolding link
  link_lem l idx val [] vs p = (
    record l { head = idx; tail = idx },
    ground (arith, p.chain.1),
    record {
      chain = (null, refl, ground (arith, p.slot, p.clean refl), (refl, refl, tt));
      distinct = (tt, tt);
      free = p.free;
      apart = p.apart;
      reset = λ e. cc;
      reads = p.reads;
      filled = omega (arith, p.filled);
      fits = p.fits;
    },
  )
  link_lem l idx val (x ∷ es) vs p = (
    record l { tail = idx; nodes = set nodes idx node' },
    ground (
      arith,
      slot-ne-null l.nodes l.tail last.0 p.fits last.2,
      last.2,
      p.slot,
      ap (λ f. f idx) eq1,
      tail-ne (slots l) idx null l.head l.tail null x es p.unused p.chain,
    ),
    record {
      chain =
          subst (λ f. Segment f null l.head idx null (x ∷ es ++ (idx, val) ∷ [])) (sym eq)
            (Segment-append _ null l.head idx null l.tail idx (x ∷ es) ((idx, val) ∷ [])
              (Segment-update _ idx node' null l.head l.tail idx (x ∷ es) p.unused last.4)
              (null, refl, ground arith, (refl, refl, tt)));
      distinct = Distinct-concat idx val (x ∷ es) p.unused p.distinct;
      free =
          subst (λ f. Free f l.vacancy_head null vs) (sym eq)
            (Free-update _ idx node' l.vacancy_head null vs
              (Free-Skips (slots l) idx l.vacancy_head null vs _ val p.slot refl p.free)
              (Free-update (slots l) l.tail tail' l.vacancy_head null vs
                (Free-Skips (slots l) l.tail l.vacancy_head null vs _ last.1 last.2 last.3 p.free)
                p.free));
      apart = p.apart;
      reset = λ e. cc;
      reads = λ j.
          ap (λ f. read f j) eq
          ∙ ground (
            arith,
            p.reads j,
            p.reads l.tail,
            tail-ne (slots l) idx null l.head l.tail null x es p.unused p.chain,
            lookup-concat idx val (x ∷ es) j p.unused,
            last.2,
            last.3,
            p.slot,
          );
      filled = omega (
        arith,
        length-set nodes idx node',
        length-set l.nodes l.tail tail',
        length-append es ((idx, val) ∷ []),
        p.filled,
      );
      fits = omega (arith, length-set nodes idx node', length-set l.nodes l.tail tail', p.fits);
    },
  )
    where
      last :
          (v : Node A) × (a : A) × (slots l l.tail ≡ some v)
          × (v.datum ≡ some a)
          × Segment
              (update (slots l) l.tail (record v { next = idx }))
              null
              l.head
              l.tail
              idx
              (x ∷ es)
      last = Segment-last (slots l) null l.head l.tail null idx x es p.distinct p.chain

      tail' : Node A
      tail' = record (last.0) { next = idx }

      node' : Node A
      node' = record { prev = l.tail; next = null; datum = some val }

      nodes : List (Node A)
      nodes = set l.nodes l.tail tail'

      eq1 : get_elem? nodes ≡ update (slots l) l.tail tail'
      eq1 = slots-set l.nodes l.tail tail' (get_elem?-lt l.nodes l.tail last.2)

      eq : get_elem? (set nodes idx node') ≡ update (update (slots l) l.tail tail') idx node'
      eq =
          slots-set nodes idx node'
            (omega (arith, length-set l.nodes l.tail tail', get_elem?-lt l.nodes idx p.slot))
          ∙ ap (λ f. update f idx node') eq1

module _ {ℓ} {A : Type ℓ} where
  -- On a list that stands for `es`, `push_back` appends the value, in a slot of its own. It panics on
  -- no such list while fewer than `usize::MAX` entries are live.
  pub push_back_lem :
      (l : LinkedList A) (val : A) (es : List (ℕ × A)) (vs : List ℕ)
      → Represents l es vs
      → length es < null
      → (idx : ℕ) × (l' : LinkedList A) × (vs' : List ℕ) × (push_back l val ≡ some (idx, l'))
        × Avoids idx es
        × Represents l' (es ++ (idx, val) ∷ []) vs'
  unfolding push_back
  push_back_lem l val es vs r h =
      let (idx, l1, vs', e1, p) = allocate_lem l val es vs r h in
      let (l2, e2, r2) = link_lem l1 idx val es vs' p in (idx, l2, vs', ground arith, p.unused, r2)
