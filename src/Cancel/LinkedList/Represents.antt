-- ===== src/Cancel/LinkedList/Represents.antt =====
-- What a list in a vector stands for: a sequence of entries, each a slot's index with its value.
use mathlib.Core.Path.{fun_ext}
use monolake.Base.{
  ℕ, ◌+◌, ◌≤◌, ◌<◌, List, [], ◌∷◌, ◌++◌, Option, none, some, ◌≡◌, ◌≢◌, refl, arith, ◌==◌,
  if◌then◌else◌, length, get_elem?, set, get_elem?-set, get_elem?-concat, get_elem?-lt, Bool-cases,
  inl, inr, ap,
}
use monolake.Base.Panic.{◌>>=◌}
use monolake.Cancel.LinkedList.{Node, LinkedList, null, new, get}
use monolake.Cancel.LinkedList.Segment.{Slots, update, Segment, Avoids, Distinct, Free, Apart}

module _ {ℓ} {A : Type ℓ} where
  abbrev pub slots : LinkedList A → Slots A
  slots l = get_elem? l.nodes

  abbrev pub read : Slots A → ℕ → Option A
  read f i = f i >>= λ node. node.datum

  -- The abstract operations: on a sequence of entries.
  abbrev pub lookup : ℕ → List (ℕ × A) → Option A
  lookup i [] = none
  lookup i ((j, a) ∷ es) = if j == i then some a else lookup i es

  abbrev pub erase : ℕ → List (ℕ × A) → List (ℕ × A)
  erase i [] = []
  erase i ((j, a) ∷ es) = if j == i then es else (j, a) ∷ erase i es

  -- The live slots hold `es` in order, and the vacant ones are exactly those of `vs`. The last field
  -- but two is why `push_back` need not reset `prev` in a slot that it reuses.
  pub record Represents (l : LinkedList A) (es : List (ℕ × A)) (vs : List ℕ) : Type ℓ where
    pub chain : Segment (slots l) null l.head l.tail null es
    pub distinct : Distinct es
    pub free : Free (slots l) l.vacancy_head null vs
    pub apart : Apart vs
    pub reset : es ≡ [] → (v : Node A) → slots l l.vacancy_head ≡ some v → v.prev ≡ null
    pub reads : (i : ℕ) → read (slots l) i ≡ lookup i es
    pub filled : length l.nodes ≡ length es + length vs
    pub fits : length l.nodes ≤ null

  pub slots-set :
      (xs : List (Node A)) (i : ℕ) (v : Node A)
      → i < length xs
      → get_elem? (set xs i v) ≡ update (get_elem? xs) i v
  slots-set xs i v h = fun_ext (λ j. get_elem?-set xs i v j h)

  pub slots-concat :
      (xs : List (Node A)) (v : Node A)
      → get_elem? (xs ++ v ∷ []) ≡ update (get_elem? xs) (length xs) v
  slots-concat xs v = fun_ext (λ j. get_elem?-concat xs v j)

  -- A slot that is there is not `NULL`.
  pub slot-ne-null :
      (xs : List (Node A)) (i : ℕ) (v : Node A)
      → length xs ≤ null
      → get_elem? xs i ≡ some v
      → i ≢ null
  slot-ne-null xs i v h e = let lt = get_elem?-lt xs i e in omega arith

  pub lookup-Avoids : (i : ℕ) (es : List (ℕ × A)) → Avoids i es → lookup i es ≡ none
  lookup-Avoids i [] av = refl
  lookup-Avoids i ((j, a) ∷ es) av = ground (arith, lookup-Avoids i es av.1)

  pub erase-Avoids : (i : ℕ) (es : List (ℕ × A)) → Avoids i es → erase i es ≡ es
  erase-Avoids i [] av = refl
  erase-Avoids i ((j, a) ∷ es) av = ground (arith, erase-Avoids i es av.1)

  pub lookup-none : (i : ℕ) (es : List (ℕ × A)) → lookup i es ≡ none → Avoids i es
  lookup-none i [] h = tt
  lookup-none i ((j, a) ∷ es) h = (ground arith, lookup-none i es (ground arith))

  pub lookup-concat :
      (i : ℕ) (a : A) (es : List (ℕ × A)) (j : ℕ)
      → Avoids i es
      → lookup j (es ++ (i, a) ∷ []) ≡ (if i == j then some a else lookup j es)
  lookup-concat i a [] j av = refl
  lookup-concat i a ((k, b) ∷ es) j av = ground (arith, lookup-concat i a es j av.1)

  -- A slot that is not free for reading is in no entry.
  pub read-none-Avoids :
      {l : LinkedList A} {es : List (ℕ × A)} {vs : List ℕ}
      → Represents l es vs
      → (i : ℕ) → read (slots l) i ≡ none
      → Avoids i es
  read-none-Avoids {l} {es} r i h = lookup-none i es (ground (arith, r.reads i))

  -- Cutting the entries at index `i`.
  abbrev pub CutAt : ℕ → A → List (ℕ × A) → Type ℓ
  CutAt i a es =
      (xs : List (ℕ × A)) × (ys : List (ℕ × A)) × (es ≡ xs ++ (i, a) ∷ ys) × (erase i es ≡ xs ++ ys)

  pub lookup-CutAt : (i : ℕ) (a : A) (es : List (ℕ × A)) → lookup i es ≡ some a → CutAt i a es
  lookup-CutAt i a [] h = cc
  lookup-CutAt i a ((j, b) ∷ es) h = elim (Bool-cases (j == i)) [
    | inl hit ↦ ([], es, ground arith, rw hit)
    | inr miss ↦
        let (xs, ys, e, r) = lookup-CutAt i a es (ground arith) in
        ((j, b) ∷ xs, ys, ap (◌∷◌ (j, b)) e, rw miss (ap (◌∷◌ (j, b)) r))
  ]

  -- The empty list stands for the empty sequence.
  pub new-Represents : Represents new [] []
  unfolding new
  new-Represents = record {
    chain = (refl, refl, tt);
    distinct = tt;
    free = (refl, tt);
    apart = tt;
    reset = λ _ v e. cc;
    reads = λ i. refl;
    filled = refl;
    fits = omega arith;
  }

  -- `get` reads the entry of that index.
  pub get-lookup :
      {l : LinkedList A} {es : List (ℕ × A)} {vs : List ℕ}
      → Represents l es vs
      → (i : ℕ) → get l i ≡ lookup i es
  unfolding get
  get-lookup r i = r.reads i
