-- ===== src/Cancel/LinkedList.antt =====
-- monolake-services/src/common/cancel/linked_list.rs: a doubly linked list in a `Vec`, whose free
-- slots form a second, singly linked list. `none` as a result is a panic (an index out of bounds).
pub mod Segment
pub mod Represents
pub mod Push
pub mod Unlink
pub mod Remove
pub mod Iter
pub mod Write
use monolake.Base.{
  ℕ, zero, suc, ◌^◌, ◌-◌, List, [], ◌∷◌, ◌++◌, Option, none, some, ◌==◌, leb, if◌then◌else◌, length,
  get_elem?, set,
}
use monolake.Base.Panic.{◌>>=◌}

-- `NULL`, `usize::MAX`.
abbrev pub null : ℕ
null = 2 ^ 64 - 1

-- `datum` is the field `data` of the source.
pub record Node {ℓ} (A : Type ℓ) : Type ℓ where
  pub prev : ℕ
  pub next : ℕ
  pub datum : Option A

-- `nodes` is the field `data` of the source.
pub record LinkedList {ℓ} (A : Type ℓ) : Type ℓ where
  pub head : ℕ
  pub tail : ℕ
  pub vacancy_head : ℕ
  pub nodes : List (Node A)

-- `LinkedListIter`, with the same two fields.
pub record LinkedListIter {ℓ} (A : Type ℓ) : Type ℓ where
  pub head : ℕ
  pub nodes : List (Node A)

module _ {ℓ} {A : Type ℓ} where
  pub new : LinkedList A
  new = record { head = null; tail = null; vacancy_head = null; nodes = [] }

  pub get : LinkedList A → ℕ → Option A
  get l idx = get_elem? l.nodes idx >>= λ node. node.datum

  -- A write through `get_mut`: the new list if there is a value at `idx`.
  pub put : LinkedList A → ℕ → A → Option (LinkedList A)
  put l idx val = do
    node ← get_elem? l.nodes idx
    old ← node.datum
    some (record l { nodes = set l.nodes idx (record node { datum = some val }) })

  -- The first half of `push_back`: a slot for the value, reused or new.
  pub allocate : LinkedList A → A → Option (ℕ × LinkedList A)
  allocate l val =
      if l.vacancy_head == null
      then some (length l.nodes, record l { nodes = l.nodes ++ fresh ∷ [] })
      else reuse
    where
      fresh : Node A
      fresh = record { prev = null; next = null; datum = some val }

      reuse : Option (ℕ × LinkedList A)
      reuse = do
        node ← get_elem? l.nodes l.vacancy_head
        some (
          l.vacancy_head,
          record l {
            vacancy_head = node.next;
            nodes = set l.nodes l.vacancy_head (record node { next = null; datum = some val });
          },
        )

  -- The second half of `push_back`: the slot becomes the last one.
  pub link : LinkedList A → ℕ → Option (LinkedList A)
  link l idx = if l.tail == null then some (record l { head = idx; tail = idx }) else behind
    where
      behind : Option (LinkedList A)
      behind = do
        tail ← get_elem? l.nodes l.tail
        let nodes = set l.nodes l.tail (record tail { next = idx })
        node ← get_elem? nodes idx
        some (record l { tail = idx; nodes = set nodes idx (record node { prev = l.tail }) })

  pub push_back : LinkedList A → A → Option (ℕ × LinkedList A)
  push_back l val = do (idx, l1) ← allocate l val; l2 ← link l1 idx; some (idx, l2)

  -- Writes `next` of the node in front, or `head` for the first node.
  pub unlink_prev : LinkedList A → ℕ → ℕ → Option (LinkedList A)
  unlink_prev l prev next = if prev == null then some (record l { head = next }) else inner
    where
      inner : Option (LinkedList A)
      inner = do
        node ← get_elem? l.nodes prev
        some (record l { nodes = set l.nodes prev (record node { next = next }) })

  -- Writes `prev` of the node behind, or `tail` for the last node.
  pub unlink_next : LinkedList A → ℕ → ℕ → Option (LinkedList A)
  unlink_next l prev next = if next == null then some (record l { tail = prev }) else inner
    where
      inner : Option (LinkedList A)
      inner = do
        node ← get_elem? l.nodes next
        some (record l { nodes = set l.nodes next (record node { prev = prev }) })

  -- `data[idx].next = vacancy_head; vacancy_head = idx`.
  pub vacate : LinkedList A → ℕ → Option (LinkedList A)
  vacate l idx = do
    node ← get_elem? l.nodes idx
    some (record l {
      vacancy_head = idx;
      nodes = set l.nodes idx (record node { next = l.vacancy_head });
    })

  -- What `remove` does after `node.data.take()?`.
  pub detach : LinkedList A → ℕ → Node A → Option (LinkedList A)
  detach l idx node = do
    let taken = record l { nodes = set l.nodes idx (record node { datum = none }) }
    l1 ← unlink_prev taken node.prev node.next
    l2 ← unlink_next l1 node.prev node.next
    vacate l2 idx

  pub remove : LinkedList A → ℕ → Option (Option A × LinkedList A)
  remove l idx = if leb (length l.nodes) idx then some (none, l) else take
    where
      take : Option (Option A × LinkedList A)
      take = do
        node ← get_elem? l.nodes idx
        elim node.datum [
          | none ↦ some (none, l)
          | some val ↦ detach l idx node >>= λ l'. some (some val, l')
        ]

  pub into_iter : LinkedList A → LinkedListIter A
  into_iter l = record { head = l.head; nodes = l.nodes }

  -- `Iterator::next`: the outer `none` is a panic, the inner one the end of the iteration.
  pub next : LinkedListIter A → Option (Option A × LinkedListIter A)
  next it = if it.head == null then some (none, it) else step
    where
      step : Option (Option A × LinkedListIter A)
      step = do
        node ← get_elem? it.nodes it.head
        some (
          node.datum,
          record { head = node.next; nodes = set it.nodes it.head (record node { datum = none }) },
        )

  -- `for x in iter`, until `next` gives the end. `none` is a panic, or the fuel has run out.
  pub collect : ℕ → LinkedListIter A → Option (List A)
  collect zero it = none
  collect (suc fuel) it = elim (next it) [
    | none ↦ none
    | some (none, it') ↦ some []
    | some (some a, it') ↦ collect fuel it' >>= λ rest. some (a ∷ rest)
  ]
