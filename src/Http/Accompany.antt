-- ===== src/Http/Accompany.antt =====
-- monolake-services/src/http/util.rs: `AccompanyPair`, a future with a second one that is polled beside
-- it, and `Accompany`, which is left of the pair. A future is a state with the function that polls it.
use monolake.Base.{ℕ, zero, suc, Option, none, some, ◌⊎◌, inl, inr, ◌≡◌, refl, ap, ◌∙◌}

pub data Poll (T : Type 0) : Type 0 where
  ready : T → Poll T
  pending : Poll T

Poll-cases : {T : Type 0} (r : Poll T) → ((t : T) × (r ≡ ready t)) ⊎ (r ≡ pending)
Poll-cases (ready t) = inl (t, refl)
Poll-cases pending = inr refl

module _ (Acc T : Type 0) (poll_acc : Acc → Poll T × Acc) where
  pub record Accompany : Type 0 where
    pub accompany : Acc
    pub accompany_slot : Option T

  pub record AccompanyPair (Main : Type 0) : Type 0 where
    pub main : Main
    pub accompany : Acc
    pub accompany_slot : Option T

  pub new : {Main : Type 0} → Main → Acc → AccompanyPair Main
  new main accompany = record { main = main; accompany = accompany; accompany_slot = none }

  pub replace : {Main Main2 : Type 0} → AccompanyPair Main → Main2 → AccompanyPair Main2
  replace p main = record {
    main = main;
    accompany = p.accompany;
    accompany_slot = p.accompany_slot;
  }

  pub into_accompany : {Main : Type 0} → AccompanyPair Main → Accompany
  into_accompany p = record { accompany = p.accompany; accompany_slot = p.accompany_slot }

  -- The second future, polled only while the slot is empty.
  abbrev pub poll_slot : Acc → Option T → Acc × Option T
  poll_slot a (some t) = (a, some t)
  poll_slot a none =
      let (r, a') = poll_acc a in elim r [ ready t ↦ (a', some t) | pending ↦ (a', none) ]

  pub poll_pair :
      {Main O : Type 0} (poll_main : Main → Poll O × Main)
      → AccompanyPair Main
      → Poll O × AccompanyPair Main
  poll_pair poll_main p =
      let (a, slot) = poll_slot p.accompany p.accompany_slot in
      let (r, main) = poll_main p.main in
      (r, record { main = main; accompany = a; accompany_slot = slot })

  pub poll_accompany : Accompany → Poll T × Accompany
  poll_accompany f = elim f.accompany_slot [
    | some t ↦ (ready t, record f { accompany_slot = none })
    | none ↦ let (r, a) = poll_acc f.accompany in (r, record f { accompany = a })
  ]

  -- A future polled until it is ready, but `n` times at most.
  abbrev pub first_ready : ℕ → Acc → Acc × Option T
  first_ready zero a = (a, none)
  first_ready (suc n) a =
      let (r, a') = poll_acc a in
      let later = first_ready n a' in elim r [ ready t ↦ (a', some t) | pending ↦ later ]

  module _ (Main O : Type 0) (poll_main : Main → Poll O × Main) where
    -- `n` polls of the pair.
    abbrev pub polls : ℕ → AccompanyPair Main → AccompanyPair Main
    polls zero p = p
    polls (suc n) p = polls n (poll_pair poll_main p).1

    abbrev pub beside : AccompanyPair Main → Acc × Option T
    beside p = (p.accompany, p.accompany_slot)

    polls-ready :
        (n : ℕ) (main : Main) (a : Acc) (t : T)
        → beside (polls n (record { main = main; accompany = a; accompany_slot = some t }))
          ≡ (a, some t)
    unfolding poll_pair
    polls-ready zero main a t = refl
    polls-ready (suc n) main a t = polls-ready n (poll_main main).1 a t

    -- However often the pair is polled, the second future is polled each time until it is ready and
    -- never again, and its value is kept.
    pub polls-new :
        (n : ℕ) (main : Main) (a : Acc) → beside (polls n (new main a)) ≡ first_ready n a
    unfolding poll_pair new
    polls-new zero main a = refl
    polls-new (suc n) main a = elim (Poll-cases (poll_acc a).0) [
      | inl (t, e) ↦
          ap (λ slot. beside (polls n (after slot))) (slot-ready t e)
          ∙ polls-ready n (poll_main main).1 (poll_acc a).1 t
          ∙ rw (e, first_ready)
      | inr e ↦
          ap (λ slot. beside (polls n (after slot))) (slot-pending e)
          ∙ polls-new n (poll_main main).1 (poll_acc a).1
          ∙ rw (e, first_ready)
    ]
      where
        after : Acc × Option T → AccompanyPair Main
        after slot = record {
          main = (poll_main main).1;
          accompany = slot.0;
          accompany_slot = slot.1;
        }

        slot-ready :
            (t : T) → (poll_acc a).0 ≡ ready t → poll_slot a none ≡ ((poll_acc a).1, some t)
        slot-ready t e = rw (e, poll_slot)

        slot-pending : (poll_acc a).0 ≡ pending → poll_slot a none ≡ ((poll_acc a).1, none)
        slot-pending e = rw (e, poll_slot)
