-- ===== src/Cancel/Canceller/Refines.antt =====
-- What each method of a canceller or a waiter does, in the view.
use mathlib.Core.Path.{subst, subst₂}
use monolake.Base.{
  ℕ, suc, ◌+◌, ◌-◌, ◌<◌, true, false, List, [], ◌∷◌, ◌++◌, Option, none, some, ◌≡◌, ◌≢◌, refl, ap,
  arith, ◌==◌, length, Option-cases, Bool-cases, inl, inr,
}
use monolake.Cancel.LinkedList.{LinkedList, null, new}
use monolake.Cancel.LinkedList.Represents.{lookup, erase, lookup-Avoids, erase-Avoids}
use monolake.Cancel.LinkedList.Iter.{values, collect-into_iter}
use monolake.Cancel.LinkedList.Write.{replace}
use monolake.Cancel.Canceller.{
  World, put_index, init, cancel, clone, release, poll, drop_waiter, drops_waiter,
}
use monolake.Cancel.Canceller.Spec.{
  View, start, is_over, cancel_view, release_view, poll_view, step_view,
}
use monolake.Cancel.Canceller.Tracks.{Tracks-values, Tracks-none}
use monolake.Cancel.Canceller.Live.{Live, new-Live, push-Live, put-Live, drop-Live}

-- A program state and its view.
pub record Refines (s : World) (v : View) : Type 0 where
  pub strong : s.strong ≡ v.strong
  pub cancelled : s.cancelled ≡ v.cancelled
  pub woken : s.woken ≡ v.woken
  pub live : is_over v ≡ false → Live s.waiters s.index v.pend
  pub over : is_over v ≡ true → v.pend ≡ []

pub init-Refines : Refines init start
unfolding init
init-Refines = record {
  strong = refl;
  cancelled = refl;
  woken = refl;
  live = λ _. new-Live;
  over = λ e. cc;
}

pub view-eq : {s : World} {u v : View} → u ≡ v → Refines s u → Refines s v
view-eq {s} e r = subst (λ x. Refines s x) e r

over-Refines :
    (s : World) (v : View) (ix : ℕ → Option ℕ)
    → Refines s v
    → is_over v ≡ true
    → Refines (record s { index = ix }) v
over-Refines s v ix r h = record {
  strong = r.strong;
  cancelled = r.cancelled;
  woken = r.woken;
  live = λ e. cc;
  over = r.over;
}

-- Only the pending waiters change, and nothing is over.
pending-Refines :
    (s : World) (v : View) (l : LinkedList ℕ) (ix : ℕ → Option ℕ) (ps : List (ℕ × ℕ))
    → Refines s v
    → is_over v ≡ false
    → Live l ix ps
    → Refines (record s { waiters = l; index = ix }) (record v { pend = ps })
pending-Refines s v l ix ps r h lv = record {
  strong = r.strong;
  cancelled = r.cancelled;
  woken = r.woken;
  live = λ _. lv;
  over = λ e. cc;
}

-- `poll` never panics, its `unwrap` included, and returns what the view says.
pub poll-Refines :
    (s : World) (v : View) (w k : ℕ)
    → Refines s v
    → length v.pend < null
    → (s' : World) × (poll s w k ≡ some ((poll_view v w k).0, s')) × Refines s' (poll_view v w k).1
unfolding poll
poll-Refines s v w k r small = elim (Bool-cases (is_over v)) [
  | inl over ↦ (
    s,
    ground (arith, over, r.strong, r.cancelled),
    view-eq (let e : v ≡ (poll_view v w k).1 = ground (arith, over) in e) r,
  )
  | inr live ↦ elim (Option-cases (s.index w)) [
    | inl fresh ↦
        let lv = r.live live in
        let av = lookup-Avoids w v.pend (Tracks-none s.index v.pend lv.entries w lv.tracks fresh) in
        let (idx, l', q, lv') = push-Live s.waiters s.index v.pend w k lv small fresh in
        (
          record s { waiters = l'; index = put_index s.index w (some idx) },
          ground (arith, live, fresh, q, r.strong, r.cancelled),
          view-eq
              (let e : record v { pend = v.pend ++ (w, k) ∷ [] } ≡ (poll_view v w k).1 =
                  ground (arith, live, av) in
                e)
              (pending-Refines s v l' (put_index s.index w (some idx)) (v.pend ++ (w, k) ∷ []) r
                live lv'),
        )
    | inr (i, e) ↦ elim (Option-cases (lookup w v.pend)) [
      | inl lost ↦ absurd ((r.live live).known w i e lost)
      | inr (old, f) ↦
          let (l', q, lv') = put-Live s.waiters s.index v.pend w i k old (r.live live) e f in
          (
            record s { waiters = l' },
            ground (arith, live, e, q, r.strong, r.cancelled),
            view-eq
                (let e : record v { pend = replace w k v.pend } ≡ (poll_view v w k).1 =
                    ground (arith, live, f) in
                  e)
                (pending-Refines s v l' s.index (replace w k v.pend) r live lv'),
          )
    ]
  ]
]

pub drop_waiter-Refines :
    (s : World) (v : View) (w : ℕ)
    → Refines s v
    → (s' : World) × (drop_waiter s w ≡ some s') × Refines s' (step_view v (drops_waiter w))
unfolding drop_waiter
drop_waiter-Refines s v w r = elim (Bool-cases (is_over v)) [
  | inl over ↦
      let same : v ≡ step_view v (drops_waiter w) = ground (arith, over) in
      elim (Option-cases (s.index w)) [
        | inl fresh ↦ (s, ground (arith, fresh), view-eq same r)
        | inr (i, e) ↦ (
          record s { index = put_index s.index w none },
          ground (arith, over, e, r.strong, r.cancelled),
          view-eq same (over-Refines s v (put_index s.index w none) r over),
        )
      ]
  | inr live ↦ elim (Option-cases (s.index w)) [
    | inl fresh ↦
        let lv = r.live live in
        let av = erase-Avoids w v.pend (Tracks-none s.index v.pend lv.entries w lv.tracks fresh) in
        (
          s,
          ground (arith, fresh),
          view-eq (let e : v ≡ step_view v (drops_waiter w) = ground (arith, live, av) in e) r,
        )
    | inr (i, e) ↦
        let (o, l', q, lv') = drop-Live s.waiters s.index v.pend w i (r.live live) e in
        (
          record s { waiters = l'; index = put_index s.index w none },
          ground (arith, live, e, q, r.strong, r.cancelled),
          view-eq
              (let e : record v { pend = erase w v.pend } ≡ step_view v (drops_waiter w) =
                  ground (arith, live) in
                e)
              (pending-Refines s v l' (put_index s.index w none) (erase w v.pend) r live lv'),
        )
  ]
]

pub cancel-Refines :
    (s : World) (v : View)
    → Refines s v
    → v.strong ≢ 0
    → (s' : World) × (cancel s ≡ some s') × Refines s' (cancel_view v)
unfolding cancel
cancel-Refines s v r h = elim (Bool-cases v.cancelled) [
  | inl done ↦ (
    s,
    ground (arith, done, r.cancelled),
    view-eq (let e : v ≡ cancel_view v = ground (arith, done) in e) r,
  )
  | inr fresh ↦
      let lv = r.live (ground arith) in
      let rep = lv.represents in
      let all =
        collect-into_iter s.waiters lv.entries lv.vacant (suc (length (s.waiters).nodes)) rep
          (omega (arith, rep.filled)) in
      (
        record s { cancelled = true; waiters = new; woken = s.woken ++ values lv.entries },
        ground (arith, fresh, r.cancelled, all),
        view-eq
            (let e : record v { cancelled = true; pend = []; woken = v.woken ++ values v.pend }
                  ≡ cancel_view v =
                ground (arith, fresh) in
              e)
            (record {
              strong = r.strong;
              cancelled = refl;
              woken = ground (arith, r.woken, Tracks-values s.index v.pend lv.entries lv.tracks);
              live = λ e. ground arith;
              over = λ _. refl;
            }),
      )
]

pub release-Refines :
    (s : World) (v : View) → Refines s v → v.strong ≢ 0 → Refines (release s) (release_view v)
unfolding release
release-Refines s v r h = elim (Bool-cases (v.strong == 1)) [
  | inl last ↦
      let freed : World = record s { strong = 0; waiters = new } in
      let view : View = record v { strong = 0; pend = [] } in
      let es : freed ≡ release s = ground (arith, last, r.strong) in
      let ev : view ≡ release_view v = ground (arith, last) in
      subst₂ Refines es ev (record {
        strong = refl;
        cancelled = r.cancelled;
        woken = r.woken;
        live = λ e. ground arith;
        over = λ _. refl;
      })
  | inr more ↦
      let fewer : World = record s { strong = s.strong - 1 } in
      let view : View = record v { strong = v.strong - 1 } in
      let es : fewer ≡ release s = ground (arith, more, r.strong) in
      let ev : view ≡ release_view v = ground (arith, more) in
      subst₂ Refines es ev (record {
        strong = ap (λ n. n - 1) r.strong;
        cancelled = r.cancelled;
        woken = r.woken;
        live = λ e. r.live (ground arith);
        over = λ e. r.over (ground arith);
      })
]

pub clone-Refines :
    (s : World) (v : View)
    → Refines s v
    → v.strong ≢ 0
    → Refines (clone s) (record v { strong = v.strong + 1 })
unfolding clone
clone-Refines s v r h = record {
  strong = ap (λ n. n + 1) r.strong;
  cancelled = r.cancelled;
  woken = r.woken;
  live = λ e. r.live (ground arith);
  over = λ e. r.over (ground arith);
}
