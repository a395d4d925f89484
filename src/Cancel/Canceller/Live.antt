-- ===== src/Cancel/Canceller/Live.antt =====
-- The waker list, the index cells and the pending waiters, while nothing is over.
use monolake.Base.{ℕ, ◌<◌, List, [], ◌∷◌, ◌++◌, Option, none, some, ◌≡◌, ◌≢◌, ◌∙◌, arith, length}
use monolake.Cancel.LinkedList.{LinkedList, null, new, put, push_back, remove}
use monolake.Cancel.LinkedList.Segment.{Avoids, Distinct, Distinct-concat}
use monolake.Cancel.LinkedList.Represents.{
  Represents, lookup, erase, lookup-concat, new-Represents, lookup-Avoids,
}
use monolake.Cancel.LinkedList.Push.{push_back_lem}
use monolake.Cancel.LinkedList.Remove.{remove_lem}
use monolake.Cancel.LinkedList.Write.{replace, put_lem, replace-Distinct, lookup-replace}
use monolake.Cancel.Canceller.{put_index}
use monolake.Cancel.Canceller.Tracks.{
  Tracks, Injective, Tracks-length, Tracks-lookup, Tracks-replace, Tracks-put, Tracks-concat,
  Tracks-erase, Tracks-Avoids, Tracks-none, erase-Avoids_self, erase-Distinct, lookup-erase,
}

-- While nothing is over: the waker list stands for entries that are in step with the pending waiters,
-- and a waiter has an index exactly if it pends.
pub record Live (l : LinkedList ℕ) (ix : ℕ → Option ℕ) (ps : List (ℕ × ℕ)) : Type 0 where
  pub entries : List (ℕ × ℕ)
  pub vacant : List ℕ
  pub represents : Represents l entries vacant
  pub tracks : Tracks ix ps entries
  pub injective : Injective ix
  pub once : Distinct ps
  pub known : (w i : ℕ) → ix w ≡ some i → lookup w ps ≢ none

pub new-Live : Live new (λ _. none) []
new-Live = record {
  entries = [];
  vacant = [];
  represents = new-Represents;
  tracks = tt;
  injective = λ w v i e. cc;
  once = tt;
  known = λ w i e. cc;
}

unused_index :
    {l : LinkedList ℕ} {ix : ℕ → Option ℕ} {ps : List (ℕ × ℕ)} (r : Live l ix ps) (u idx : ℕ)
    → Avoids idx r.entries
    → ix u ≢ some idx
unused_index {ix} {ps} r u idx av e =
    r.known u idx e (lookup-Avoids u ps (Tracks-Avoids ix ps r.entries u idx r.tracks av e))

-- A first poll: `push_back`, and the index is kept.
pub push-Live :
    (l : LinkedList ℕ) (ix : ℕ → Option ℕ) (ps : List (ℕ × ℕ)) (w k : ℕ)
    → Live l ix ps
    → length ps < null
    → ix w ≡ none
    → (idx : ℕ) × (l' : LinkedList ℕ) × (push_back l k ≡ some (idx, l'))
      × Live l' (put_index ix w (some idx)) (ps ++ (w, k) ∷ [])
push-Live l ix ps w k r small e =
    let same = Tracks-length ix ps r.entries r.tracks in
    let (idx, l', vs', q, av, rep) =
      push_back_lem l k r.entries r.vacant r.represents (omega (arith, same)) in
    (
      idx,
      l',
      q,
      record {
        entries = r.entries ++ (idx, k) ∷ [];
        vacant = vs';
        represents = rep;
        tracks =
            Tracks-concat _ ps r.entries w idx k
              (Tracks-put ix ps r.entries w (some idx) (Tracks-none ix ps r.entries w r.tracks e)
                r.tracks)
              (ground arith);
        injective = λ u v j p q.
            ground (arith, r.injective u v j, unused_index r u idx av, unused_index r v idx av);
        once = Distinct-concat w k ps (Tracks-none ix ps r.entries w r.tracks e) r.once;
        known = λ u j p n.
            ground (
              arith,
              r.known u j,
              lookup-concat w k ps u (Tracks-none ix ps r.entries w r.tracks e),
            );
      },
    )

-- A later poll: the waker is replaced.
pub put-Live :
    (l : LinkedList ℕ) (ix : ℕ → Option ℕ) (ps : List (ℕ × ℕ)) (w i k old : ℕ)
    → Live l ix ps
    → ix w ≡ some i
    → lookup w ps ≡ some old
    → (l' : LinkedList ℕ) × (put l i k ≡ some l') × Live l' ix (replace w k ps)
put-Live l ix ps w i k old r e f =
    let (l', q, rep) =
      put_lem l i old k r.entries r.vacant r.represents
        (Tracks-lookup ix ps r.entries w i r.injective r.tracks e ∙ f) in
    (
      l',
      q,
      record {
        entries = replace i k r.entries;
        vacant = r.vacant;
        represents = rep;
        tracks = Tracks-replace ix ps r.entries w i k r.injective r.tracks e;
        injective = r.injective;
        once = replace-Distinct w k ps r.once;
        known = λ v j g. ground (arith, r.known v j g, lookup-replace w k old ps v f);
      },
    )

-- The drop of a waiter that has an index.
pub drop-Live :
    (l : LinkedList ℕ) (ix : ℕ → Option ℕ) (ps : List (ℕ × ℕ)) (w i : ℕ)
    → Live l ix ps
    → ix w ≡ some i
    → (o : Option ℕ) × (l' : LinkedList ℕ) × (remove l i ≡ some (o, l'))
      × Live l' (put_index ix w none) (erase w ps)
drop-Live l ix ps w i r e =
    let (l', vs', q, rep) = remove_lem l i r.entries r.vacant r.represents in
    (
      lookup i r.entries,
      l',
      q,
      record {
        entries = erase i r.entries;
        vacant = vs';
        represents = rep;
        tracks =
            Tracks-put ix (erase w ps) (erase i r.entries) w none (erase-Avoids_self w ps r.once)
              (Tracks-erase ix ps r.entries w i r.injective r.tracks e);
        injective = λ u v j p q. ground (arith, r.injective u v j);
        once = erase-Distinct w ps r.once;
        known = λ u j p n. ground (arith, r.known u j, lookup-erase w ps u r.once);
      },
    )
