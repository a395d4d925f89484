-- ===== src/Cancel/Canceller/Tracks.antt =====
-- How the pending waiters stand to the entries of the waker list: in step, through the index cells.
use mathlib.Core.Path.{subst}
use monolake.Base.{
  if◌then◌else◌, ℕ, suc, List, [], ◌∷◌, ◌++◌, Option, none, some, ◌≡◌, refl, ap, arith, ◌==◌,
  length, Bool-cases, inl, inr, ==_iff,
}
use monolake.Cancel.LinkedList.Segment.{Avoids, Distinct}
use monolake.Cancel.LinkedList.Represents.{lookup, erase, lookup-Avoids}
use monolake.Cancel.LinkedList.Write.{replace}
use monolake.Cancel.LinkedList.Iter.{values}
use monolake.Cancel.Canceller.{put_index}

abbrev pub Tracks : (ℕ → Option ℕ) → List (ℕ × ℕ) → List (ℕ × ℕ) → Type 0
Tracks ix [] [] = Unit {0}
Tracks ix [] (e ∷ es) = ⊥
Tracks ix (p ∷ ps) [] = ⊥
Tracks ix ((w, k) ∷ ps) ((i, c) ∷ es) = (ix w ≡ some i) × (k ≡ c) × Tracks ix ps es

-- No two waiters have one index.
abbrev pub Injective : (ℕ → Option ℕ) → Type 0
Injective ix = (w v i : ℕ) → ix w ≡ some i → ix v ≡ some i → w ≡ v

pub Tracks-length :
    (ix : ℕ → Option ℕ) (ps es : List (ℕ × ℕ)) → Tracks ix ps es → length ps ≡ length es
Tracks-length ix [] [] t = refl
Tracks-length ix [] (e ∷ es) t = absurd t
Tracks-length ix (p ∷ ps) [] t = absurd t
Tracks-length ix (p ∷ ps) (e ∷ es) t = ap suc (Tracks-length ix ps es t.2)

pub Tracks-values :
    (ix : ℕ → Option ℕ) (ps es : List (ℕ × ℕ)) → Tracks ix ps es → values ps ≡ values es
Tracks-values ix [] [] t = refl
Tracks-values ix [] (e ∷ es) t = absurd t
Tracks-values ix (p ∷ ps) [] t = absurd t
Tracks-values ix ((w, k) ∷ ps) ((i, c) ∷ es) t = ground (arith, t.1, Tracks-values ix ps es t.2)

pub Tracks-lookup :
    (ix : ℕ → Option ℕ) (ps es : List (ℕ × ℕ)) (w i : ℕ)
    → Injective ix
    → Tracks ix ps es
    → ix w ≡ some i
    → lookup i es ≡ lookup w ps
Tracks-lookup ix [] [] w i inj t e = refl
Tracks-lookup ix [] (x ∷ es) w i inj t e = absurd t
Tracks-lookup ix (p ∷ ps) [] w i inj t e = absurd t
Tracks-lookup ix ((v, k) ∷ ps) ((j, c) ∷ es) w i inj t e =
    ground (arith, t.0, t.1, e, inj v w i, Tracks-lookup ix ps es w i inj t.2 e)

pub Tracks-replace :
    (ix : ℕ → Option ℕ) (ps es : List (ℕ × ℕ)) (w i b : ℕ)
    → Injective ix
    → Tracks ix ps es
    → ix w ≡ some i
    → Tracks ix (replace w b ps) (replace i b es)
Tracks-replace ix [] [] w i b inj t e = tt
Tracks-replace ix [] (x ∷ es) w i b inj t e = absurd t
Tracks-replace ix (p ∷ ps) [] w i b inj t e = absurd t
Tracks-replace ix ((v, k) ∷ ps) ((j, c) ∷ es) w i b inj t e =
    ground (arith, t.0, t.1, t.2, e, inj v w i, Tracks-replace ix ps es w i b inj t.2 e)

pub Tracks-put :
    (ix : ℕ → Option ℕ) (ps es : List (ℕ × ℕ)) (w : ℕ) (o : Option ℕ)
    → Avoids w ps
    → Tracks ix ps es
    → Tracks (put_index ix w o) ps es
Tracks-put ix [] [] w o av t = tt
Tracks-put ix [] (x ∷ es) w o av t = absurd t
Tracks-put ix (p ∷ ps) [] w o av t = absurd t
Tracks-put ix ((v, k) ∷ ps) ((j, c) ∷ es) w o av t =
    (ground (arith, av.0, t.0), t.1, Tracks-put ix ps es w o av.1 t.2)

pub Tracks-concat :
    (ix : ℕ → Option ℕ) (ps es : List (ℕ × ℕ)) (w i k : ℕ)
    → Tracks ix ps es
    → ix w ≡ some i
    → Tracks ix (ps ++ (w, k) ∷ []) (es ++ (i, k) ∷ [])
Tracks-concat ix [] [] w i k t e = (e, refl, tt)
Tracks-concat ix [] (x ∷ es) w i k t e = absurd t
Tracks-concat ix (p ∷ ps) [] w i k t e = absurd t
Tracks-concat ix (p ∷ ps) (x ∷ es) w i k t e = (t.0, t.1, Tracks-concat ix ps es w i k t.2 e)

pub Tracks-erase :
    (ix : ℕ → Option ℕ) (ps es : List (ℕ × ℕ)) (w i : ℕ)
    → Injective ix
    → Tracks ix ps es
    → ix w ≡ some i
    → Tracks ix (erase w ps) (erase i es)
Tracks-erase ix [] [] w i inj t e = tt
Tracks-erase ix [] (x ∷ es) w i inj t e = absurd t
Tracks-erase ix (p ∷ ps) [] w i inj t e = absurd t
Tracks-erase ix ((v, k) ∷ ps) ((j, c) ∷ es) w i inj t e =
    ground (arith, t.0, t.1, t.2, e, inj v w i, Tracks-erase ix ps es w i inj t.2 e)

-- A waiter whose slot no entry has does not pend.
pub Tracks-Avoids :
    (ix : ℕ → Option ℕ) (ps es : List (ℕ × ℕ)) (w i : ℕ)
    → Tracks ix ps es
    → Avoids i es
    → ix w ≡ some i
    → Avoids w ps
Tracks-Avoids ix [] [] w i t av e = tt
Tracks-Avoids ix [] (x ∷ es) w i t av e = absurd t
Tracks-Avoids ix (p ∷ ps) [] w i t av e = absurd t
Tracks-Avoids ix ((v, k) ∷ ps) ((j, c) ∷ es) w i t av e =
    ((λ q. ground (arith, av.0, t.0, e, q)), Tracks-Avoids ix ps es w i t.2 av.1 e)

-- A waiter without an index does not pend.
pub Tracks-none :
    (ix : ℕ → Option ℕ) (ps es : List (ℕ × ℕ)) (w : ℕ) → Tracks ix ps es → ix w ≡ none → Avoids w ps
Tracks-none ix [] [] w t e = tt
Tracks-none ix [] (x ∷ es) w t e = absurd t
Tracks-none ix (p ∷ ps) [] w t e = absurd t
Tracks-none ix ((v, k) ∷ ps) ((j, c) ∷ es) w t e =
    ((λ q. ground (arith, t.0, e, q)), Tracks-none ix ps es w t.2 e)

pub erase-Avoids_self : (w : ℕ) (ps : List (ℕ × ℕ)) → Distinct ps → Avoids w (erase w ps)
erase-Avoids_self w [] d = tt
erase-Avoids_self w ((v, k) ∷ ps) d = elim (Bool-cases (v == w)) [
  | inl hit ↦ rw hit (subst (λ u. Avoids u ps) ((==_iff v w).0 hit) d.0)
  | inr miss ↦ rw miss (ground arith, erase-Avoids_self w ps d.1)
]

pub erase-Avoids_other : (w v : ℕ) (ps : List (ℕ × ℕ)) → Avoids v ps → Avoids v (erase w ps)
erase-Avoids_other w v [] av = tt
erase-Avoids_other w v ((u, k) ∷ ps) av = ground (arith, erase-Avoids_other w v ps av.1)

pub erase-Distinct : (w : ℕ) (ps : List (ℕ × ℕ)) → Distinct ps → Distinct (erase w ps)
erase-Distinct w [] d = tt
erase-Distinct w ((v, k) ∷ ps) d =
    ground (arith, erase-Avoids_other w v ps d.0, erase-Distinct w ps d.1)

pub lookup-erase :
    (w : ℕ) (ps : List (ℕ × ℕ)) (u : ℕ)
    → Distinct ps
    → lookup u (erase w ps) ≡ (if w == u then none else lookup u ps)
lookup-erase w [] u d = ground arith
lookup-erase w ((v, k) ∷ ps) u d = ground (arith, lookup-Avoids v ps d.0, lookup-erase w ps u d.1)
