-- ===== src/Http/H2/Count.antt =====
-- Requests are neither lost nor doubled by the HTTP/2 loop: how many there are for which a test holds.
use monolake.Base.{
  ℕ, ◌+◌, Bool, false, List, [], ◌∷◌, Option, none, some, get_elem?, if◌then◌else◌, Result, ok, err,
  Option-cases, inl, inr, ◌≡◌, refl, arith,
}
use monolake.Http.Message.{HeaderMaps}
use monolake.Http.H2.{
  Frame, Reply, Loop, Choice, receive, backend_next, frontend_next, without, on_receive, on_handled,
  turn, h2_process_response, error_frames,
}
use monolake.Http.H2.Sets.{count, count-append, count-nil, count-cons, count-without}

module _ (h : HeaderMaps) (Bytes E : Type 0) (no_bytes : Bytes) (R Err : Type 0) (takes : ℕ → Bool)
    (handle : R → Result (Reply h Bytes E no_bytes × Bool) Err) where
  abbrev pub Req : Type 0
  Req = R × ℕ

  abbrev pub Ans : Type 0
  Ans = Req × List (Frame h.Map Bytes)

  abbrev pub State : Type 0
  State = Loop h Bytes E no_bytes R Err takes handle

  abbrev pub is_request : (Req → Bool) → Req → Bool
  is_request k s = k s

  abbrev pub is_answer : (Req → Bool) → Ans → Bool
  is_answer k a = k a.0

  abbrev pub is_reply : (Req → Bool) → Reply h Bytes E no_bytes × Req → Bool
  is_reply k f = k f.1

  abbrev pub is_queued : (Req → Bool) → Option Req → Bool
  is_queued k none = false
  is_queued k (some s) = k s

  -- What the stream of a request gets, by the handler's result for the request.
  abbrev pub answer_of :
      Req → Result (Reply h Bytes E no_bytes × Bool) Err → List (Frame h.Map Bytes)
  answer_of s (ok (response, cont)) = h2_process_response h Bytes E no_bytes (takes s.1) response
  answer_of s (err e) = if takes s.1 then error_frames h Bytes E no_bytes R Err takes handle else []

  abbrev pub IsAnswered : Ans → Type 0
  IsAnswered a = a.1 ≡ answer_of a.0 (handle a.0.0)

  abbrev pub IsHandled : Reply h Bytes E no_bytes × Req → Type 0
  IsHandled f =
      answer_of f.1 (handle f.1.0) ≡ h2_process_response h Bytes E no_bytes (takes f.1.1) f.0

  unfoldable pub total : (Req → Bool) → State → ℕ
  total k l =
      count (is_queued k) l.queue
      + count (is_request k) l.backend
      + count (is_reply k) l.frontend
      + count (is_answer k) l.log

  on_receive-total :
      (k : Req → Bool) (l : State) (queue : List (Option Req))
      → l.queue ≡ queue
      → total k (on_receive h Bytes E no_bytes R Err takes handle l queue) ≡ total k l
  unfolding total
  on_receive-total k l [] e = refl
  on_receive-total k l (none ∷ queue) e =
      rw e (rw (count-cons (is_queued k) none queue) (omega arith))
  on_receive-total k l (some s ∷ queue) e = rw e (
      omega (
        arith,
        count-cons (is_queued k) (some s) queue,
        count-append (is_request k) l.backend (s ∷ []),
        count-cons (is_request k) s [],
        count-nil (is_request k),
      ))

  on_handled-total :
      (k : Req → Bool) (l : State) (s : Req) (r : Result (Reply h Bytes E no_bytes × Bool) Err)
      → total k (on_handled h Bytes E no_bytes R Err takes handle l s r)
        ≡ (if is_request k s then 1 else 0) + total k l
  unfolding total
  on_handled-total k l s (ok (response, cont)) = omega (
    arith,
    count-append (is_reply k) l.frontend ((response, s) ∷ []),
    count-cons (is_reply k) (response, s) [],
    count-nil (is_reply k),
  )
  on_handled-total k l s (err e) =
      let a : Ans = (s, answer_of s (err e)) in
      omega (
        arith,
        count-append (is_answer k) l.log (a ∷ []),
        count-cons (is_answer k) a [],
        count-nil (is_answer k),
      )

  abbrev pub go : State → Choice h Bytes E no_bytes R Err takes handle → State
  go l c = turn h Bytes E no_bytes R Err takes handle l c

  pub turn-total :
      (k : Req → Bool) (l : State) (c : Choice h Bytes E no_bytes R Err takes handle)
      → total k (go l c) ≡ total k l
  unfolding total
  turn-total k l receive = on_receive-total k l l.queue refl
  turn-total k l (backend_next i) = elim (Option-cases (get_elem? l.backend i)) [
    | inl e ↦ rw (e, turn)
    | inr (s, e) ↦
        rw (e, turn)
          (omega (
            arith,
            on_handled-total k (record l { backend = without l.backend i }) s (handle s.0),
            count-without (is_request k) l.backend i s e,
          ))
  ]
  turn-total k l (frontend_next i) = elim (Option-cases (get_elem? l.frontend i)) [
    | inl e ↦ rw (e, turn)
    | inr (f, e) ↦
        let a : Ans = (f.1, h2_process_response h Bytes E no_bytes (takes f.1.1) f.0) in
        rw (e, turn)
          (omega (
            arith,
            count-append (is_answer k) l.log (a ∷ []),
            count-cons (is_answer k) a [],
            count-nil (is_answer k),
            count-without (is_reply k) l.frontend i f e,
          ))
  ]
