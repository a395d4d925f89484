-- ===== src/Http/H2/Answers.antt =====
-- Every request of an HTTP/2 connection is answered, whatever order the handlers end in.
use monolake.Base.{
  ℕ, Bool, true, false, List, [], ◌∷◌, Option, none, some, get_elem?, if◌then◌else◌, Result, ok,
  err, Option-cases, Result-cases, Bool-cases, inl, inr, ◌≡◌, refl, sym, ap, ◌∙◌, arith,
}
use mathlib.Core.Path.{subst}
use monolake.Http.Message.{HeaderMaps, generate_response}
use monolake.Http.H2.{
  Frame, head, Reply, Choice, receive, backend_next, frontend_next, without, idle, on_receive,
  on_handled, turn, h2_svc, h2_process_response,
}
use monolake.Http.H2.Frames.{Answers, h2_process_response-Answers, h2_process_response-none}
use monolake.Http.H2.Sets.{
  All, count, count-nil, count-cons, All-append, All-without, All-get_elem?,
}
use monolake.Http.H2.Count.{
  Req, Ans, State, is_request, is_answer, is_reply, is_queued, answer_of, IsAnswered, IsHandled,
  total, go, turn-total,
}

module _ (h : HeaderMaps) (Bytes E : Type 0) (no_bytes : Bytes) (R Err : Type 0) (takes : ℕ → Bool)
    (handle : R → Result (Reply h Bytes E no_bytes × Bool) Err) where
  -- The log and the responses that are sent are right.
  record IsRight (l : (State h Bytes E no_bytes R Err takes handle)) : Type 0 where
    answered : All (IsAnswered h Bytes E no_bytes R Err takes handle) l.log
    handled : All (IsHandled h Bytes E no_bytes R Err takes handle) l.frontend

  on_handled-IsRight :
      (l : (State h Bytes E no_bytes R Err takes handle))
      (s : (Req h Bytes E no_bytes R Err takes handle))
      (r : Result (Reply h Bytes E no_bytes × Bool) Err)
      → handle s.0 ≡ r
      → IsRight l
      → IsRight (on_handled h Bytes E no_bytes R Err takes handle l s r)
  on_handled-IsRight l s (ok (response, cont)) e right = record {
    answered = right.answered;
    handled =
        All-append (IsHandled h Bytes E no_bytes R Err takes handle) l.frontend ((response, s) ∷ [])
          right.handled (ap ((answer_of h Bytes E no_bytes R Err takes handle) s) e, tt);
  }
  on_handled-IsRight l s (err x) e right = record {
    answered =
        All-append (IsAnswered h Bytes E no_bytes R Err takes handle) l.log
          ((s, (answer_of h Bytes E no_bytes R Err takes handle) s (err x)) ∷ []) right.answered
          (sym (ap ((answer_of h Bytes E no_bytes R Err takes handle) s) e), tt);
    handled = right.handled;
  }

  on_receive-IsRight :
      (l : (State h Bytes E no_bytes R Err takes handle))
      (queue : List (Option (Req h Bytes E no_bytes R Err takes handle)))
      → IsRight l
      → IsRight (on_receive h Bytes E no_bytes R Err takes handle l queue)
  on_receive-IsRight l [] right = record { answered = right.answered; handled = right.handled }
  on_receive-IsRight l (none ∷ queue) right = record {
    answered = right.answered;
    handled = right.handled;
  }
  on_receive-IsRight l (some s ∷ queue) right = record {
    answered = right.answered;
    handled = right.handled;
  }

  turn-IsRight :
      (l : (State h Bytes E no_bytes R Err takes handle))
      (c : Choice h Bytes E no_bytes R Err takes handle)
      → IsRight l
      → IsRight ((go h Bytes E no_bytes R Err takes handle) l c)
  turn-IsRight l receive right = on_receive-IsRight l l.queue right
  turn-IsRight l (backend_next i) right = elim (Option-cases (get_elem? l.backend i)) [
    | inl e ↦ rw (e, turn) right
    | inr (s, e) ↦
        rw (e, turn)
          (on_handled-IsRight (record l { backend = without l.backend i }) s (handle s.0) refl
            (record { answered = right.answered; handled = right.handled }))
  ]
  turn-IsRight l (frontend_next i) right = elim (Option-cases (get_elem? l.frontend i)) [
    | inl e ↦ rw (e, turn) right
    | inr (f, e) ↦
        let a : (Ans h Bytes E no_bytes R Err takes handle) =
          (f.1, h2_process_response h Bytes E no_bytes (takes f.1.1) f.0) in
        rw (e, turn)
          (record {
            answered =
                All-append (IsAnswered h Bytes E no_bytes R Err takes handle) l.log (a ∷ [])
                  right.answered
                  (
                    sym (
                        All-get_elem? (IsHandled h Bytes E no_bytes R Err takes handle) l.frontend i
                          f right.handled e),
                    tt,
                  );
            handled =
                All-without (IsHandled h Bytes E no_bytes R Err takes handle) l.frontend i
                  right.handled;
          })
  ]

  -- Requests that have come, and no error of the connection.
  abbrev pub received :
      List (Req h Bytes E no_bytes R Err takes handle)
      → List (Option (Req h Bytes E no_bytes R Err takes handle))
  received [] = []
  received (s ∷ requests) = some s ∷ received requests

  idle-done :
      (l : (State h Bytes E no_bytes R Err takes handle))
      → idle h Bytes E no_bytes R Err takes handle l ≡ true
      → (l.backend ≡ []) × (l.frontend ≡ [])
  idle-done l e = ground arith

  -- What is left in the channel, and that nothing is left to be done once the loop has ended.
  record IsDone (l : (State h Bytes E no_bytes R Err takes handle)) : Type 0 where
    rest : List (Req h Bytes E no_bytes R Err takes handle)
    waiting : l.queue ≡ received rest
    done : l.ended ≡ true → (rest ≡ []) × (l.backend ≡ []) × (l.frontend ≡ [])

  on_receive-IsDone :
      (l : (State h Bytes E no_bytes R Err takes handle))
      (rest : List (Req h Bytes E no_bytes R Err takes handle))
      → l.ended ≡ false
      → l.queue ≡ received rest
      → IsDone (on_receive h Bytes E no_bytes R Err takes handle l (received rest))
  on_receive-IsDone l [] on w = record {
    rest = [];
    waiting = w;
    done = λ e. (refl, (idle-done l e).0, (idle-done l e).1);
  }
  on_receive-IsDone l (s ∷ rest) on w = record {
    rest = rest;
    waiting = refl;
    done = λ e. absurd (cc (on, e));
  }

  on_handled-same :
      (l : (State h Bytes E no_bytes R Err takes handle))
      (s : (Req h Bytes E no_bytes R Err takes handle))
      (r : Result (Reply h Bytes E no_bytes × Bool) Err)
      → ((on_handled h Bytes E no_bytes R Err takes handle l s r).ended ≡ l.ended)
        × ((on_handled h Bytes E no_bytes R Err takes handle l s r).queue ≡ l.queue)
  on_handled-same l s (ok (response, cont)) = (refl, refl)
  on_handled-same l s (err x) = (refl, refl)

  turn-IsDone :
      (l : (State h Bytes E no_bytes R Err takes handle))
      (c : Choice h Bytes E no_bytes R Err takes handle)
      → l.ended ≡ false
      → IsDone l
      → IsDone ((go h Bytes E no_bytes R Err takes handle) l c)
  turn-IsDone l receive on d =
      subst (λ q. IsDone (on_receive h Bytes E no_bytes R Err takes handle l q)) (sym d.waiting)
        (on_receive-IsDone l d.rest on d.waiting)
  turn-IsDone l (backend_next i) on d = elim (Option-cases (get_elem? l.backend i)) [
    | inl e ↦ rw (e, turn) d
    | inr (s, e) ↦
        let same = on_handled-same (record l { backend = without l.backend i }) s (handle s.0) in
        rw (e, turn)
          (record {
            rest = d.rest;
            waiting = same.1 ∙ d.waiting;
            done = λ e. absurd (cc (on, e, same.0));
          })
  ]
  turn-IsDone l (frontend_next i) on d = elim (Option-cases (get_elem? l.frontend i)) [
    | inl e ↦ rw (e, turn) d
    | inr (f, e) ↦
        rw (e, turn)
          (record { rest = d.rest; waiting = d.waiting; done = λ e. absurd (cc (on, e)) })
  ]

  -- All three hold of the loop as it goes on.
  record IsSound (requests : List (Req h Bytes E no_bytes R Err takes handle))
      (l : (State h Bytes E no_bytes R Err takes handle)) : Type 0 where
    right : IsRight l
    done : IsDone l
    counted :
        (k : Req h Bytes E no_bytes R Err takes handle → Bool)
        → (total h Bytes E no_bytes R Err takes handle) k l
          ≡ count ((is_request h Bytes E no_bytes R Err takes handle) k) requests

  turn-IsSound :
      (requests : List (Req h Bytes E no_bytes R Err takes handle))
      (l : (State h Bytes E no_bytes R Err takes handle))
      (c : Choice h Bytes E no_bytes R Err takes handle)
      → IsSound requests l
      → IsSound requests (if l.ended then l else (go h Bytes E no_bytes R Err takes handle) l c)
  turn-IsSound requests l c sound = step l.ended refl
    where
      step :
          (b : Bool)
          → l.ended ≡ b
          → IsSound requests (if b then l else (go h Bytes E no_bytes R Err takes handle) l c)
      step true e = sound
      step false e = record {
        right = turn-IsRight l c sound.right;
        done = turn-IsDone l c e sound.done;
        counted = λ k. (turn-total h Bytes E no_bytes R Err takes handle) k l c ∙ sound.counted k;
      }

  h2_svc-IsSound :
      (requests : List (Req h Bytes E no_bytes R Err takes handle))
      (choices : List (Choice h Bytes E no_bytes R Err takes handle))
      (l : (State h Bytes E no_bytes R Err takes handle))
      → IsSound requests l
      → IsSound requests (h2_svc h Bytes E no_bytes R Err takes handle l choices)
  unfolding h2_svc
  h2_svc-IsSound requests [] l sound = sound
  h2_svc-IsSound requests (c ∷ choices) l sound =
      h2_svc-IsSound requests choices
        (if l.ended then l else (go h Bytes E no_bytes R Err takes handle) l c)
        (turn-IsSound requests l c sound)

  -- The loop when it begins, with the requests that will come.
  abbrev pub init :
      List (Req h Bytes E no_bytes R Err takes handle)
      → (State h Bytes E no_bytes R Err takes handle)
  init requests = record {
    queue = received requests;
    backend = [];
    frontend = [];
    log = [];
    ended = false;
  }

  init-total :
      (requests : List (Req h Bytes E no_bytes R Err takes handle))
      (k : Req h Bytes E no_bytes R Err takes handle → Bool)
      → count ((is_queued h Bytes E no_bytes R Err takes handle) k) (received requests)
        ≡ count ((is_request h Bytes E no_bytes R Err takes handle) k) requests
  init-total [] k = omega (
    arith,
    count-nil ((is_queued h Bytes E no_bytes R Err takes handle) k),
    count-nil ((is_request h Bytes E no_bytes R Err takes handle) k),
  )
  init-total (s ∷ requests) k = omega (
    arith,
    count-cons ((is_queued h Bytes E no_bytes R Err takes handle) k) (some s) (received requests),
    count-cons ((is_request h Bytes E no_bytes R Err takes handle) k) s requests,
    init-total requests k,
  )

  init-IsSound :
      (requests : List (Req h Bytes E no_bytes R Err takes handle))
      → IsSound requests (init requests)
  unfolding total
  init-IsSound requests = record {
    right = record { answered = tt; handled = tt };
    done = record { rest = requests; waiting = refl; done = λ e. absurd (cc e) };
    counted = λ k. omega (
      arith,
      init-total requests k,
      count-nil ((is_request h Bytes E no_bytes R Err takes handle) k),
      count-nil ((is_reply h Bytes E no_bytes R Err takes handle) k),
      count-nil ((is_answer h Bytes E no_bytes R Err takes handle) k),
    );
  }

  -- What stands in the log for a request: a stream that takes no response gets nothing; else it gets the
  -- handler's response, or the head of a response with status 500 if the handler fails.
  pub data Served : Ans h Bytes E no_bytes R Err takes handle → Type 0 where
    not_taken : (s : Req h Bytes E no_bytes R Err takes handle) → takes s.1 ≡ false → Served (s, [])
    responded :
        (s : Req h Bytes E no_bytes R Err takes handle) (response : Reply h Bytes E no_bytes)
        (cont : Bool) (frames : List (Frame h.Map Bytes))
        → takes s.1 ≡ true
        → handle s.0 ≡ ok (response, cont)
        → Answers h Bytes E no_bytes response frames
        → Served (s, frames)
    failed :
        (s : Req h Bytes E no_bytes R Err takes handle) (x : Err)
        → takes s.1 ≡ true
        → handle s.0 ≡ err x
        → Served (s, head 500 (generate_response h (Unit {0}) 500 false).headers true ∷ [])

  IsAnswered-Served :
      (a : Ans h Bytes E no_bytes R Err takes handle)
      → IsAnswered h Bytes E no_bytes R Err takes handle a
      → Served a
  IsAnswered-Served (s, frames) e =
      subst (λ f. Served (s, f)) (sym e)
        (elim (Result-cases (handle s.0)) [
          | inl ((response, cont), q) ↦ rw q (elim (Bool-cases (takes s.1)) [
            | inl takes_it ↦ responded s response cont _ takes_it q (
                subst
                  (λ b.
                    Answers h Bytes E no_bytes response
                      (h2_process_response h Bytes E no_bytes b response))
                  (sym takes_it) (h2_process_response-Answers h Bytes E no_bytes response))
            | inr refuses ↦
                subst (λ f. Served (s, f)) (sym (refused_frames response refuses))
                  (not_taken s refuses)
          ])
          | inr (x, q) ↦ rw q (elim (Bool-cases (takes s.1)) [
            | inl takes_it ↦ rw takes_it (failed s x takes_it q)
            | inr refuses ↦ rw refuses (not_taken s refuses)
          ])
        ])
    where
      refused_frames :
          (response : Reply h Bytes E no_bytes)
          → takes s.1 ≡ false
          → h2_process_response h Bytes E no_bytes (takes s.1) response ≡ []
      refused_frames response refuses =
          ap (λ b. h2_process_response h Bytes E no_bytes b response) refuses
          ∙ h2_process_response-none h Bytes E no_bytes response

  All-Served :
      (log : List (Ans h Bytes E no_bytes R Err takes handle))
      → All (IsAnswered h Bytes E no_bytes R Err takes handle) log
      → All Served log
  All-Served [] a = tt
  All-Served (x ∷ log) (p, a) = (IsAnswered-Served x p, All-Served log a)

  -- Requests come over an HTTP/2 connection without an error of the connection, and the handlers and the
  -- sending of the responses end in any order. When the loop has ended, of each kind of request with its
  -- stream as many have been answered as have come, so each request is answered exactly once, on its own
  -- stream. Each answer is the handler's response to that request, with its status and headers but for
  -- Connection, and its body; or the head of a response with status 500, with the end of the stream, if the
  -- handler fails; a stream that takes no response any more gets nothing.
  pub h2_svc_serves :
      (requests : List (Req h Bytes E no_bytes R Err takes handle))
      (choices : List (Choice h Bytes E no_bytes R Err takes handle))
      → (h2_svc h Bytes E no_bytes R Err takes handle (init requests) choices).ended ≡ true
      → All Served (h2_svc h Bytes E no_bytes R Err takes handle (init requests) choices).log
        × ((k : Req h Bytes E no_bytes R Err takes handle → Bool)
            → count
                ((is_answer h Bytes E no_bytes R Err takes handle) k)
                (h2_svc h Bytes E no_bytes R Err takes handle (init requests) choices).log
              ≡ count ((is_request h Bytes E no_bytes R Err takes handle) k) requests)
  unfolding total
  h2_svc_serves requests choices e =
      let l = h2_svc h Bytes E no_bytes R Err takes handle (init requests) choices in
      let sound = h2_svc-IsSound requests choices (init requests) (init-IsSound requests) in
      let left = sound.done.done e in
      let none_waits = sound.done.waiting ∙ ap received left.0 in
      (
        All-Served l.log sound.right.answered,
        λ k. omega (
          arith,
          sound.counted k,
          ap (count ((is_queued h Bytes E no_bytes R Err takes handle) k)) none_waits,
          ap (count ((is_request h Bytes E no_bytes R Err takes handle) k)) left.1,
          ap (count ((is_reply h Bytes E no_bytes R Err takes handle) k)) left.2,
          count-nil ((is_queued h Bytes E no_bytes R Err takes handle) k),
          count-nil ((is_request h Bytes E no_bytes R Err takes handle) k),
          count-nil ((is_reply h Bytes E no_bytes R Err takes handle) k),
        ),
      )
