-- ===== src/Http/H2.antt =====
-- monolake-services/src/http/core.rs: the HTTP/2 side of `HttpCoreService`. `h2_process_response` makes
-- the frames of one response; `h2_svc` has one loop over the requests that come, the handlers that run
-- and the responses that are sent, all at once. A stream of the connection is a number.
mod Sets
mod Count
mod Frames
mod Answers
mod Examples
use Prim.Native.String.{String}
use monolake.Base.{
  ℕ, zero, suc, Bool, true, false, ◌&&◌, List, [], ◌∷◌, ◌++◌, Option, none, some, get_elem?,
  if◌then◌else◌, Result, ok, err,
}
use monolake.Http.Message.{HeaderMaps, Version, connection, generate_response}

-- A body as `next_data` gives it, by its `StreamHint`. An error is one of the upstream connection.
pub data Body (Bytes E : Type 0) : Type 0 where
  no_body : Body Bytes E
  fixed stream : List (Result Bytes E) → Body Bytes E

-- What is sent on a stream; the flag ends the stream.
pub data Frame (M Bytes : Type 0) : Type 0 where
  head : ℕ → M → Bool → Frame M Bytes
  chunk : Bytes → Bool → Frame M Bytes

abbrev pub without {ℓ} : {A : Type ℓ} → List A → ℕ → List A
without [] i = []
without (x ∷ xs) zero = xs
without (x ∷ xs) (suc i) = x ∷ without xs i

module _ (h : HeaderMaps) (Bytes E : Type 0) (no_bytes : Bytes) where
  pub record Reply : Type 0 where
    pub status : ℕ
    pub headers : h.Map
    pub body : Body Bytes E

  -- The loop of a streamed body.
  pub stream_data : List (Result Bytes E) → List (Frame h.Map Bytes)
  stream_data [] = []
  stream_data (err e ∷ chunks) = []
  stream_data (ok bytes ∷ chunks) = chunk bytes false ∷ stream_data chunks

  abbrev pub fixed_data : List (Result Bytes E) → List (Frame h.Map Bytes)
  fixed_data [] = []
  fixed_data (err e ∷ chunks) = []
  fixed_data (ok bytes ∷ chunks) = chunk bytes true ∷ []

  abbrev pub body_frames : ℕ → h.Map → Body Bytes E → List (Frame h.Map Bytes)
  body_frames status headers no_body = head status headers true ∷ []
  body_frames status headers (fixed chunks) = head status headers false ∷ fixed_data chunks
  body_frames status headers (stream chunks) =
      head status headers false ∷ (stream_data chunks ++ chunk no_bytes true ∷ [])

  -- Nothing is sent if the stream does not take the response, as when the client has reset it.
  pub h2_process_response : Bool → Reply → List (Frame h.Map Bytes)
  h2_process_response takes response =
      if takes
      then body_frames response.status (h.remove response.headers connection) response.body
      else []

  module _ (R Err : Type 0) (takes : ℕ → Bool) (handle : R → Result (Reply × Bool) Err) where
    abbrev pub Stream : Type 0
    Stream = R × ℕ

    -- The requests that the spawned task has put into the channel, the handlers that run, the responses
    -- that are sent, what has been sent, and whether the loop has ended.
    pub record Loop : Type 0 where
      pub queue : List (Option Stream)
      pub backend : List Stream
      pub frontend : List (Reply × Stream)
      pub log : List (Stream × List (Frame h.Map Bytes))
      pub ended : Bool

    -- The branch of `select!` that is taken: the channel, a handler that is done, a response that is sent.
    -- The numbers are places in the sets of futures.
    pub data Choice : Type 0 where
      receive : Choice
      backend_next frontend_next : ℕ → Choice

    abbrev pub idle : Loop → Bool
    idle l = elim l.backend [ [] ↦ elim l.frontend [ [] ↦ true | f ∷ fs ↦ false ] | b ∷ bs ↦ false ]

    -- An error of the connection does not match the branch's pattern, nor does the end of the channel:
    -- then only `else` is left, if nothing else is going on.
    abbrev pub on_receive : Loop → List (Option Stream) → Loop
    on_receive l [] = record l { ended = idle l }
    on_receive l (none ∷ queue) = record l { queue = queue; ended = idle l }
    on_receive l (some s ∷ queue) = record l { queue = queue; backend = l.backend ++ s ∷ [] }

    abbrev pub error_frames : List (Frame h.Map Bytes)
    error_frames = head 500 (generate_response h (Unit {0}) 500 false).headers true ∷ []

    abbrev pub on_handled : Loop → Stream → Result (Reply × Bool) Err → Loop
    on_handled l s (ok (response, cont)) = record l { frontend = l.frontend ++ (response, s) ∷ [] }
    on_handled l s (err e) = record l {
      log = l.log ++ (s, if takes s.1 then error_frames else []) ∷ [];
    }

    abbrev pub turn : Loop → Choice → Loop
    turn l receive = on_receive l l.queue
    turn l (backend_next i) = elim (get_elem? l.backend i) [
      | none ↦ l
      | some s ↦ on_handled (record l { backend = without l.backend i }) s (handle s.0)
    ]
    turn l (frontend_next i) = elim (get_elem? l.frontend i) [
      | none ↦ l
      | some (response, s) ↦ record l {
        frontend = without l.frontend i;
        log = l.log ++ (s, h2_process_response (takes s.1) response) ∷ [];
      }
    ]

    pub h2_svc : Loop → List Choice → Loop
    h2_svc l [] = l
    h2_svc l (c ∷ choices) = h2_svc (if l.ended then l else turn l c) choices
