-- ===== src/Http/H2/Frames.antt =====
-- The frames of a response, and of one whose body breaks off.
use monolake.Base.{
  ℕ, true, false, List, [], ◌∷◌, ◌++◌, map, Result, ok, err, ◌⊎◌, inl, inr, ◌≡◌, refl, sym, ap, ◌∙◌,
}
use mathlib.Core.Path.{subst}
use monolake.Http.Message.{HeaderMaps, connection}
use monolake.Http.H2.{
  Body, no_body, fixed, stream, Frame, head, chunk, Reply, stream_data, body_frames,
  h2_process_response,
}

module _ (h : HeaderMaps) (Bytes E : Type 0) (no_bytes : Bytes) where
  -- The pieces of a streamed body up to its end or the first error.
  abbrev pub Breaks : List (Result Bytes E) → Type 0
  Breaks rest = (rest ≡ []) ⊎ ((e : E) × (later : List (Result Bytes E)) × (rest ≡ err e ∷ later))

  abbrev pub pieces_of : List Bytes → List (Frame h.Map Bytes)
  pieces_of [] = []
  pieces_of (bytes ∷ pieces) = chunk bytes false ∷ pieces_of pieces

  -- The frames of a response: the head, with the end of the stream if there is no body; one chunk of a
  -- fixed body, with the end of the stream; or the pieces of a streamed body, and then the end of the
  -- stream with no bytes. After the head of a fixed body that fails nothing comes.
  pub data Answers (response : Reply h Bytes E no_bytes) : List (Frame h.Map Bytes) → Type 0 where
    bodiless :
        response.body ≡ no_body
        → Answers response (head response.status (h.remove response.headers connection) true ∷ [])
    in_one :
        (bytes : Bytes) (later : List (Result Bytes E))
        → response.body ≡ fixed (ok bytes ∷ later)
        → Answers response (
            head response.status (h.remove response.headers connection) false
            ∷ chunk bytes true
            ∷ [])
    in_none :
        (chunks : List (Result Bytes E))
        → response.body ≡ fixed chunks
        → Breaks chunks
        → Answers response (head response.status (h.remove response.headers connection) false ∷ [])
    in_pieces :
        (pieces : List Bytes) (rest : List (Result Bytes E))
        → response.body ≡ stream (map ok pieces ++ rest)
        → Breaks rest
        → Answers response (
            head response.status (h.remove response.headers connection) false
            ∷ (pieces_of pieces ++ chunk no_bytes true ∷ []))

  stream_data-pieces :
      (pieces : List Bytes) (rest : List (Result Bytes E))
      → Breaks rest
      → stream_data h Bytes E no_bytes (map ok pieces ++ rest) ≡ pieces_of pieces
  unfolding stream_data
  stream_data-pieces [] rest (inl e) = rw e
  stream_data-pieces [] rest (inr (x, later, e)) = rw e
  stream_data-pieces (bytes ∷ pieces) rest b =
      ap (λ fs. chunk bytes false ∷ fs) (stream_data-pieces pieces rest b)

  -- Every streamed body has pieces up to its end or an error.
  split :
      (chunks : List (Result Bytes E))
      → (pieces : List Bytes) × (rest : List (Result Bytes E)) × (chunks ≡ map ok pieces ++ rest)
        × Breaks rest
  split [] = ([], [], refl, inl refl)
  split (err e ∷ chunks) = ([], err e ∷ chunks, refl, inr (e, chunks, refl))
  split (ok bytes ∷ chunks) =
      let (pieces, rest, e, b) = split chunks in (bytes ∷ pieces, rest, ap (λ l. ok bytes ∷ l) e, b)

  body_frames-Answers :
      (status : ℕ) (headers : h.Map) (body : Body Bytes E)
      → Answers
          (record { status = status; headers = headers; body = body })
          (body_frames h Bytes E no_bytes status (h.remove headers connection) body)
  body_frames-Answers status headers no_body = bodiless refl
  body_frames-Answers status headers (fixed []) = in_none [] refl (inl refl)
  body_frames-Answers status headers (fixed (err e ∷ chunks)) =
      in_none (err e ∷ chunks) refl (inr (e, chunks, refl))
  body_frames-Answers status headers (fixed (ok bytes ∷ chunks)) = in_one bytes chunks refl
  body_frames-Answers status headers (stream chunks) =
      let (pieces, rest, e, b) = split chunks in
      let same : stream_data h Bytes E no_bytes chunks ≡ pieces_of pieces =
        ap (stream_data h Bytes E no_bytes) e ∙ stream_data-pieces pieces rest b in
      subst
        (λ fs.
          Answers (record { status = status; headers = headers; body = stream chunks })
            (head status (h.remove headers connection) false ∷ (fs ++ chunk no_bytes true ∷ [])))
        (sym same) (in_pieces pieces rest (ap stream e) b)

  pub h2_process_response-Answers :
      (response : Reply h Bytes E no_bytes)
      → Answers response (h2_process_response h Bytes E no_bytes true response)
  unfolding h2_process_response
  h2_process_response-Answers response =
      body_frames-Answers response.status response.headers response.body

  pub h2_process_response-none :
      (response : Reply h Bytes E no_bytes)
      → h2_process_response h Bytes E no_bytes false response ≡ []
  unfolding h2_process_response
  h2_process_response-none response = refl

  -- A streamed body that breaks off with an error of the upstream is sent as a complete one: the head, the
  -- pieces before the error, and then the end of the stream with no bytes. What comes after the error is
  -- not looked at.
  pub h2_process_response-broken :
      (status : ℕ) (headers : h.Map) (pieces : List Bytes) (rest : List (Result Bytes E)) (e : E)
      → h2_process_response h Bytes E no_bytes true (record {
        status = status;
        headers = headers;
        body = stream (map ok pieces ++ err e ∷ rest);
      })
        ≡ head status (h.remove headers connection) false
          ∷ (pieces_of pieces ++ chunk no_bytes true ∷ [])
  unfolding h2_process_response
  h2_process_response-broken status headers pieces rest e =
      rw (stream_data-pieces pieces (err e ∷ rest) (inr (e, rest, refl)))
