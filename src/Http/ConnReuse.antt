-- ===== src/Http/ConnReuse.antt =====
-- monolake-services/src/http/handlers/connection_persistence.rs: `ConnectionReuseHandler`.
use monolake.Base.{
  ℕ, Bool, true, false, not, ◌&&◌, List, Option, none, some, if◌then◌else◌, Result, ok, err,
}
use monolake.Http.Message.{
  HeaderMaps, Version, http_09, http_10, http_11, http_2, http_3, connection, close_value,
  keepalive_value, eq_ignore_ascii_case, Request, Response, ResponseWithContinue,
}

module _ (h : HeaderMaps) (B CX E : Type 0) where
  -- `is_conn_keepalive`.
  abbrev pub keepalive_header : Version → Option (List ℕ) → Bool
  keepalive_header http_10 (some header) = eq_ignore_ascii_case header keepalive_value
  keepalive_header http_11 none = true
  keepalive_header http_11 (some header) = not (eq_ignore_ascii_case header close_value)
  keepalive_header http_10 none = false
  keepalive_header http_09 header = false
  keepalive_header http_2 header = false
  keepalive_header http_3 header = false

  pub is_conn_keepalive : h.Map → Version → Bool
  is_conn_keepalive headers version = keepalive_header version (h.get headers connection)

  abbrev pub Handled : Type 0
  Handled = Result (ResponseWithContinue h B) E

  -- The request without its connection header, as HTTP/1.1.
  abbrev pub to_http_11 : Request h B → Request h B
  to_http_11 request = record request {
    version = http_11;
    headers = h.remove request.headers connection;
  }

  abbrev pub back_10 : Bool → Response h B → ResponseWithContinue h B
  back_10 cont response =
      let removed = h.remove response.headers connection in
      (
        record response {
          version = http_10;
          headers = if cont then h.insert removed connection keepalive_value else removed;
        },
        cont,
      )

  abbrev pub back_11 : Bool → Response h B → ResponseWithContinue h B
  back_11 cont response =
      let removed = h.remove response.headers connection in
      (
        record response {
          headers = if cont then removed else h.insert removed connection close_value;
        },
        cont,
      )

  -- What is done with the inner handler's result, for each version of the request.
  abbrev pub answer : Version → Bool → ResponseWithContinue h B → ResponseWithContinue h B
  answer http_10 keepalive (response, cont) = back_10 (cont && keepalive) response
  answer http_11 keepalive (response, cont) = back_11 (cont && keepalive) response
  answer http_2 keepalive (response, cont) = (response, true)
  answer http_09 keepalive (response, cont) = (response, false)
  answer http_3 keepalive (response, cont) = (response, false)

  abbrev pub passed_on : Version → Request h B → Request h B
  passed_on http_10 request = to_http_11 request
  passed_on http_11 request = record request { headers = h.remove request.headers connection }
  passed_on http_2 request = request
  passed_on http_09 request = request
  passed_on http_3 request = request

  -- `call`, with the inner handler.
  pub call : (Request h B → CX → Handled) → Request h B → CX → Handled
  call inner request ctx =
      let keepalive = is_conn_keepalive request.headers request.version in
      elim (inner (passed_on request.version request) ctx) [
        | err e ↦ err e
        | ok handled ↦ ok (answer request.version keepalive handled)
      ]

  abbrev pub is_http_1 : Version → Bool
  is_http_1 http_10 = true
  is_http_1 http_11 = true
  is_http_1 http_09 = false
  is_http_1 http_2 = false
  is_http_1 http_3 = false
