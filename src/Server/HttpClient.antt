-- ===== src/Server/HttpClient.antt =====
-- facilitator/client.ts: the HTTP client of the facilitator. A transport stands for `fetch` with its
-- timer, for the back-off's timer and for the platform's JSON. Log messages are left out.
pub mod Guards
pub mod Attempts
pub mod Requests
mod Tests
use Prim.Native.String.{◌++◌ as append}
use x402b.Prelude.{
  ℕ, zero, suc, ◌*◌, String, List, [], ◌∷◌, Option, none, some, Bool, true, false, ◌&&◌, ◌||◌, ◌==◌,
  nat_eq, string_eq, ltb, leb, if◌then◌else◌, Dict, put,
}
use x402b.Json.{Json, Fields, get_field}
use x402b.Effects.{Raised, Outcome, Eff, returned, thrown, http_error, error, value}
use x402b.Machine.{action_name}
use x402b.Facilitator.{
  FacilitatorVerifyInput, FacilitatorSettleInput, FacilitatorPerformActionInput,
}
use x402b.Server.Endpoints.{strip_slashes}

infixr 65 ◌<>◌
abbrev ◌<>◌ : String → String → String
a <> b = append a b

pub record FetchRequest : Type 0 where
  pub url : String
  pub method : String
  pub headers : Dict String
  pub body : Option String

-- What comes of a `fetch`: a failure, which the timer may have caused, or a response, whose body may
-- fail to be read.
pub data FetchReply : Type 0 where
  failed : (aborted : Bool) → FetchReply
  response : (ok : Bool) (status : ℕ) (text : Outcome String) → FetchReply

pub record Transport (W : Type 0) : Type 0 where
  pub fetch : FetchRequest → W → FetchReply × W
  pub sleep : ℕ → W → W
  pub idempotency_key : W → String × W
  pub parse : String → Outcome Json
  pub stringify_input : FacilitatorVerifyInput → String
  pub stringify_action : FacilitatorPerformActionInput → String
  pub to_text : ℕ → String

pub record FacilitatorRetryOptions : Type 0 where
  pub attempts : ℕ
  pub backoff_ms : ℕ

pub record CreateFacilitatorClientOptions : Type 0 where
  pub url : String
  pub headers : Dict String
  pub timeout_ms : ℕ
  pub retry : FacilitatorRetryOptions

-- `v[k]`, where `v` is an object; an array has no such field, and what is no object has none.
abbrev pub field_of : Json → String → Option Json
field_of (Json.obj f) k = get_field f k
field_of v k = none

abbrev pub is_string : Option Json → Bool
is_string (some (Json.str s)) = true
is_string v = false

abbrev pub is_string_or_absent : Option Json → Bool
is_string_or_absent none = true
is_string_or_absent v = is_string v

abbrev pub is_bool : Bool → Option Json → Bool
is_bool true (some (Json.bool true)) = true
is_bool false (some (Json.bool false)) = true
is_bool b v = false

abbrev pub string_of : Option Json → Option String
string_of (some (Json.str s)) = some s
string_of v = none

unfoldable pub is_failure_branch : Json → Bool
is_failure_branch v =
    is_bool false (field_of v "ok")
    && is_string (field_of v "code")
    && is_string (field_of v "reason")

unfoldable pub is_verify_result : Json → Bool
unfolding is_failure_branch
is_verify_result v = if is_bool true (field_of v "ok") then true else is_failure_branch v

unfoldable pub is_settle_result : Json → Bool
unfolding is_failure_branch
is_settle_result v =
    if is_bool true (field_of v "ok")
    then is_string (field_of v "exchangeId") && is_string (field_of v "txHash")
    else is_failure_branch v

unfoldable pub is_perform_action_result : Json → Bool
unfolding is_failure_branch
is_perform_action_result v =
    if is_bool true (field_of v "ok")
    then is_string (field_of v "txHash")
      && is_string_or_absent (field_of v "newExchangeState")
      && is_string_or_absent (field_of v "newDisputeState")
    else is_failure_branch v

-- `e.status !== undefined && e.status >= 500`
abbrev pub is_server_error : Option ℕ → Bool
is_server_error none = false
is_server_error (some status) = leb 500 status

unfoldable pub is_retryable : Raised → Bool
is_retryable (http_error code message status facilitator_code) =
    code == "NETWORK_ERROR"
    || code == "TIMEOUT"
    || (code == "BAD_HTTP_STATUS" && is_server_error status)
is_retryable (error message) = false
is_retryable (value text) = false

-- `{ ...headers, ...extra }`
abbrev pub spread_headers : Dict String → Dict String → Dict String
spread_headers headers [] = headers
spread_headers headers ((k, v) ∷ extra) = spread_headers (put headers k v) extra

-- `IDEMPOTENCY_KEY_HEADER`
abbrev pub idempotency_key_header : String
idempotency_key_header = "x-x402b-idempotency-key"

-- `reasonString(parsed) ?? text`
abbrev reason_or : Option String → String → String
reason_or none text = text
reason_or (some reason) text = reason

module _ {W : Type 0} (transport : Transport W) (opts : CreateFacilitatorClientOptions)
    (path body : String) (validate : Json → Bool) (extra_headers : Dict String) where
  abbrev pub post_request : FetchRequest
  post_request = record {
    url = strip_slashes opts.url <> path;
    method = "POST";
    headers =
        spread_headers (spread_headers (("content-type", "application/json") ∷ []) opts.headers)
          extra_headers;
    body = some body;
  }

  abbrev pub bad_body : String → ℕ → Outcome Json
  bad_body what status = thrown (
      http_error "BAD_RESPONSE_BODY" ("facilitator " <> what <> " (" <> path <> ")") (some status)
        none)

  abbrev pub judge : Bool → ℕ → String → Outcome Json → Outcome Json
  judge is_ok status text (thrown e) = bad_body "returned non-JSON body" status
  judge false status text (returned parsed) =
      if status == 400 && is_failure_branch parsed && validate parsed
      then returned parsed
      else thrown (
          http_error "BAD_HTTP_STATUS"
            ("facilitator HTTP "
              <> transport.to_text status
              <> " ("
              <> path
              <> "): "
              <> reason_or (string_of (field_of parsed "reason")) text)
            (some status) (string_of (field_of parsed "code")))
  judge true status text (returned parsed) =
      if validate parsed then returned parsed else bad_body "returned unexpected body shape" status

  abbrev pub read_body : Bool → ℕ → Outcome String → Outcome Json
  read_body is_ok status (thrown e) = bad_body "response body could not be read" status
  read_body is_ok status (returned text) =
      judge is_ok status text (if text == "" then returned Json.null else transport.parse text)

  abbrev pub answer : FetchReply → Outcome Json
  answer (failed true) = thrown (
      http_error "TIMEOUT"
        ("facilitator request timed out after "
          <> transport.to_text opts.timeout_ms
          <> "ms ("
          <> path
          <> ")")
        none none)
  answer (failed false) =
      thrown (http_error "NETWORK_ERROR" ("facilitator network error (" <> path <> ")") none none)
  answer (response is_ok status text) = read_body is_ok status text

  unfoldable pub post_once : Eff W Json
  unfolding is_failure_branch strip_slashes
  post_once w = let (reply, w') = transport.fetch post_request w in (answer reply, w')

  -- The back-off before an attempt, none before the first.
  abbrev pub wait : ℕ → W → W
  wait attempt w =
      if ltb 0 (opts.retry.backoff_ms * attempt)
      then transport.sleep (opts.retry.backoff_ms * attempt) w
      else w

  abbrev pub or_again : Outcome Json × W → Outcome Json × W → Outcome Json × W
  or_again (returned j, w) again = (returned j, w)
  or_again (thrown e, w) again = if is_retryable e then again else (thrown e, w)

  -- The loop; `left` counts the attempts after this one, so it is 0 at the last.
  unfoldable pub post_from : (left attempt : ℕ) → Eff W Json
  unfolding post_once is_retryable
  post_from zero attempt w = post_once (wait attempt w)
  post_from (suc left) attempt w =
      let r = post_once (wait attempt w) in
      let again = post_from left (suc attempt) r.1 in or_again r again

  -- `retry.attempts` less 1.
  abbrev pub further : ℕ → ℕ
  further zero = 0
  further (suc n) = n

  unfoldable pub post : Eff W Json
  unfolding post_from
  post = post_from (further opts.retry.attempts) 0

pub record HttpClient (W : Type 0) : Type 0 where
  pub verify : FacilitatorVerifyInput → Eff W Json
  pub settle : FacilitatorSettleInput → Eff W Json
  pub perform_action : FacilitatorPerformActionInput → Eff W Json
  pub health_check : Eff W (Unit {0})

module _ {W : Type 0} (transport : Transport W) (opts : CreateFacilitatorClientOptions) where
  unfoldable pub post_verify : FacilitatorVerifyInput → Eff W Json
  unfolding post is_verify_result
  post_verify input =
      post transport opts "/verify" (transport.stringify_input input) is_verify_result []

  -- One key for all the attempts.
  unfoldable pub post_settle : FacilitatorSettleInput → Eff W Json
  unfolding post is_settle_result
  post_settle input w =
      let (key, w') = transport.idempotency_key w in
      post transport opts "/settle" (transport.stringify_input input) is_settle_result
        ((idempotency_key_header, key) ∷ []) w'

  unfoldable pub post_action : FacilitatorPerformActionInput → Eff W Json
  unfolding post is_perform_action_result
  post_action input =
      post transport opts ("/perform-action?action=" <> action_name input.action)
        (transport.stringify_action input) is_perform_action_result []

  abbrev healthy : FetchReply → Outcome (Unit {0})
  healthy (failed true) = thrown (
      http_error "TIMEOUT"
        ("facilitator request timed out after "
          <> transport.to_text opts.timeout_ms
          <> "ms (/healthz)")
        none none)
  healthy (failed false) =
      thrown (http_error "NETWORK_ERROR" "facilitator network error (/healthz)" none none)
  healthy (response true status text) = returned tt
  healthy (response false status text) = thrown (
      http_error "BAD_HTTP_STATUS"
        ("facilitator HTTP " <> transport.to_text status <> " (/healthz)") (some status) none)

  unfoldable pub health_check : Eff W (Unit {0})
  unfolding strip_slashes
  health_check w =
      let (reply, w') =
        transport.fetch
          (record {
            url = strip_slashes opts.url <> "/healthz";
            method = "GET";
            headers = opts.headers;
            body = none;
          })
          w in
      (healthy reply, w')

  -- The bounds are checked once, before a client is given.
  unfoldable pub create_facilitator_client : Outcome (HttpClient W)
  unfolding post_verify post_settle post_action health_check
  create_facilitator_client =
      if ltb opts.retry.attempts 1
      then thrown (error "createFacilitatorClient: retry.attempts must be an integer >= 1")
      else if leb opts.timeout_ms 0
      then thrown (error "createFacilitatorClient: timeoutMs must be a finite number > 0")
      else returned (record {
        verify = post_verify;
        settle = post_settle;
        perform_action = post_action;
        health_check = health_check;
      })
