-- ===== src/Fetch.antt =====
-- client-fetch/src/wrap.ts: a `fetch` that pays. `Headers` has its names in lower case. The platform's
-- functions, the parsing of a payload and `handle402` are parameters.
pub mod Read
pub mod Traffic
pub mod Answers
pub mod Origins
mod Tests
use Prim.Native.String.{◌++◌ as append}
use x402b.Prelude.{
  ℕ, String, Option, none, some, Bool, true, false, ◌&&◌, ◌==◌, string_eq, nat_eq, ltb, leb, Dict,
  put, [], ◌∷◌, if◌then◌else◌,
}
use x402b.Fetch.Read.{find_escrow_accept, CommitTarget, fallback_target, Fallback, read_settled}
use x402b.Json.{Json, Items, Fields, get_field}
use x402b.Wire.{EscrowPaymentPayload}
use x402b.Effects.{Outcome, returned, thrown, Raised, error_message, Eff, pure, try_catch, ◌>>=◌}
use x402b.Machine.{ExchangeState, ExchangeActionId, action_post_state}
use x402b.Server.Payload.{
  CommitAction, create_offer_and_commit, create_offer_commit_and_redeem, commit_action,
}

pub record Request : Type 0 where
  pub url : String
  pub method : String
  pub headers : Dict String
  pub body : Option String

-- `json` is what reading the body as JSON gives.
pub record Response : Type 0 where
  pub status : ℕ
  pub headers : Dict String
  pub json : Outcome Json

pub data CommitFallback : Type 0 where
  off auto : CommitFallback

pub record WrapFetchOptions : Type 0 where
  pub commit_fallback : CommitFallback
  pub facilitator_timeout_ms : ℕ

-- The body of the fallback's POST, whose scheme is "escrow".
pub record SettleBody : Type 0 where
  pub network : String
  pub payload : EscrowPaymentPayload
  pub requirements : Json

pub record PaymentResponseBody : Type 0 where
  pub exchange_id : String
  pub tx_hash : String
  pub exchange_state : ExchangeState

-- A `fetch` with a time after which it is aborted, if any; what is thrown by a read or a parse.
pub record Platform (W : Type 0) : Type 0 where
  pub fetch : Request → (timeout_ms : Option ℕ) → Eff W Response
  pub random_uuid : W → String × W
  pub decode_base64 : String → Outcome String
  pub encode_base64 : String → String
  pub parse_json : String → Outcome Json
  pub parse_payload : Json → Outcome EscrowPaymentPayload
  pub stringify_settle : SettleBody → String
  pub stringify_response : PaymentResponseBody → String
  pub to_text : ℕ → String  -- `String(n)`

-- What the wrapper uses of the client.
pub record X402bClient (W : Type 0) : Type 0 where
  pub handle_402 : Json → Eff W String

unfoldable pub extract_escrow_entry : Response → Option Json
unfolding find_escrow_accept
extract_escrow_entry response = elim response.json [
  | returned body ↦ find_escrow_accept body
  | thrown e ↦ none
]

-- `res.ok`, and the body of the answer.
unfoldable pub read_settle_answer : CommitAction → Response → Option Fallback
read_settle_answer action response =
    if leb 200 response.status && ltb response.status 300
    then elim response.json [ returned body ↦ read_settled action body | thrown e ↦ none ]
    else none

abbrev pub exchange_action : CommitAction → ExchangeActionId
exchange_action create_offer_and_commit = ExchangeActionId.create_offer_and_commit
exchange_action create_offer_commit_and_redeem = ExchangeActionId.create_offer_commit_and_redeem

abbrev pub session_id_header : String
session_id_header = "x-x402-boson-session-id"

abbrev pub server_error_header : String
server_error_header = "x-x402-boson-server-error"

abbrev payload_in : {W : Type 0} → Platform W → Outcome Json → Outcome EscrowPaymentPayload
payload_in platform (thrown e) = thrown e
payload_in platform (returned v) = platform.parse_payload v

abbrev json_in : {W : Type 0} → Platform W → Outcome String → Outcome EscrowPaymentPayload
json_in platform (thrown e) = thrown e
json_in platform (returned text) = payload_in platform (platform.parse_json text)

module _ {W : Type 0} (platform : Platform W) where
  -- `parseEscrowPaymentPayload(JSON.parse(decodeBase64(header)))`
  unfoldable pub recover_payload : String → Outcome EscrowPaymentPayload
  recover_payload header = json_in platform (platform.decode_base64 header)

  -- The response that the wrapper makes up, with the marker of the server's error.
  unfoldable pub synthesize_commit_fallback_response : Fallback → String → Response
  unfolding put action_post_state
  synthesize_commit_fallback_response found marker = record {
    status = 200;
    headers =
        put
          (put
            (put [] "x-payment-response" (
              platform.encode_base64 (
                platform.stringify_response (record {
                  exchange_id = found.exchange_id;
                  tx_hash = found.tx_hash;
                  exchange_state = (action_post_state (exchange_action found.action_id)).exchange;
                }))))
            "x-x402-boson-commit-channel" "facilitator")
          server_error_header marker;
    json = thrown (Raised.error "SyntaxError");
  }

  -- The stand-in for a retry that threw.
  abbrev pub network_failure : String → Response
  network_failure marker = record {
    status = 599;
    headers = (server_error_header, marker) ∷ [];
    json = thrown (Raised.error "SyntaxError");
  }

  module _ (client : X402bClient W) (options : WrapFetchOptions) where
    abbrev pub settle_request : String → SettleBody → Request
    settle_request url body = record {
      url = url;
      method = "POST";
      headers = ("content-type", "application/json") ∷ [];
      body = some (platform.stringify_settle body);
    }

    abbrev read_answer : CommitAction → Response → Eff W (Option Fallback)
    read_answer action response = pure (read_settle_answer action response)

    abbrev give_up : Raised → Eff W (Option Fallback)
    give_up e = pure none

    abbrev settle_with :
        Json → String × CommitTarget → Outcome EscrowPaymentPayload → Eff W (Option Fallback)
    settle_with entry target (thrown e) = pure none
    settle_with entry (network, (action, url)) (returned payload) =
        try_catch
          (platform.fetch
              (settle_request url
                (record { network = network; payload = payload; requirements = entry }))
              (some options.facilitator_timeout_ms)
            >>= read_answer action)
          give_up

    abbrev settle_at : Json → String → Option (String × CommitTarget) → Eff W (Option Fallback)
    settle_at entry header none = pure none
    settle_at entry header (some target) = settle_with entry target (recover_payload header)

    unfoldable pub try_facilitator_fallback : Json → String → Eff W (Option Fallback)
    unfolding fallback_target recover_payload read_settle_answer
    try_facilitator_fallback entry header = settle_at entry header (fallback_target entry)

    abbrev pub surface : Response → String → Option Fallback → Eff W Response
    surface upstream marker none = pure upstream
    surface upstream marker (some found) = pure (synthesize_commit_fallback_response found marker)

    abbrev pub fall_back : Json → String → Response → String → Eff W Response
    fall_back entry header upstream marker =
        try_facilitator_fallback entry header >>= surface upstream marker

    abbrev pub network_marker : Raised → String
    network_marker e = append "network:" (error_message e)

    -- After the retry.
    abbrev pub after_retry : CommitFallback → Json → String → Outcome Response → Eff W Response
    after_retry off entry header o w = (o, w)
    after_retry auto entry header (thrown e) w =
        fall_back entry header (network_failure (network_marker e)) (network_marker e) w
    after_retry auto entry header (returned response) w =
        if ltb response.status 500
        then (returned response, w)
        else fall_back entry header response (platform.to_text response.status) w

    abbrev pub with_payment : Request → String → Request
    with_payment request header = record request {
      headers = put request.headers "x-payment" header;
    }

    abbrev pub retry : Request → Json → String → Eff W Response
    retry request entry header w =
        let r = platform.fetch (with_payment request header) none w in
        after_retry options.commit_fallback entry header r.0 r.1

    abbrev pub pay_challenge : Request → Response → Option Json → Eff W Response
    pay_challenge request initial none = pure initial
    pay_challenge request initial (some entry) = client.handle_402 entry >>= retry request entry

    abbrev pub after_initial : Request → Response → Eff W Response
    after_initial request initial w =
        if initial.status == 402
        then pay_challenge request initial (extract_escrow_entry initial) w
        else (returned initial, w)

    abbrev pub with_session : Request → String → Request
    with_session request id = record request { headers = put request.headers session_id_header id }

    unfoldable pub fetch_with_payment : Request → Eff W Response
    unfolding put extract_escrow_entry try_facilitator_fallback synthesize_commit_fallback_response
    fetch_with_payment input w =
        let (id, u) = platform.random_uuid w in
        (platform.fetch (with_session input id) none >>= after_initial (with_session input id)) u
