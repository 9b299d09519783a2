-- ===== src/Fetch/Tests.antt =====
-- A server that fails the paid request, and a facilitator that settles it.
use x402b.Prelude.{
  String, [], ◌∷◌, List, ◌++◌, none, some, Option, true, ◌≡◌, ◌↔◌, refl, ◌==◌, string_eq, get,
  if◌then◌else◌,
}
use x402b.Json.{Json, Items, field, end, str, obj, arr, bool}
use x402b.Effects.{returned, thrown, error, pure}
use x402b.Wire.{EscrowPaymentPayload}
use x402b.Machine.{ExchangeState}
use x402b.Server.Payload.{create_offer_commit_and_redeem}
use x402b.Server.Payload.Samples.{paying}
use x402b.Fetch.{
  Request, Response, WrapFetchOptions, auto, Platform, X402bClient, fetch_with_payment,
  with_session, synthesize_commit_fallback_response,
}
use x402b.Fetch.Read.{Fallback, fallback_target}
use x402b.Fetch.Read.Targets.{FallsBack, fallback_target_iff}
use x402b.Fetch.Traffic.{RequestLog, Traffic, fetch_with_payment-Traffic}
use x402b.Fetch.Origins.{Origin, fetch_with_payment-Origin}

abbrev commit_entry : String → String → Json
commit_entry id channel = obj (
    field "id" (str id) (
      field "channels" (arr (Items.cons (str channel) Items.nil))
        (field "endpoints" (obj (field "facilitator" (str "https://f/settle") end)) end)))

-- Redeeming at the commitment is offered by the facilitator, committing alone by the server.
abbrev challenge : Json
challenge = obj (
    field "scheme" (str "escrow") (
      field "network" (str "eip155:1") (
        field "actions"
          (obj (
            field "next"
              (arr (
                Items.cons (commit_entry "boson-createOfferCommitAndRedeem" "facilitator")
                  (Items.cons (commit_entry "boson-createOfferAndCommit" "server") Items.nil)))
              end))
          end)))

abbrev answer_of : String → Response
answer_of url =
    if url == "https://f/settle"
    then record {
      status = 200;
      headers = [];
      json = returned (
          obj (
            field "ok" (bool true)
              (field "exchangeId" (str "5") (field "txHash" (str "0xab") end))));
    }
    else record { status = 503; headers = []; json = thrown (error "SyntaxError") }

-- The server asks for a payment that has no header, and fails one that has.
abbrev serve : Request → Option String → Response
serve request none = record {
  status = 402;
  headers = [];
  json = returned (obj (field "accepts" (arr (Items.cons challenge Items.nil)) end));
}
serve request (some header) = answer_of request.url

abbrev serve_at : Request → Response
serve_at request =
    if request.url == "https://f/settle"
    then answer_of request.url
    else serve request (get request.headers "x-payment")

-- The payment is for committing alone.
abbrev signed : EscrowPaymentPayload
signed = paying "0xD1" 1200 "0x51"

abbrev platform : Platform (List Request)
platform = record {
  fetch = λ request timeout log. (returned (serve_at request), log ++ (request ∷ []));
  random_uuid = λ log. ("session", log);
  decode_base64 = λ text. returned text;
  encode_base64 = λ text. text;
  parse_json = λ text. returned (str text);
  parse_payload = λ v. returned signed;
  stringify_settle = λ body. body.network;
  stringify_response = λ body. elim body.exchange_state [
    | ExchangeState.redeemed ↦ "REDEEMED"
    | _ ↦ body.exchange_id
  ];
  to_text = λ n. "503";
}

abbrev client : X402bClient (List Request)
client = record { handle_402 = λ entry. pure "e30=" }

abbrev options : WrapFetchOptions
options = record { commit_fallback = auto; facilitator_timeout_ms = 10000 }

abbrev asking : Request
asking = record { url = "https://s/a"; method = "GET"; headers = []; body = none }

logged : RequestLog platform client (λ log. log)
logged = record {
  fetch_logged = λ q t w. refl;
  uuid_unlogged = λ w. refl;
  client_unlogged = λ entry w. refl;
}

fetch_with_payment-Traffic_example :
    (qs : List Request) × ((fetch_with_payment platform client options asking []).1 ≡ [] ++ qs)
    × Traffic platform client options (with_session platform client options asking "session") qs
fetch_with_payment-Traffic_example =
    fetch_with_payment-Traffic platform client options (λ log. log) logged asking []

abbrev settled_exchange : Fallback
settled_exchange = record {
  action_id = create_offer_commit_and_redeem;
  exchange_id = "5";
  tx_hash = "0xab";
}

abbrev requested : List Request
requested = (fetch_with_payment platform client options asking []).1

recovers :
    fetch_with_payment platform client options asking []
    ≡ (returned (synthesize_commit_fallback_response platform (settled_exchange) "503"), requested)
unfolding fetch_with_payment
recovers = refl

fetch_with_payment-Origin_example :
    Origin platform client options
      (synthesize_commit_fallback_response platform (settled_exchange) "503")
fetch_with_payment-Origin_example =
    fetch_with_payment-Origin platform client options asking [] requested _ recovers

fallback_target_iff_example :
    (fallback_target challenge
      ≡ some ("eip155:1", (create_offer_commit_and_redeem, "https://f/settle")))
    ↔ FallsBack challenge "eip155:1" create_offer_commit_and_redeem "https://f/settle"
fallback_target_iff_example =
    fallback_target_iff challenge "eip155:1" create_offer_commit_and_redeem "https://f/settle"

falls_back :
    fallback_target challenge
    ≡ some ("eip155:1", (create_offer_commit_and_redeem, "https://f/settle"))
unfolding fallback_target
falls_back = refl
