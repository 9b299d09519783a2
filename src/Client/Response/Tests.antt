-- ===== src/Client/Response/Tests.antt =====
-- The response for an exchange that the facilitator redeemed at once.
use x402b.Prelude.{String, none, some, true, false, ◌≡◌, refl, ◌==◌, string_eq, if◌then◌else◌}
use x402b.Json.{str, obj, field, end}
use x402b.Effects.{returned, thrown, throw, error}
use x402b.Machine.{ExchangeState, action_post_state}
use x402b.Fetch.{Platform, synthesize_commit_fallback_response}
use x402b.Fetch.Read.{Fallback}
use x402b.Server.Payload.{create_offer_commit_and_redeem}
use x402b.Client.Response.{
  ResponseReader, summary_of, pick_string, is_client_state_shape, parse_payment_response,
  plain_candidate,
}
use x402b.Client.Response.Reported.{
  Reads, body_json, settled_body, parse_payment_response-synthesize,
}

abbrev found : Fallback
found = record { action_id = create_offer_commit_and_redeem; exchange_id = "5"; tx_hash = "0xab" }

abbrev text : ExchangeState → String
text ExchangeState.cancelled = "CANCELLED"
text ExchangeState.committed = "COMMITTED"
text ExchangeState.completed = "COMPLETED"
text ExchangeState.disputed = "DISPUTED"
text ExchangeState.redeemed = "REDEEMED"
text ExchangeState.revoked = "REVOKED"

abbrev platform : Platform String
platform = record {
  fetch = λ request timeout. throw (error "TypeError");
  random_uuid = λ w. ("id", w);
  decode_base64 = λ t. returned t;
  encode_base64 = λ t. t;
  parse_json = λ t. thrown (error "SyntaxError");
  parse_payload = λ v. thrown (error "Error");
  stringify_settle = λ body. body.network;
  stringify_response = λ body. "{}";
  to_text = λ n. "503";
}

abbrev reader : ResponseReader
reader = record {
  decode_base64 = λ t. returned t;
  parse_json = λ t.
      if t == ""
      then thrown (error "SyntaxError")
      else returned (body_json text (settled_body found));
}

is_named : (s : ExchangeState) → (text s == "") ≡ false
is_named ExchangeState.cancelled = refl
is_named ExchangeState.committed = refl
is_named ExchangeState.completed = refl
is_named ExchangeState.disputed = refl
is_named ExchangeState.redeemed = refl
is_named ExchangeState.revoked = refl

is_disputed : (s : ExchangeState) → (text s == "DISPUTED") ≡ true → s ≡ ExchangeState.disputed
is_disputed ExchangeState.cancelled h = cc
is_disputed ExchangeState.committed h = cc
is_disputed ExchangeState.completed h = cc
is_disputed ExchangeState.disputed h = refl
is_disputed ExchangeState.redeemed h = cc
is_disputed ExchangeState.revoked h = cc

reads : Reads reader platform text (settled_body found)
reads = record {
  decodes = λ s. refl;
  decodes_empty = refl;
  parses = refl;
  error = error "SyntaxError";
  parses_empty = refl;
  named = is_named;
  is_disputed = is_disputed;
}

parse_payment_response-synthesize_example :
    parse_payment_response reader (synthesize_commit_fallback_response platform found "503").headers
    ≡ returned (
        some (record {
          raw = body_json text (settled_body found);
          exchange_id = some "5";
          state = some (plain_candidate "REDEEMED");
        }))
unfolding action_post_state
parse_payment_response-synthesize_example =
    parse_payment_response-synthesize reader platform text found "503" reads

-- A dispute whose state is missing is no state.
forgets :
    (summary_of
      (obj (field "nextActions" (obj (field "exchangeState" (str "DISPUTED") end)) end))).state
    ≡ none
unfolding summary_of pick_string is_client_state_shape
forgets = refl

-- A state that stands by itself wins.
prefers :
    (summary_of (
      obj (
        field "state"
          (str "COMMITTED")
          (field "nextActions" (obj (field "exchangeState" (str "REDEEMED") end)) end)))).state
    ≡ some (str "COMMITTED")
unfolding summary_of is_client_state_shape
prefers = refl
