-- ===== src/Client/Response.antt =====
-- response.ts: what the client reads of an X-PAYMENT-RESPONSE header. The decoding of Base64 and the
-- parsing of JSON are parameters, a state is the JSON that was found, and headers are in lower case.
pub mod Reported
mod Tests
use x402b.Prelude.{
  String, List, [], ◌∷◌, Option, none, some, Bool, true, false, not, ◌==◌, string_eq, Dict, get,
  if◌then◌else◌,
}
use x402b.Json.{Json, null, str, arr, obj, Fields, field, end, get_field}
use x402b.Effects.{Outcome, returned, thrown}

pub record ExchangeSummary : Type 0 where
  pub raw : Json
  pub exchange_id : Option String
  pub state : Option Json

-- What of the platform is used.
pub record ResponseReader : Type 0 where
  pub decode_base64 : String → Outcome String
  pub parse_json : String → Outcome Json

-- A text that is not empty.
abbrev pub non_empty_text : Option Json → Option String
non_empty_text (some (str s)) = if s == "" then none else some s
non_empty_text _ = none

-- The text if there is one, else the other.
abbrev pub or_else : Option String → Option String → Option String
or_else (some s) other = some s
or_else none other = other

unfoldable pub pick_string : Fields → List String → Option String
pick_string o [] = none
pick_string o (k ∷ keys) = or_else (non_empty_text (get_field o k)) (pick_string o keys)

-- The test on `dispute`.
abbrev pub is_text_or_missing : Option Json → Bool
is_text_or_missing none = true
is_text_or_missing (some (str s)) = true
is_text_or_missing _ = false

abbrev has_text : Option String → Bool → Bool
has_text none b = false
has_text (some s) b = b

unfoldable pub is_client_state_shape : Json → Bool
is_client_state_shape (str s) = not (s == "")
is_client_state_shape (obj o) =
    has_text (non_empty_text (get_field o "exchange")) (is_text_or_missing (get_field o "dispute"))
is_client_state_shape _ = false

-- The value, if it is a state's.
abbrev pub shaped : Option Json → Option Json
shaped none = none
shaped (some v) = if is_client_state_shape v then some v else none

abbrev pub plain_candidate : String → Json
plain_candidate exchange = obj (field "exchange" (str exchange) end)

abbrev disputed_candidate : String → Option String → Option Json
disputed_candidate exchange none = none
disputed_candidate exchange (some dispute) =
    some (obj (field "exchange" (str exchange) (field "dispute" (str dispute) end)))

-- `candidate`
abbrev pub candidate : Option String → Option String → Option Json
candidate none dispute = none
candidate (some exchange) dispute =
    if exchange == "DISPUTED"
    then disputed_candidate exchange dispute
    else some (plain_candidate exchange)

-- The fallback for the shape that the server emits.
abbrev pub nested_state : Option Json → Option Json
nested_state (some (obj next)) =
    shaped
      (candidate (pick_string next ("exchangeState" ∷ [])) (pick_string next ("disputeState" ∷ [])))
nested_state _ = none

abbrev pub state_or : Option Json → Option Json → Option Json
state_or (some state) other = some state
state_or none other = other

unfoldable pub summary_of : Json → ExchangeSummary
unfolding pick_string is_client_state_shape
summary_of (obj o) = record {
  raw = obj o;
  exchange_id = pick_string o ("exchangeId" ∷ "exchange_id" ∷ []);
  state = state_or (shaped (get_field o "state")) (nested_state (get_field o "nextActions"));
}
summary_of parsed = record { raw = parsed; exchange_id = none; state = none }

module _ (reader : ResponseReader) where
  abbrev pub parsed_summary : Outcome Json → Outcome (Option ExchangeSummary)
  parsed_summary (thrown e) = thrown e
  parsed_summary (returned parsed) = returned (some (summary_of parsed))

  abbrev pub decoded_summary : Outcome String → Outcome (Option ExchangeSummary)
  decoded_summary (thrown e) = thrown e
  decoded_summary (returned json) = parsed_summary (reader.parse_json json)

  abbrev pub header_summary : Option String → Outcome (Option ExchangeSummary)
  header_summary none = returned none
  header_summary (some raw) =
      if raw == "" then returned none else decoded_summary (reader.decode_base64 raw)

  unfoldable pub parse_payment_response : Dict String → Outcome (Option ExchangeSummary)
  unfolding summary_of
  parse_payment_response headers = header_summary (get headers "x-payment-response")
