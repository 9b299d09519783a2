-- ===== src/Client/Response/Reported.antt =====
-- The payment response that the paying `fetch` makes up, as the client reads it.
use x402b.Prelude.{
  Bool-cases, inl, inr, String, Option, none, some, true, false, ◌==◌, string_eq, put, ◌≡◌, refl,
  ap, if◌then◌else◌,
}
use x402b.Json.{Json, str, obj, field, end}
use x402b.Effects.{returned, thrown, Raised}
use x402b.Machine.{ExchangeState, action_post_state}
use x402b.Fetch.{
  Platform, PaymentResponseBody, exchange_action, synthesize_commit_fallback_response,
}
use x402b.Fetch.Read.{Fallback}
use x402b.Server.Payload.{CommitAction, create_offer_and_commit, create_offer_commit_and_redeem}
use x402b.Client.Response.{
  ResponseReader, non_empty_text, or_else, pick_string, is_client_state_shape, plain_candidate,
  summary_of, parse_payment_response,
}

-- The JSON of the response's body, with the texts of the states.
abbrev pub body_json : (ExchangeState → String) → PaymentResponseBody → Json
body_json text body = obj (
    field "exchangeId" (str body.exchange_id) (
      field "txHash" (str body.tx_hash) (
        field "nextActions" (obj (field "exchangeState" (str (text body.exchange_state)) end))
          end)))

-- The body of the response for an exchange that the facilitator settled.
abbrev pub settled_body : Fallback → PaymentResponseBody
settled_body found = record {
  exchange_id = found.exchange_id;
  tx_hash = found.tx_hash;
  exchange_state = (action_post_state (exchange_action found.action_id)).exchange;
}

-- The reader's Base64 reads what the platform's writes, its JSON reads the body that the platform
-- writes, an empty text is no JSON, and a state has a text of its own, which is not empty.
pub record Reads {W : Type 0} (reader : ResponseReader) (platform : Platform W)
    (text : ExchangeState → String) (body : PaymentResponseBody) : Type 0 where
  pub decodes : (s : String) → reader.decode_base64 (platform.encode_base64 s) ≡ returned s
  pub decodes_empty : reader.decode_base64 "" ≡ returned ""
  pub parses : reader.parse_json (platform.stringify_response body) ≡ returned (body_json text body)
  pub error : Raised
  pub parses_empty : reader.parse_json "" ≡ thrown error
  pub named : (s : ExchangeState) → (text s == "") ≡ false
  pub is_disputed : (s : ExchangeState) → (text s == "DISPUTED") ≡ true → s ≡ ExchangeState.disputed

or_else-none : (o : Option String) → or_else o none ≡ o
or_else-none none = refl
or_else-none (some s) = refl

module _ {W : Type 0} (reader : ResponseReader) (platform : Platform W)
    (text : ExchangeState → String) where
  not_empty :
      (body : PaymentResponseBody)
      → Reads reader platform text body
      → (platform.encode_base64 (platform.stringify_response body) == "") ≡ false
  not_empty body reads =
      let t = platform.stringify_response body in
      elim (Bool-cases (platform.encode_base64 t == "")) [
        | inl h ↦
            let blank : platform.encode_base64 t ≡ "" =
              (string_eq.beq_iff (platform.encode_base64 t) "").0 h in
            let none_left : t ≡ "" =
              cc (reads.decodes t, reads.decodes_empty, ap reader.decode_base64 blank) in
            cc (reads.parses, reads.parses_empty, ap reader.parse_json none_left)
        | inr h ↦ h
      ]

  other :
      (body : PaymentResponseBody) (s : ExchangeState)
      → Reads reader platform text body
      → ¬ (s ≡ ExchangeState.disputed)
      → (text s == "DISPUTED") ≡ false
  other body s reads h = elim (Bool-cases (text s == "DISPUTED")) [
    | inl k ↦ absurd (h (reads.is_disputed s k))
    | inr k ↦ k
  ]

  not_disputed :
      (body : PaymentResponseBody) (a : CommitAction)
      → Reads reader platform text body
      → (text (action_post_state (exchange_action a)).exchange == "DISPUTED") ≡ false
  unfolding action_post_state
  not_disputed body create_offer_and_commit reads = other body ExchangeState.committed reads cc
  not_disputed body create_offer_commit_and_redeem reads =
      other body ExchangeState.redeemed reads cc

  summary_of-body_json :
      (body : PaymentResponseBody)
      → Reads reader platform text body
      → (text body.exchange_state == "DISPUTED") ≡ false
      → summary_of (body_json text body) ≡ record {
        raw = body_json text body;
        exchange_id = if body.exchange_id == "" then none else some body.exchange_id;
        state = some (plain_candidate (text body.exchange_state));
      }
  unfolding summary_of pick_string is_client_state_shape
  summary_of-body_json body reads h =
      rw
        (
          reads.named body.exchange_state,
          h,
          reads.named body.exchange_state,
          or_else-none (non_empty_text (some (str body.exchange_id))),
        )
        refl

  -- The client reads, of the response that the paying `fetch` makes up for an exchange that the
  -- facilitator has settled, the exchange, unless its id is empty, and the state after the commit,
  -- provided that its Base64 and JSON read what the platform's write there, that an empty text is no
  -- JSON, and that the states' texts are not empty and only the disputed one's is "DISPUTED".
  pub parse_payment_response-synthesize :
      (found : Fallback) (marker : String)
      → Reads reader platform text (settled_body found)
      → parse_payment_response reader
          (synthesize_commit_fallback_response platform found marker).headers
        ≡ returned (
            some (record {
              raw = body_json text (settled_body found);
              exchange_id = if found.exchange_id == "" then none else some found.exchange_id;
              state = some (
                  plain_candidate
                    (text (action_post_state (exchange_action found.action_id)).exchange));
            }))
  unfolding parse_payment_response synthesize_commit_fallback_response put
  parse_payment_response-synthesize found marker reads =
      let body = settled_body found in
      rw
        (
          not_empty body reads,
          reads.decodes (platform.stringify_response body),
          reads.parses,
          summary_of-body_json body reads (not_disputed body found.action_id reads),
        )
        refl
