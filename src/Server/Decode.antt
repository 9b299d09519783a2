-- ===== src/Server/Decode.antt =====
-- validate/decode.ts: the X-PAYMENT header. `atob` with the text decoding, `JSON.parse` and the
-- schema of the payload are parameters.
use Prim.Native.Char.{code}
use Prim.Native.String.{◌++◌ as append}
use x402b.Prelude.{
  ℕ, zero, suc, ◌-◌, String, Option, none, some, ◌==◌, nat_eq, string_eq, if◌then◌else◌,
}
use x402b.Json.{Json}
use x402b.Wire.{EscrowPaymentPayload}
use x402b.Effects.{Outcome, returned, thrown}

pub data DecodeErrorCode : Type 0 where
  missing_header invalid_base64 invalid_json invalid_payload : DecodeErrorCode

pub data DecodeXPaymentResult : Type 0 where
  decoded : EscrowPaymentPayload → DecodeXPaymentResult
  undecoded : DecodeErrorCode → DecodeXPaymentResult

pub record Platform : Type 0 where
  pub text_of_base64 : String → Outcome String
  pub parse_json : String → Outcome Json
  pub parse_payload : Json → Outcome EscrowPaymentPayload

-- `input.replace(/-/g, "+").replace(/_/g, "/")`
unfoldable pub to_base64_letters : String → String
to_base64_letters String.[] = ""
to_base64_letters (String.◌∷◌ c s) =
    let rest = to_base64_letters s in
    if code c == b'-'
    then append "+" rest
    else if code c == b'_'
    then append "/" rest
    else String.◌∷◌ c rest

-- `normalized.length % 4`
abbrev quad_rest : String → ℕ
quad_rest String.[] = 0
quad_rest (String.◌∷◌ c String.[]) = 1
quad_rest (String.◌∷◌ c (String.◌∷◌ d String.[])) = 2
quad_rest (String.◌∷◌ c (String.◌∷◌ d (String.◌∷◌ e String.[]))) = 3
quad_rest (String.◌∷◌ c (String.◌∷◌ d (String.◌∷◌ e (String.◌∷◌ f s)))) = quad_rest s

abbrev equals_signs : ℕ → String
equals_signs zero = ""
equals_signs (suc n) = append "=" (equals_signs n)

unfoldable pub base64_url_to_base64 : String → String
unfolding to_base64_letters
base64_url_to_base64 input =
    let normalized = to_base64_letters input in
    let rest = quad_rest normalized in
    append normalized (if rest == 0 then "" else equals_signs (4 - rest))

abbrev parsed_payload : Outcome EscrowPaymentPayload → DecodeXPaymentResult
parsed_payload (thrown e) = undecoded invalid_payload
parsed_payload (returned payload) = decoded payload

abbrev parsed_json : Platform → Outcome Json → DecodeXPaymentResult
parsed_json platform (thrown e) = undecoded invalid_json
parsed_json platform (returned json) = parsed_payload (platform.parse_payload json)

abbrev decoded_text : Platform → Outcome String → DecodeXPaymentResult
decoded_text platform (thrown e) = undecoded invalid_base64
decoded_text platform (returned text) = parsed_json platform (platform.parse_json text)

unfoldable pub decode_x_payment_header : Platform → Option String → DecodeXPaymentResult
unfolding base64_url_to_base64
decode_x_payment_header platform none = undecoded missing_header
decode_x_payment_header platform (some header) =
    if header == ""
    then undecoded missing_header
    else decoded_text platform (platform.text_of_base64 (base64_url_to_base64 header))
