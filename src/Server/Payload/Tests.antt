-- ===== src/Server/Payload/Tests.antt =====
-- A payment that is accepted and ones that are not, and the theorem there.
use x402b.Prelude.{
  ℕ, String, List, [], ◌∷◌, Option, none, some, true, false, ◌≡◌, ◌↔◌, refl, ◌==◌, string_eq,
  if◌then◌else◌,
}
use x402b.Json.{Fields, field, end, str, obj}
use x402b.Wire.{EscrowPaymentPayload}
use x402b.Server.Payload.{
  Fields, CommitAction, Chain, ValidatePaymentPayloadArgs, ok, failure, fail,
  validate_payment_payload, encode_rsv, token_auth_recipient_mismatch, token_auth_deadline_exceeded,
  seller_sig_mismatch, bad_meta_tx_signature, full_offer_mismatch, valid,
}
use x402b.Server.Payload.Samples.{test_chain, terms, paying}
use x402b.Server.Payload.Offer.{deep_equal}
use x402b.Server.Payload.Rules.{Accepted, validate_payment_payload_iff}

abbrev args_of : EscrowPaymentPayload → ValidatePaymentPayloadArgs
args_of payload = record {
  payload = payload;
  requirements = terms;
  chain_id = 1;
  now = 1000;
  validate_fulfillment_data = none;
}

validated :
    (validate_payment_payload test_chain (args_of (paying "0xd1" 1300 "0x51")) ≡ ok)
    × (validate_payment_payload test_chain (args_of (paying "0xd1" 1301 "0x51"))
        ≡ failure (fail 9 token_auth_deadline_exceeded "payload.tokenAuth.data.validBefore"))
    × (validate_payment_payload test_chain (args_of (paying "0xB1" 1300 "0x51"))
        ≡ failure (fail 9 token_auth_recipient_mismatch "payload.tokenAuth.data.to"))
    × (validate_payment_payload test_chain (args_of (paying "0xd1" 1300 "0x52"))
        ≡ failure (fail 4 seller_sig_mismatch "payload.offerRef.sellerSig"))
unfolding validate_payment_payload x402b.Server.Payload.Offer.deep_equal x402b.Prelude.same_text
validated = (refl, refl, refl, refl)

encoded :
    (encode_rsv (record { v = 0; r = "0x01"; s = "2" })
      ≡ some
          "0x000000000000000000000000000000000000000000000000000000000000000100000000000000000000000000000000000000000000000000000000000000021b")
    × (encode_rsv (record { v = 2; r = "0x01"; s = "0x02" }) ≡ none)
unfolding encode_rsv
encoded = (refl, refl)

validate_payment_payload_iff_example :
    (validate_payment_payload test_chain (args_of (paying "0xd1" 1300 "0x51")) ≡ ok)
    ↔ Accepted test_chain (args_of (paying "0xd1" 1300 "0x51"))
validate_payment_payload_iff_example =
    validate_payment_payload_iff test_chain (args_of (paying "0xd1" 1300 "0x51"))

abbrev described : Fields
described = field "price" (str "100") (field "terms" (obj (field "text" (str "as seen") end)) end)

abbrev reordered : Fields
reordered = field "terms" (obj (field "text" (str "as seen") end)) (field "price" (str "100") end)

same_offers :
    (deep_equal described reordered ≡ true)
    × (deep_equal described (field "price" (str "100") end) ≡ false)
unfolding deep_equal
same_offers = (refl, refl)
