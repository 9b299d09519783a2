-- ===== src/Facilitator/Structural.antt =====
-- verify/structural.ts: the checks that need neither the chain nor a signature. The chain id is exact;
-- JavaScript's `Number` is exact below 2 ^ 53.
pub mod Accepts
mod Tests
use Prim.Native.Char.{code}
use x402b.Prelude.{
  ℕ, ◌+◌, ◌-◌, ◌*◌, String, List, [], ◌∷◌, map, Option, none, some, Bool, true, false, not, ◌&&◌,
  ◌==◌, ◌!=◌, string_eq, option_eq, same_text, includes, is_some, if◌then◌else◌,
}
use x402b.Json.{Json, Items, Fields}
use x402b.Effects.{Outcome, returned, thrown}
use x402b.Wire.{
  TokenAuthStrategy, strategy_eq, kind, EscrowPaymentPayload, EscrowPaymentRequirements,
  BosonTokenAuth,
}
use x402b.Wire.Patterns.{after_prefix, every, is_digit}
use x402b.Wire.Schemas.{escrow_payment_payload_schema, escrow_payment_requirements_schema}
use x402b.Server.Payload.{CommitAction, commit_action, InnerActionCalldata, splice}
use x402b.Facilitator.{
  FacilitatorErrorCode, invalid_payload, scheme_mismatch, network_mismatch, unsupported_action,
  action_not_in_requirements, token_auth_not_in_requirements, StepResult, ok, rejected,
}
use x402b.Facilitator.Config.{Libraries, ◌followed_by◌, reject_if}

unfoldable pub validate_payload_structure : EscrowPaymentPayload → StepResult
validate_payload_structure payload =
    reject_if (not (escrow_payment_payload_schema payload)) invalid_payload

unfoldable pub validate_requirements_structure : Libraries → EscrowPaymentRequirements → StepResult
validate_requirements_structure lib requirements =
    reject_if (not (escrow_payment_requirements_schema lib.is_datetime requirements))
      invalid_payload

unfoldable pub validate_scheme : String → EscrowPaymentPayload → StepResult
validate_scheme scheme payload =
    reject_if (scheme != "escrow") scheme_mismatch
    followed_by reject_if (payload.scheme != "escrow") scheme_mismatch

unfoldable pub validate_network_match :
    String → EscrowPaymentPayload → EscrowPaymentRequirements → StepResult
validate_network_match network payload requirements =
    reject_if (network != payload.network) network_mismatch
    followed_by reject_if (network != requirements.network) network_mismatch

unfoldable pub validate_action_in_requirements :
    EscrowPaymentPayload → EscrowPaymentRequirements → StepResult
validate_action_in_requirements payload requirements =
    reject_if
      (not (includes (map (λ entry. entry.id) requirements.actions.next) payload.payload.action))
      action_not_in_requirements

module _ (precedes : String → String → Bool) where
  -- Into its place among sorted entries, before those that it does not follow.
  abbrev insert_entry : String → Json → Fields → Fields
  insert_entry k v Fields.end = Fields.field k v Fields.end
  insert_entry k v (Fields.field j w f) =
      if precedes k j
      then Fields.field k v (Fields.field j w f)
      else Fields.field j w (insert_entry k v f)

-- `sortJson`: the entries of an object are sorted, stably, and their values sorted.
unfoldable mutual
  pub sort_json : (String → String → Bool) → Json → Json
  sort_json precedes (Json.arr xs) = Json.arr (sort_items precedes xs)
  sort_json precedes (Json.obj f) = Json.obj (sort_fields precedes f)
  sort_json precedes v = v

  pub sort_items : (String → String → Bool) → Items → Items
  sort_items precedes Items.nil = Items.nil
  sort_items precedes (Items.cons x xs) = Items.cons (sort_json precedes x) (sort_items precedes xs)

  pub sort_fields : (String → String → Bool) → Fields → Fields
  sort_fields precedes Fields.end = Fields.end
  sort_fields precedes (Fields.field k v f) =
      insert_entry precedes k (sort_json precedes v) (sort_fields precedes f)

-- `canonicalJson` of an object.
unfoldable pub canonical_json : Libraries → Fields → String
canonical_json lib f = lib.stringify (sort_json lib.precedes (Json.obj f))

unfoldable pub validate_offer_ref_matches_requirements :
    Libraries → EscrowPaymentPayload → EscrowPaymentRequirements → StepResult
unfolding canonical_json
validate_offer_ref_matches_requirements lib payload requirements =
    reject_if
      (canonical_json lib payload.payload.offer_ref.full_offer
        != canonical_json lib requirements.offer.full_offer)
      invalid_payload
    followed_by reject_if
        (not (same_text payload.payload.offer_ref.seller_sig requirements.offer.seller_sig))
        invalid_payload

module _ (payload : EscrowPaymentPayload) where
  abbrev compare_built : Outcome InnerActionCalldata → StepResult
  compare_built (thrown e) = rejected invalid_payload
  compare_built (returned expected) =
      reject_if (payload.payload.meta_tx.function_name != expected.function_name) invalid_payload
      followed_by reject_if
          (not (same_text payload.payload.meta_tx.function_signature expected.function_signature))
          invalid_payload

  abbrev match_calldata : Libraries → EscrowPaymentRequirements → Option CommitAction → StepResult
  match_calldata lib requirements none = rejected unsupported_action
  match_calldata lib requirements (some action) = compare_built (
      lib.build_calldata action
        (splice requirements.offer.full_offer payload.payload.buyer requirements.offer.seller_sig))

unfoldable pub validate_meta_tx_calldata_matches_requirements :
    Libraries → EscrowPaymentPayload → EscrowPaymentRequirements → StepResult
validate_meta_tx_calldata_matches_requirements lib payload requirements =
    match_calldata payload lib requirements (commit_action payload.payload.action)

-- The rule on the presence and the kind of the authorisation.
abbrev match_strategy : TokenAuthStrategy → Option BosonTokenAuth → StepResult
match_strategy TokenAuthStrategy.none none = ok
match_strategy TokenAuthStrategy.none (some auth) = rejected invalid_payload
match_strategy strategy none = rejected invalid_payload
match_strategy strategy (some auth) = reject_if (strategy != kind auth) invalid_payload

unfoldable pub validate_token_auth_strategy_in_requirements :
    EscrowPaymentPayload → EscrowPaymentRequirements → StepResult
validate_token_auth_strategy_in_requirements payload requirements =
    reject_if
      (not (includes requirements.token_auth_strategies payload.payload.token_auth_strategy))
      token_auth_not_in_requirements
    followed_by match_strategy payload.payload.token_auth_strategy payload.payload.token_auth

-- The number that decimal digits write, after those that `n` stands for.
unfoldable pub decimal_value : ℕ → String → ℕ
decimal_value n String.[] = n
decimal_value n (String.◌∷◌ c s) = decimal_value (10 * n + (code c - b'0')) s

-- `(\d+)$`, as a number.
abbrev digits_value : Option String → Option ℕ
digits_value none = none
digits_value (some String.[]) = none
digits_value (some (String.◌∷◌ c s)) =
    if every is_digit (String.◌∷◌ c s) then some (decimal_value 0 (String.◌∷◌ c s)) else none

-- `parseChainId`, whose failure is NETWORK_MISMATCH.
unfoldable pub parse_chain_id : String → Option ℕ
unfolding decimal_value
parse_chain_id network = digits_value (after_prefix "eip155:" network)
