-- ===== src/Facilitator/Calldata.antt =====
-- perform-action/action-calldata.ts: whether a signed meta-transaction is the requested action on the
-- requested exchange or entity.
pub mod Matching
use Prim.Native.Nat.{◌^◌}
use x402b.Prelude.{
  ℕ, ◌-◌, String, List, [], ◌∷◌, Option, none, some, Bool, true, false, not, ◌==◌, ◌!=◌, nat_eq,
  string_eq, ltb, if◌then◌else◌,
}
use x402b.Machine.{ActionId, on_exchange, withdraw_funds, ExchangeActionId}
use x402b.Wire.{BosonMetaTx}
use x402b.Wire.Patterns.{is_decimal_uint}
use x402b.Effects.{Outcome, returned, thrown}
use x402b.Facilitator.{
  FacilitatorErrorCode, invalid_payload, unsupported_action, StepResult, ok, rejected,
}
use x402b.Facilitator.Config.{
  Libraries, DecodedValue, DecodedCall, bigint, ◌followed_by◌, reject_if,
}
use x402b.Facilitator.Structural.{decimal_value}

pub record ActionFunction : Type 0 where
  pub name : String
  pub signature : String

abbrev fn : String → String → Option ActionFunction
fn name signature = some (record { name = name; signature = signature })

-- `EXCHANGE_ACTION_FUNCTIONS`: the post-commit actions on an exchange.
unfoldable pub exchange_action_function : ExchangeActionId → Option ActionFunction
exchange_action_function ExchangeActionId.redeem = fn "redeemVoucher" "redeemVoucher(uint256)"
exchange_action_function ExchangeActionId.cancel_voucher =
    fn "cancelVoucher" "cancelVoucher(uint256)"
exchange_action_function ExchangeActionId.revoke_voucher =
    fn "revokeVoucher" "revokeVoucher(uint256)"
exchange_action_function ExchangeActionId.complete_exchange =
    fn "completeExchange" "completeExchange(uint256)"
exchange_action_function ExchangeActionId.raise_dispute = fn "raiseDispute" "raiseDispute(uint256)"
exchange_action_function ExchangeActionId.resolve_dispute =
    fn "resolveDispute" "resolveDispute(uint256,uint256,bytes)"
exchange_action_function ExchangeActionId.escalate_dispute =
    fn "escalateDispute" "escalateDispute(uint256)"
exchange_action_function ExchangeActionId.retract_dispute =
    fn "retractDispute" "retractDispute(uint256)"
exchange_action_function ExchangeActionId.create_offer_and_commit = none
exchange_action_function ExchangeActionId.create_offer_commit_and_redeem = none

-- `ENTITY_ACTION_FUNCTIONS`, with the set of its actions.
unfoldable pub entity_action_function : ActionId → Option ActionFunction
entity_action_function withdraw_funds =
    fn "withdrawFunds" "withdrawFunds(uint256,address[],uint256[])"
entity_action_function (on_exchange action) = none

-- The same of an action, where only those on an exchange count.
unfoldable pub post_commit_exchange_function : ActionId → Option ActionFunction
unfolding exchange_action_function
post_commit_exchange_function (on_exchange action) = exchange_action_function action
post_commit_exchange_function withdraw_funds = none

abbrev pub uint256_max : ℕ
uint256_max = 2 ^ 256 - 1

-- `parseUint256`, whose failure is INVALID_PAYLOAD. A text of the pattern is one that `BigInt` reads.
unfoldable pub parse_uint256 : String → Option ℕ
unfolding is_decimal_uint decimal_value
parse_uint256 value =
    if is_decimal_uint value
    then if ltb uint256_max (decimal_value 0 value) then none else some (decimal_value 0 value)
    else none

-- The first argument against the request's key.
abbrev pub match_key : ℕ → List DecodedValue → StepResult
match_key key (bigint actual ∷ rest) = reject_if (actual != key) invalid_payload
match_key key args = rejected invalid_payload

abbrev pub match_decoded : ActionFunction → ℕ → Outcome DecodedCall → StepResult
match_decoded expected key (thrown e) = rejected invalid_payload
match_decoded expected key (returned call) =
    reject_if (call.function_name != expected.name) invalid_payload
    followed_by match_key key call.args

abbrev pub match_parsed : Libraries → ActionFunction → BosonMetaTx → Option ℕ → StepResult
match_parsed lib expected m none = rejected invalid_payload
match_parsed lib expected m (some key) =
    match_decoded expected key (lib.decode_function_data m.function_signature)

abbrev pub match_function : Libraries → Option ActionFunction → String → BosonMetaTx → StepResult
match_function lib none key m = rejected unsupported_action
match_function lib (some expected) key m =
    reject_if (m.function_name != expected.signature) invalid_payload
    followed_by match_parsed lib expected m (parse_uint256 key)

unfoldable pub validate_perform_exchange_action_meta_tx :
    Libraries → ActionId → String → BosonMetaTx → StepResult
unfolding parse_uint256 post_commit_exchange_function
validate_perform_exchange_action_meta_tx lib action exchange_id m =
    match_function lib (post_commit_exchange_function action) exchange_id m

unfoldable pub validate_perform_entity_action_meta_tx :
    Libraries → ActionId → String → BosonMetaTx → StepResult
unfolding parse_uint256 entity_action_function
validate_perform_entity_action_meta_tx lib action entity_id m =
    match_function lib (entity_action_function action) entity_id m

-- `validatePerformActionMetaTx`, where either key may be absent.
unfoldable pub validate_perform_action_meta_tx :
    Libraries → ActionId → (exchange_id entity_id : Option String) → BosonMetaTx → StepResult
unfolding validate_perform_exchange_action_meta_tx validate_perform_entity_action_meta_tx
validate_perform_action_meta_tx lib withdraw_funds exchange_id none m = rejected invalid_payload
validate_perform_action_meta_tx lib withdraw_funds exchange_id (some entity_id) m =
    validate_perform_entity_action_meta_tx lib withdraw_funds entity_id m
validate_perform_action_meta_tx lib (on_exchange action) none entity_id m = rejected invalid_payload
validate_perform_action_meta_tx lib (on_exchange action) (some exchange_id) entity_id m =
    validate_perform_exchange_action_meta_tx lib (on_exchange action) exchange_id m
