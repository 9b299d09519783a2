-- ===== src/Server/Payload.antt =====
-- validate/payment-payload.ts: the rules on a payment payload. The building of calldata and the
-- recovery of a signer are core-sdk's and viem's, and parameters here. A failure's `expected`, `got`
-- and `reason` are left out.
pub mod Offer
pub mod Rules
pub mod Paths
pub mod Reflexive
pub mod Samples
mod Tests
use Prim.Native.Char.{Char}
use Prim.Native.String.{◌++◌ as append}
use x402b.Prelude.{
  ℕ, zero, suc, ◌+◌, ◌-◌, String, List, [], ◌∷◌, map, Option, none, some, Bool, true, false, not,
  ◌&&◌, ◌||◌, ◌==◌, ◌!=◌, string_eq, nat_eq, option_eq, same_text, includes, find?, ltb, is_some,
  if◌then◌else◌,
}
use x402b.Json.{Json, Fields, put_field, str}
use x402b.Effects.{Outcome, returned, thrown}
use x402b.Wire.{
  Sig, BosonMetaTx, BosonTokenAuth, TokenAuthStrategy, strategy_eq, kind, FulfillmentOption,
  FulfillmentRequirements, CarriedFulfillment, NextAction, EscrowPaymentPayload,
  EscrowPaymentRequirements,
}
use x402b.Server.Payload.Offer.{deep_equal}

pub data ValidationErrorCode : Type 0 where
  scheme_mismatch network_mismatch full_offer_mismatch seller_sig_mismatch : ValidationErrorCode
  action_not_in_requirements token_auth_not_in_requirements : ValidationErrorCode
  calldata_mismatch bad_meta_tx_signature : ValidationErrorCode
  token_auth_amount_mismatch token_auth_recipient_mismatch : ValidationErrorCode
  token_auth_spender_mismatch token_auth_token_mismatch : ValidationErrorCode
  token_auth_deadline_exceeded token_auth_missing token_auth_unexpected : ValidationErrorCode
  token_auth_unknown_strategy fulfillment_required : ValidationErrorCode
  fulfillment_option_not_advertised fulfillment_data_required : ValidationErrorCode
  fulfillment_data_unexpected fulfillment_data_invalid : ValidationErrorCode

pub record Failure : Type 0 where
  pub rule : ℕ
  pub code : ValidationErrorCode
  pub field : String

pub data ValidatePaymentPayloadResult : Type 0 where
  ok : ValidatePaymentPayloadResult
  failure : Failure → ValidatePaymentPayloadResult

-- `if (test) return failure(…)`, whose going on is none.
abbrev pub refuse : Bool → Failure → Option Failure
refuse true f = some f
refuse false f = none

-- `if (result !== null) return result`, with what follows it.
infixr 40 ◌otherwise◌
abbrev pub ◌otherwise◌ : Option Failure → Option Failure → Option Failure
none otherwise next = next
(some f) otherwise next = some f

abbrev pub fail : ℕ → ValidationErrorCode → String → Failure
fail rule code field = record { rule = rule; code = code; field = field }

pub data CommitAction : Type 0 where
  create_offer_and_commit create_offer_commit_and_redeem : CommitAction

-- The choice of `buildCalldata`.
abbrev pub commit_action : String → Option CommitAction
commit_action action =
    if action == "boson-createOfferAndCommit"
    then some create_offer_and_commit
    else if action == "boson-createOfferCommitAndRedeem"
    then some create_offer_commit_and_redeem
    else none

pub record InnerActionCalldata : Type 0 where
  pub function_name : String
  pub function_signature : String

pub data Validation : Type 0 where
  valid : Validation
  invalid : (reason : String) → Validation

-- A validator of `fulfillment.data`, whose absent data is null.
abbrev pub DataValidator : Type 0
DataValidator = String → Option Fields → Validation

-- `s.replace(/^0x/, "")`
unfoldable pub strip_0x : String → String
strip_0x (String.◌∷◌ c (String.◌∷◌ d s)) =
    if String.◌∷◌ c (String.◌∷◌ d "") == "0x" then s else String.◌∷◌ c (String.◌∷◌ d s)
strip_0x s = s

abbrev pub string_length : String → ℕ
string_length String.[] = 0
string_length (String.◌∷◌ c s) = suc (string_length s)

abbrev pub zeros : ℕ → String → String
zeros zero s = s
zeros (suc n) s = append "0" (zeros n s)

-- `s.padStart(width, "0")`
unfoldable pub pad_start : ℕ → String → String
pad_start width s = zeros (width - string_length s) s

-- The normalised `v` in base 16; it throws at another `v`.
unfoldable pub recovery_byte : ℕ → Option String
recovery_byte v =
    if v == 0 || v == 27 then some "1b" else if v == 1 || v == 28 then some "1c" else none

unfoldable pub encode_rsv : Sig → Option String
unfolding strip_0x pad_start recovery_byte
encode_rsv sig = elim (recovery_byte sig.v) [
  | none ↦ none
  | some v ↦
      let r = pad_start 64 (strip_0x sig.r) in
      let s = pad_start 64 (strip_0x sig.s) in some (append "0x" (append r (append s v)))
]

-- What the validator gets from elsewhere: `buildCreateOffer…Calldata`, and
-- `recoverMetaTransactionSigner` at a chain, a contract, a message and a signature.
pub record Chain : Type 0 where
  pub build_calldata : CommitAction → Fields → Outcome InnerActionCalldata
  pub recover_signer : ℕ → String → BosonMetaTx → String → Outcome String

-- `fullOfferWithSig`
unfoldable pub splice : Fields → String → String → Fields
unfolding put_field
splice full_offer committer seller_sig =
    put_field (put_field full_offer "committer" (str committer)) "signature" (str seller_sig)

module _ (payload : EscrowPaymentPayload) where
  abbrev function_signature_field : String
  function_signature_field = "payload.metaTx.functionSignature"

  abbrev compare_calldata : InnerActionCalldata → Option Failure
  compare_calldata expected =
      refuse (expected.function_name != payload.payload.meta_tx.function_name)
        (fail 7 calldata_mismatch "payload.metaTx.functionName")
      otherwise refuse
          (not (same_text expected.function_signature payload.payload.meta_tx.function_signature))
          (fail 7 calldata_mismatch function_signature_field)

  abbrev compare_built : Outcome InnerActionCalldata → Option Failure
  compare_built (thrown e) = some (fail 7 calldata_mismatch function_signature_field)
  compare_built (returned expected) = compare_calldata expected

  module _ (chain : Chain) where
    -- `checkFunctionSignatureAndCalldataEquality` for an action that has a builder, and any.
    abbrev pub check_calldata_of : Option CommitAction → Option Failure
    check_calldata_of none = some (fail 7 calldata_mismatch "payload.action")
    check_calldata_of (some action) = compare_built (
        chain.build_calldata action (
          splice payload.payload.offer_ref.full_offer payload.payload.buyer
            payload.payload.offer_ref.seller_sig))

    unfoldable pub check_calldata : Option Failure
    unfolding splice
    check_calldata = check_calldata_of (commit_action payload.payload.action)

  abbrev compare_signer : Outcome String → Option Failure
  compare_signer (thrown e) = some (fail 8 bad_meta_tx_signature "payload.metaTx.sig")
  compare_signer (returned recovered) =
      refuse (not (same_text recovered payload.payload.buyer))
        (fail 8 bad_meta_tx_signature "payload.metaTx.sig")

  module _ (chain : Chain) (chain_id : ℕ) (requirements : EscrowPaymentRequirements) where
    -- The recovery, with the signature encoded; encoding throws within the same `try`.
    abbrev pub check_recovery : Option String → Option Failure
    check_recovery none = some (fail 8 bad_meta_tx_signature "payload.metaTx.sig")
    check_recovery (some signature) = compare_signer (
        chain.recover_signer chain_id requirements.escrow_address payload.payload.meta_tx signature)

    unfoldable pub check_signer : Option Failure
    unfolding encode_rsv
    check_signer =
        refuse (not (same_text payload.payload.buyer payload.payload.meta_tx.from))
          (fail 8 bad_meta_tx_signature "payload.metaTx.from")
        otherwise check_recovery (encode_rsv payload.payload.meta_tx.sig)

module _ (requirements : EscrowPaymentRequirements) (horizon : ℕ) where
  -- The cases of `switch (tokenAuth.kind)`; its default is not reached by a value of the type.
  unfoldable pub check_token_auth_terms : BosonTokenAuth → Option Failure
  check_token_auth_terms (BosonTokenAuth.erc3009 d) =
      refuse (d.value != requirements.amount)
        (fail 9 token_auth_amount_mismatch "payload.tokenAuth.data.value")
      otherwise refuse (not (same_text d.to requirements.escrow_address))
          (fail 9 token_auth_recipient_mismatch "payload.tokenAuth.data.to")
      otherwise refuse (ltb horizon d.valid_before)
          (fail 9 token_auth_deadline_exceeded "payload.tokenAuth.data.validBefore")
  check_token_auth_terms (BosonTokenAuth.permit d) =
      refuse (d.value != requirements.amount)
        (fail 10 token_auth_amount_mismatch "payload.tokenAuth.data.value")
      otherwise refuse (not (same_text d.spender requirements.escrow_address))
          (fail 10 token_auth_spender_mismatch "payload.tokenAuth.data.spender")
      otherwise refuse (ltb horizon d.deadline)
          (fail 10 token_auth_deadline_exceeded "payload.tokenAuth.data.deadline")
  check_token_auth_terms (BosonTokenAuth.permit2 d) =
      refuse (d.permitted.amount != requirements.amount)
        (fail 11 token_auth_amount_mismatch "payload.tokenAuth.data.permitted.amount")
      otherwise refuse (not (same_text d.permitted.token requirements.asset))
          (fail 11 token_auth_token_mismatch "payload.tokenAuth.data.permitted.token")
      otherwise refuse (not (same_text d.spender requirements.escrow_address))
          (fail 11 token_auth_spender_mismatch "payload.tokenAuth.data.spender")
      otherwise refuse (ltb horizon d.deadline)
          (fail 11 token_auth_deadline_exceeded "payload.tokenAuth.data.deadline")

  abbrev pub check_token_auth_of : TokenAuthStrategy → Option BosonTokenAuth → Option Failure
  check_token_auth_of TokenAuthStrategy.none none = none
  check_token_auth_of TokenAuthStrategy.none (some auth) =
      some (fail 9 token_auth_unexpected "payload.tokenAuth")
  check_token_auth_of strategy none = some (fail 9 token_auth_missing "payload.tokenAuth")
  check_token_auth_of strategy (some auth) =
      refuse (kind auth != strategy) (fail 9 token_auth_missing "payload.tokenAuth.kind")
      otherwise check_token_auth_terms auth

-- `checkTokenAuthRules`
unfoldable pub check_token_auth :
    EscrowPaymentPayload → EscrowPaymentRequirements → ℕ → Option Failure
unfolding check_token_auth_terms
check_token_auth payload requirements now =
    check_token_auth_of requirements (now + requirements.max_timeout_seconds)
      payload.payload.token_auth_strategy payload.payload.token_auth

abbrev pub is_required : Option FulfillmentRequirements → Bool
is_required none = false
is_required (some f) = f.required

abbrev pub advertised_options : Option FulfillmentRequirements → List FulfillmentOption
advertised_options none = []
advertised_options (some f) = f.options

-- `validator(matched.id, carried.data)`, where there is a validator.
abbrev pub check_data : Option DataValidator → String → Option Fields → Option Failure
check_data none id data_ = none
check_data (some validator) id data_ = elim (validator id data_) [
  | valid ↦ none
  | invalid reason ↦ some (fail 13 fulfillment_data_invalid "payload.fulfillment.data")
]

abbrev pub check_carried_data :
    Bool → Option DataValidator → String → Option (Option Fields) → Option Failure
check_carried_data true validator id none =
    some (fail 13 fulfillment_data_required "payload.fulfillment.data")
check_carried_data true validator id (some d) = check_data validator id d
check_carried_data false validator id none = none
check_carried_data false validator id (some d) =
    some (fail 13 fulfillment_data_unexpected "payload.fulfillment.data")

abbrev pub check_option :
    Bool → Option DataValidator → CarriedFulfillment → Option FulfillmentOption → Option Failure
check_option atomic validator carried none =
    some (fail 13 fulfillment_option_not_advertised "payload.fulfillment.option")
check_option atomic validator carried (some matched) =
    check_carried_data atomic validator matched.id carried.carried_data

abbrev pub check_fulfillment_of :
    Bool
    → Option FulfillmentRequirements
    → Option DataValidator
    → Option CarriedFulfillment
    → Option Failure
check_fulfillment_of atomic requirements validator none =
    refuse (is_required requirements) (fail 13 fulfillment_required "payload.fulfillment")
check_fulfillment_of atomic requirements validator (some carried) =
    check_option atomic validator carried
      (find? (λ option. option.id == carried.option) (advertised_options requirements))

unfoldable pub check_fulfillment :
    EscrowPaymentPayload → EscrowPaymentRequirements → Option DataValidator → Option Failure
check_fulfillment payload requirements validator =
    check_fulfillment_of (payload.payload.action == "boson-createOfferCommitAndRedeem")
      requirements.fulfillment validator payload.fulfillment

abbrev advertised_actions : EscrowPaymentRequirements → List String
advertised_actions requirements = map (λ entry. entry.id) requirements.actions.next

pub record ValidatePaymentPayloadArgs : Type 0 where
  pub payload : EscrowPaymentPayload
  pub requirements : EscrowPaymentRequirements
  pub chain_id : ℕ
  pub now : ℕ
  pub validate_fulfillment_data : Option DataValidator

unfoldable pub first_failure : Chain → ValidatePaymentPayloadArgs → Option Failure
unfolding check_calldata check_signer check_token_auth check_fulfillment
first_failure chain args =
    refuse (args.payload.scheme != "escrow" || (args.requirements.scheme != "escrow"))
      (fail 1 scheme_mismatch "scheme")
    otherwise refuse (args.payload.network != args.requirements.network)
        (fail 2 network_mismatch "network")
    otherwise refuse
        (not
          (deep_equal args.payload.payload.offer_ref.full_offer args.requirements.offer.full_offer))
        (fail 3 full_offer_mismatch "payload.offerRef.fullOffer")
    otherwise refuse
        (args.payload.payload.offer_ref.seller_sig != args.requirements.offer.seller_sig)
        (fail 4 seller_sig_mismatch "payload.offerRef.sellerSig")
    otherwise refuse
        (not (includes (advertised_actions args.requirements) args.payload.payload.action))
        (fail 5 action_not_in_requirements "payload.action")
    otherwise refuse
        (not (
          includes args.requirements.token_auth_strategies
            args.payload.payload.token_auth_strategy))
        (fail 6 token_auth_not_in_requirements "payload.tokenAuthStrategy")
    otherwise check_calldata args.payload chain
    otherwise check_signer args.payload chain args.chain_id args.requirements
    otherwise check_token_auth args.payload args.requirements args.now
    otherwise check_fulfillment args.payload args.requirements args.validate_fulfillment_data

abbrev result_of : Option Failure → ValidatePaymentPayloadResult
result_of none = ok
result_of (some f) = failure f

unfoldable pub validate_payment_payload :
    Chain → ValidatePaymentPayloadArgs → ValidatePaymentPayloadResult
unfolding first_failure
validate_payment_payload chain args = result_of (first_failure chain args)
