-- ===== src/Facilitator/MetaTx.antt =====
-- verify/meta-tx-signature.ts: the recovery of a meta-transaction's signer. A nonce goes to the
-- typed-data builders as the text that `BigInt` reads.
pub mod Signed
use x402b.Prelude.{
  ℕ, String, List, [], ◌∷◌, Option, none, some, Bool, true, false, not, ◌&&◌, ◌||◌, ◌==◌, ◌!=◌,
  nat_eq, string_eq, includes, same_text, if◌then◌else◌,
}
use x402b.Machine.{ActionId, on_exchange, withdraw_funds, ExchangeActionId}
use x402b.Wire.{BosonMetaTx}
use x402b.Effects.{Outcome, returned, thrown}
use x402b.Facilitator.{FacilitatorErrorCode, bad_meta_tx_signature, StepResult, ok, rejected}
use x402b.Facilitator.Config.{
  Libraries, TypedMessage, DecodedValue, DecodedCall, bigint, hex, hexes, bigints, ◌followed_by◌,
  reject_if,
}
use x402b.Facilitator.Hex.{pack_rsv}

-- Its failure has the code BAD_META_TX_SIGNATURE.
pub data RecoverMetaTxSignerResult : Type 0 where
  signer : (recovered : String) → RecoverMetaTxSignerResult
  unrecovered : RecoverMetaTxSignerResult

-- `checkV`: whether `v` has the legacy form.
abbrev pub is_legacy_v : ℕ → Bool
is_legacy_v v = v == 27 || v == 28

abbrev pub meta_tx_signature : BosonMetaTx → String
meta_tx_signature m = pack_rsv m.sig.r m.sig.s m.sig.v

-- `recoverTypedDataAddress` in its `try`.
abbrev pub recovered_or_not : Outcome String → RecoverMetaTxSignerResult
recovered_or_not (returned address) = signer address
recovered_or_not (thrown e) = unrecovered

-- `recoverFromTypedData`
abbrev pub recover_from_typed_data :
    Outcome (String → Outcome String) → String → Outcome RecoverMetaTxSignerResult
recover_from_typed_data (thrown e) signature = thrown e
recover_from_typed_data (returned recover) signature =
    returned (recovered_or_not (recover signature))

-- The `try` around it.
abbrev pub or_unrecovered : Outcome RecoverMetaTxSignerResult → RecoverMetaTxSignerResult
or_unrecovered (returned r) = r
or_unrecovered (thrown e) = unrecovered

module _ (lib : Libraries) (chain_id : ℕ) (escrow : String) (m : BosonMetaTx) where
  abbrev pub recover_message : TypedMessage → Outcome RecoverMetaTxSignerResult
  recover_message message =
      recover_from_typed_data (lib.typed_data chain_id escrow m.nonce m.from message)
        (meta_tx_signature m)

  unfoldable pub recover_meta_tx_signer : Outcome RecoverMetaTxSignerResult
  recover_meta_tx_signer =
      if is_legacy_v m.sig.v
      then recover_message (TypedMessage.meta_transaction m.function_name m.function_signature)
      else returned unrecovered

  -- `EXCHANGE_KEYED_FUNCTION_NAMES`
  abbrev pub exchange_keyed_function_names : List String
  exchange_keyed_function_names =
      "redeemVoucher" ∷ "cancelVoucher" ∷ "completeExchange" ∷ "raiseDispute" ∷ "retractDispute"
      ∷ "escalateDispute" ∷ []

  -- `decodeExchangeIdArg`, which checks the function and its first argument.
  abbrev pub exchange_message : Outcome DecodedCall → Option TypedMessage
  exchange_message (thrown e) = none
  exchange_message (returned call) =
      if includes exchange_keyed_function_names call.function_name
      then first_bigint call.args
      else none
    where
      first_bigint : List DecodedValue → Option TypedMessage
      first_bigint (bigint id ∷ rest) = some (TypedMessage.meta_tx_exchange m.function_name id)
      first_bigint args = none

  -- `decodeResolveDisputeArgs`; other arguments than the ABI's do not occur.
  abbrev pub resolution_message : Outcome DecodedCall → Option TypedMessage
  resolution_message (thrown e) = none
  resolution_message (returned call) =
      if call.function_name == "resolveDispute" then three call.args else none
    where
      three : List DecodedValue → Option TypedMessage
      three (bigint id ∷ (bigint percent ∷ (hex sig ∷ []))) =
          some (TypedMessage.meta_tx_dispute_resolution id percent sig)
      three args = none

  -- `decodeWithdrawFundsArgs`, likewise.
  abbrev pub fund_message : Outcome DecodedCall → Option TypedMessage
  fund_message (thrown e) = none
  fund_message (returned call) =
      if call.function_name == "withdrawFunds" then three call.args else none
    where
      three : List DecodedValue → Option TypedMessage
      three (bigint id ∷ (hexes tokens ∷ (bigints amounts ∷ []))) =
          some (TypedMessage.meta_tx_fund id tokens amounts)
      three args = none

  -- The message that the action's calldata gives.
  abbrev pub recover_decoded : Option TypedMessage → Outcome RecoverMetaTxSignerResult
  recover_decoded none = returned unrecovered
  recover_decoded (some message) = returned (or_unrecovered (recover_message message))

  -- The `switch` on the action. Its default returns the promise of the basic recovery out of the
  -- `try`.
  abbrev pub recover_action : ActionId → Outcome RecoverMetaTxSignerResult
  recover_action withdraw_funds =
      recover_decoded (fund_message (lib.decode_function_data m.function_signature))
  recover_action (on_exchange ExchangeActionId.resolve_dispute) =
      recover_decoded (resolution_message (lib.decode_function_data m.function_signature))
  recover_action (on_exchange ExchangeActionId.redeem) =
      recover_decoded (exchange_message (lib.decode_function_data m.function_signature))
  recover_action (on_exchange ExchangeActionId.cancel_voucher) =
      recover_decoded (exchange_message (lib.decode_function_data m.function_signature))
  recover_action (on_exchange ExchangeActionId.complete_exchange) =
      recover_decoded (exchange_message (lib.decode_function_data m.function_signature))
  recover_action (on_exchange ExchangeActionId.raise_dispute) =
      recover_decoded (exchange_message (lib.decode_function_data m.function_signature))
  recover_action (on_exchange ExchangeActionId.retract_dispute) =
      recover_decoded (exchange_message (lib.decode_function_data m.function_signature))
  recover_action (on_exchange ExchangeActionId.escalate_dispute) =
      recover_decoded (exchange_message (lib.decode_function_data m.function_signature))
  recover_action (on_exchange action) = recover_meta_tx_signer

  -- `BigInt(nonce)` stands before the `try`.
  abbrev pub with_nonce :
      Outcome ℕ → Outcome RecoverMetaTxSignerResult → Outcome RecoverMetaTxSignerResult
  with_nonce (thrown e) recovery = thrown e
  with_nonce (returned nonce) recovery = recovery

  unfoldable pub recover_action_meta_tx_signer : ActionId → Outcome RecoverMetaTxSignerResult
  unfolding recover_meta_tx_signer
  recover_action_meta_tx_signer action =
      if is_legacy_v m.sig.v
      then with_nonce (lib.big_int m.nonce) (recover_action action)
      else returned unrecovered

  -- The comparisons of `verifyMetaTxSignature`.
  abbrev pub check_recovered : String → Outcome RecoverMetaTxSignerResult → Outcome StepResult
  check_recovered buyer (thrown e) = thrown e
  check_recovered buyer (returned unrecovered) = returned (rejected bad_meta_tx_signature)
  check_recovered buyer (returned (signer recovered)) = returned (
      reject_if (not (same_text recovered buyer)) bad_meta_tx_signature
      followed_by reject_if (not (same_text m.from buyer)) bad_meta_tx_signature)

  unfoldable pub verify_meta_tx_signature : String → Outcome StepResult
  unfolding recover_meta_tx_signer
  verify_meta_tx_signature buyer = check_recovered buyer recover_meta_tx_signer
