-- ===== src/Facilitator/Settle.antt =====
-- settle/index.ts and settle/extract-exchange-id.ts: `settle`, which submits a payment that `verify`
-- accepts and reads the exchange id from the receipt; the submission's error mapping, with
-- classifyViemSendError and the adapter's check of chains of evm/src/adapters/viem-relayer.ts.
pub mod Settled
mod Tests
use x402b.Prelude.{
  ℕ, String, List, [], ◌∷◌, Option, none, some, Bool, true, false, not, ◌||◌, ◌==◌, nat_eq,
  if◌then◌else◌,
}
use x402b.Effects.{Eff, Outcome, returned, thrown, Raised, error}
use x402b.Wire.{TokenAuthStrategy, BosonTokenAuth}
use x402b.Facilitator.{
  FacilitatorErrorCode, network_mismatch, invalid_payload, event_not_found, FacilitatorSettleInput,
  FacilitatorSettleResult, settled, StepResult, ok,
}
use x402b.Facilitator.Config.{
  Libraries, FacilitatorConfig, WalletClient, PublicClient, ErrorClass, ErrorLink, ErrorChain,
  RelayerSubmitErrorCode, relayer_submit, insufficient_funds, execution_reverted,
  contract_function_reverted, raw_contract, SubmitResult, sent, Receipt,
}
use x402b.Facilitator.Structural.{parse_chain_id}
use x402b.Facilitator.Envelope.{build_settle_calldata, TxRequest, is_base_error, lacks_token_auth}
use x402b.Facilitator.Verify.{verify}

-- Either a value or the code of a rejection.
pub data Checked (A : Type 0) : Type 0 where
  good : A → Checked A
  bad : FacilitatorErrorCode → Checked A

-- `e.code as FacilitatorErrorCode`
abbrev pub relayer_code : RelayerSubmitErrorCode → FacilitatorErrorCode
relayer_code RelayerSubmitErrorCode.insufficient_funds_for_gas =
    FacilitatorErrorCode.insufficient_funds_for_gas
relayer_code RelayerSubmitErrorCode.onchain_revert = FacilitatorErrorCode.onchain_revert
relayer_code RelayerSubmitErrorCode.internal_error = FacilitatorErrorCode.internal_error

abbrev pub submit_code_of : ErrorClass → Option RelayerSubmitErrorCode
submit_code_of (relayer_submit code) = some code
submit_code_of class = none

-- The first `RelayerSubmitError` of the chain.
abbrev pub first_submit_code : ErrorChain → Option RelayerSubmitErrorCode
first_submit_code [] = none
first_submit_code (e ∷ causes) =
    let rest = first_submit_code causes in
    elim (submit_code_of e.class) [ none ↦ rest | some code ↦ some code ]

-- The chain from its first `BaseError` on.
abbrev pub from_base_error : ErrorChain → ErrorChain
from_base_error [] = []
from_base_error (e ∷ causes) =
    let rest = from_base_error causes in if is_base_error e then e ∷ causes else rest

abbrev pub is_reverted : ErrorLink → Bool
is_reverted e = elim e.class [ raw_contract ↦ true | contract_function_reverted ↦ true | _ ↦ false ]

abbrev pub viem_code : Libraries → ErrorChain → FacilitatorErrorCode
viem_code lib [] = FacilitatorErrorCode.internal_error
viem_code lib (e ∷ causes) =
    if lib.walk is_reverted (e ∷ causes)
    then FacilitatorErrorCode.onchain_revert
    else FacilitatorErrorCode.internal_error

unfoldable pub map_submit_error : Libraries → ErrorChain → FacilitatorErrorCode
map_submit_error lib chain = elim (first_submit_code chain) [
  | some code ↦ relayer_code code
  | none ↦ viem_code lib (from_base_error chain)
]

-- `hasViemCause` for a class, by its test.
abbrev has_viem_cause : Libraries → (ErrorLink → Bool) → ErrorChain → Bool
has_viem_cause lib test [] = false
has_viem_cause lib test (e ∷ causes) =
    if test e then true else if is_base_error e then lib.walk test (e ∷ causes) else false

abbrev pub is_insufficient_funds : ErrorLink → Bool
is_insufficient_funds e = elim e.class [ insufficient_funds ↦ true | _ ↦ false ]

abbrev is_execution_reverted : ErrorLink → Bool
is_execution_reverted e = elim e.class [ execution_reverted ↦ true | _ ↦ false ]

abbrev is_contract_function_reverted : ErrorLink → Bool
is_contract_function_reverted e = elim e.class [ contract_function_reverted ↦ true | _ ↦ false ]

abbrev is_raw_contract : ErrorLink → Bool
is_raw_contract e = elim e.class [ raw_contract ↦ true | _ ↦ false ]

unfoldable pub classify_viem_send_error : Libraries → ErrorChain → RelayerSubmitErrorCode
classify_viem_send_error lib chain =
    if has_viem_cause lib is_insufficient_funds chain
    then RelayerSubmitErrorCode.insufficient_funds_for_gas
    else if has_viem_cause lib is_execution_reverted chain
        || has_viem_cause lib is_contract_function_reverted chain
        || has_viem_cause lib is_raw_contract chain
    then RelayerSubmitErrorCode.onchain_revert
    else RelayerSubmitErrorCode.internal_error

abbrev is_other_chain : ℕ → Option ℕ → Bool
is_other_chain chain_id none = false
is_other_chain chain_id (some id) = not (id == chain_id)

-- The checks of `walletClientToWeb3LibAdapter`; whether an SDK is cached changes nothing, since the
-- clients keep their chains.
unfoldable pub create_facilitator_core_sdk :
    {W : Type 0} → FacilitatorConfig W → ℕ → Outcome (Unit {0})
create_facilitator_core_sdk config chain_id =
    if is_other_chain chain_id config.wallet_client.chain
    then thrown (error "walletClient.chain.id does not match adapter chainId")
    else if is_other_chain chain_id config.public_client.chain
    then thrown (error "publicClient.chain.id does not match adapter chainId")
    else returned tt

-- `extractExchangeId`: the id of the first event.
unfoldable pub extract_exchange_id : Receipt → Checked ℕ
extract_exchange_id receipt = elim receipt.buyer_committed [
  | [] ↦ bad event_not_found
  | first ∷ rest ↦ elim first [ none ↦ bad event_not_found | some id ↦ good id ]
]

module _ {W : Type 0} (config : FacilitatorConfig W) where
  -- A submission's hash, or the code of its error.
  abbrev pub hash_of : SubmitResult → Checked String
  hash_of (sent hash) = good hash
  hash_of (SubmitResult.failed e) = bad (map_submit_error config.libraries e)

  -- The wait for a receipt, and its status.
  abbrev pub receipt_of : Outcome Receipt → Checked Receipt
  receipt_of (thrown e) = bad FacilitatorErrorCode.internal_error
  receipt_of (returned receipt) =
      if receipt.success then good receipt else bad FacilitatorErrorCode.onchain_revert

  module _ (input : FacilitatorSettleInput) where
    -- `executeMetaTransaction` with the inner meta-transaction.
    abbrev pub submit_plain : Outcome (Unit {0}) → W → Checked String × W
    submit_plain (thrown e) w = (bad FacilitatorErrorCode.internal_error, w)
    submit_plain (returned _) w =
        let (result, w') =
          config.wallet_client.execute_meta_transaction input.payload.payload.buyer
            input.requirements.escrow_address input.payload.payload.meta_tx none w in
        (hash_of result, w')

    abbrev pub send_built : Outcome TxRequest → Option String → W → Checked String × W
    send_built (thrown e) account w = (bad FacilitatorErrorCode.internal_error, w)
    send_built (returned tx) none w = (bad FacilitatorErrorCode.internal_error, w)
    send_built (returned tx) (some account) w =
        let (result, w') = config.wallet_client.send_transaction account tx.to tx.calldata w in
        (hash_of result, w')

    -- Step 3: the envelope of the strategy.
    abbrev pub submit : ℕ → TokenAuthStrategy → Option BosonTokenAuth → W → Checked String × W
    submit chain_id TokenAuthStrategy.none auth =
        submit_plain (create_facilitator_core_sdk config chain_id)
    submit chain_id strategy auth =
        send_built
          (build_settle_calldata config.libraries input.requirements.escrow_address
            input.payload.payload.buyer input.payload.payload.meta_tx input.payload.payload.action
            strategy auth)
          config.wallet_client.account

    abbrev pub answer_settled : String → Checked Receipt → FacilitatorSettleResult
    answer_settled hash (bad code) = FacilitatorSettleResult.rejected code
    answer_settled hash (good receipt) = elim (extract_exchange_id receipt) [
      | bad code ↦ FacilitatorSettleResult.rejected code
      | good id ↦ settled (config.libraries.to_text id) hash
    ]

    -- Steps 4 and 5.
    abbrev pub after_submit : Checked String → W → FacilitatorSettleResult × W
    after_submit (bad code) w = (FacilitatorSettleResult.rejected code, w)
    after_submit (good hash) w =
        let (o, w') = config.public_client.wait_for_transaction_receipt hash w in
        (answer_settled hash (receipt_of o), w')

    abbrev pub settle_on : Option ℕ → W → FacilitatorSettleResult × W
    settle_on none w = (FacilitatorSettleResult.rejected network_mismatch, w)
    settle_on (some chain_id) w =
        let (hash, w') =
          submit chain_id input.payload.payload.token_auth_strategy input.payload.payload.token_auth
            w in
        after_submit hash w'

    abbrev pub after_verify : StepResult → W → FacilitatorSettleResult × W
    after_verify (StepResult.rejected code) w = (FacilitatorSettleResult.rejected code, w)
    after_verify ok w =
        if lacks_token_auth input.payload.payload.token_auth_strategy
          input.payload.payload.token_auth
        then (FacilitatorSettleResult.rejected invalid_payload, w)
        else settle_on (parse_chain_id input.network) w

    unfoldable pub settle : W → FacilitatorSettleResult × W
    unfolding map_submit_error create_facilitator_core_sdk extract_exchange_id build_settle_calldata
    settle w = let (v, w') = verify config input w in after_verify v w'
