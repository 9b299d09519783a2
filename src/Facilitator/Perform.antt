-- ===== src/Facilitator/Perform.antt =====
-- perform-action/index.ts and perform-action/new-state.ts: `performAction`, which relays a signed
-- post-commit action.
pub mod Checks
pub mod Performed
mod Tests
use x402b.Prelude.{
  ◌&&◌, ℕ, String, List, [], ◌∷◌, Option, none, some, Bool, true, false, not, ◌||◌, ◌!=◌, is_some,
  includes, get, string_eq, same_text, ◌==◌, if◌then◌else◌,
}
use x402b.Machine.{
  ActionId, on_exchange, withdraw_funds, ExchangeActionId, action_post_state, action_name,
  is_entity_keyed_action,
}
use x402b.Wire.{BosonMetaTx, TokenAuthStrategy, strategy_eq, BosonTokenAuth, kind}
use x402b.Effects.{error, Eff, Outcome, returned, thrown}
use x402b.Facilitator.{
  FacilitatorErrorCode, network_mismatch, invalid_payload, bad_meta_tx_signature,
  FacilitatorPerformActionInput, FacilitatorPerformActionResult, exchange_ok, entity_ok, StepResult,
  ok, rejected,
}
use x402b.Facilitator.Config.{
  FacilitatorConfig, TransferAuthorization, reject_if, ◌followed_by◌, after_step, ◌then_step◌,
  caught, Receipt, to_result,
}
use x402b.Facilitator.Structural.{parse_chain_id}
use x402b.Facilitator.MetaTx.{
  RecoverMetaTxSignerResult, signer, unrecovered, recover_action_meta_tx_signer,
}
use x402b.Facilitator.TokenAuth.{verify_token_auth_signature, VerifyTokenAuthSignatureArgs}
use x402b.Facilitator.Envelope.{
  simulate_execute_meta_transaction, boson_token_auth_to_transfer_authorization,
}
use x402b.Facilitator.Verify.{allowlisted}
use x402b.Facilitator.Settle.{
  Checked, good, bad, hash_of, receipt_of, create_facilitator_core_sdk, map_submit_error,
}
use x402b.Facilitator.Calldata.{
  validate_perform_exchange_action_meta_tx, validate_perform_entity_action_meta_tx,
}

-- `input.tokenAuthStrategy ?? "none"`
abbrev pub strategy_of : Option TokenAuthStrategy → TokenAuthStrategy
strategy_of none = TokenAuthStrategy.none
strategy_of (some strategy) = strategy

-- What a token authorisation comes with, if all of it is there.
pub record TokenTerms : Type 0 where
  pub auth : BosonTokenAuth
  pub asset : String
  pub amount : String
  pub max_timeout_seconds : ℕ

abbrev pub terms_of :
    Option BosonTokenAuth → Option String → Option String → Option ℕ → Option TokenTerms
terms_of (some auth) (some asset) (some amount) (some timeout) =
    some (record { auth = auth; asset = asset; amount = amount; max_timeout_seconds = timeout })
terms_of _ _ _ _ = none

abbrev pub match_terms : TokenAuthStrategy → Option TokenTerms → StepResult
match_terms strategy none = rejected invalid_payload
match_terms strategy (some terms) = reject_if (kind terms.auth != strategy) invalid_payload

module _ (input : FacilitatorPerformActionInput) where
  abbrev pub terms : Option TokenTerms
  terms = terms_of input.token_auth input.asset input.amount input.max_timeout_seconds

  -- Under the strategy none, nothing of it is there.
  abbrev pub has_any_term : Bool
  has_any_term =
      is_some input.token_auth
      || is_some input.asset
      || is_some input.amount
      || is_some input.max_timeout_seconds

  abbrev pub check_fields : TokenAuthStrategy → StepResult
  check_fields TokenAuthStrategy.none = reject_if has_any_term invalid_payload
  check_fields strategy = match_terms strategy terms

  abbrev pub is_entity_keyed : Bool
  is_entity_keyed = is_entity_keyed_action (action_name input.action)

  -- Step 4: the strategy, with what it needs or forbids.
  unfoldable pub check_token_auth_shape : StepResult
  unfolding is_entity_keyed_action
  check_token_auth_shape =
      reject_if
        (is_entity_keyed && (strategy_of input.token_auth_strategy != TokenAuthStrategy.none))
        invalid_payload
      followed_by check_fields (strategy_of input.token_auth_strategy)

module _ {W : Type 0} (config : FacilitatorConfig W) (input : FacilitatorPerformActionInput) where
  -- Step 3, by the kind of the action.
  abbrev pub check_calldata : ActionId → BosonMetaTx → StepResult
  check_calldata action m =
      if is_entity_keyed_action (action_name action)
      then validate_perform_entity_action_meta_tx config.libraries action input.key m
      else validate_perform_exchange_action_meta_tx config.libraries action input.key m

  -- Steps 2 to 4.
  unfoldable pub check_request : BosonMetaTx → StepResult
  unfolding check_token_auth_shape
  check_request m =
      reject_if (not (includes config.supported_networks input.network)) network_mismatch
      followed_by check_calldata input.action m
      followed_by check_token_auth_shape input

  -- Step 7: the signer against `metaTx.from`.
  abbrev pub check_signer : BosonMetaTx → Outcome RecoverMetaTxSignerResult → Outcome StepResult
  check_signer m (thrown e) = thrown e
  check_signer m (returned unrecovered) = returned (rejected bad_meta_tx_signature)
  check_signer m (returned (signer recovered)) =
      returned (reject_if (not (same_text recovered m.from)) bad_meta_tx_signature)

  abbrev pub verify_terms : ℕ → String → BosonMetaTx → Option TokenTerms → Eff W StepResult
  verify_terms chain_id escrow m none w = (thrown (error "tokenAuth is undefined"), w)
  verify_terms chain_id escrow m (some t) w =
      verify_token_auth_signature config.libraries config.public_client
        (record {
          chain_id = chain_id;
          asset = t.asset;
          amount = t.amount;
          max_timeout_seconds = t.max_timeout_seconds;
          buyer = m.from;
          escrow_address = escrow;
        })
        t.auth w

  -- Step 7b.
  abbrev pub check_token_auth : ℕ → String → BosonMetaTx → TokenAuthStrategy → Eff W StepResult
  check_token_auth chain_id escrow m TokenAuthStrategy.none w = (returned ok, w)
  check_token_auth chain_id escrow m strategy w = verify_terms chain_id escrow m (terms input) w

  abbrev pub check_meta_tx : ℕ → String → BosonMetaTx → Eff W StepResult
  check_meta_tx chain_id escrow m w = (
    check_signer m (recover_action_meta_tx_signer config.libraries chain_id escrow m input.action),
    w,
  )

  abbrev pub check_action_auth : ℕ → String → BosonMetaTx → Eff W StepResult
  check_action_auth chain_id escrow m =
      check_token_auth chain_id escrow m (strategy_of input.token_auth_strategy)

  abbrev pub simulate : String → String → BosonMetaTx → Eff W StepResult
  simulate relayer escrow m =
      simulate_execute_meta_transaction config.libraries config.public_client relayer escrow m.from
        m (action_name input.action) (strategy_of input.token_auth_strategy) input.token_auth

  -- Steps 7 and 8, at the canonical escrow.
  unfoldable pub check_at : ℕ → String → String → BosonMetaTx → Eff W StepResult
  unfolding recover_action_meta_tx_signer verify_token_auth_signature
      simulate_execute_meta_transaction
  check_at chain_id relayer escrow m =
      check_meta_tx chain_id escrow m
      then_step check_action_auth chain_id escrow m
      then_step simulate relayer escrow m

  -- `transferAuthorizations`
  abbrev pub lift_one :
      Outcome TransferAuthorization → Outcome (Option (List TransferAuthorization))
  lift_one (thrown e) = thrown e
  lift_one (returned t) = returned (some (t ∷ []))

  abbrev pub transfer_authorizations :
      TokenAuthStrategy → Option BosonTokenAuth → Outcome (Option (List TransferAuthorization))
  transfer_authorizations TokenAuthStrategy.none auth = returned none
  transfer_authorizations strategy none = thrown (error "tokenAuth is undefined")
  transfer_authorizations strategy (some auth) =
      lift_one (boson_token_auth_to_transfer_authorization auth)

  -- Step 10.
  unfoldable pub derive_new_state : ActionId → String → FacilitatorPerformActionResult
  unfolding action_post_state
  derive_new_state withdraw_funds hash = entity_ok hash
  derive_new_state (on_exchange action) hash =
      exchange_ok hash (action_post_state action).exchange (action_post_state action).dispute

  abbrev pub answer_performed : String → Checked Receipt → FacilitatorPerformActionResult
  answer_performed hash (bad code) = FacilitatorPerformActionResult.rejected code
  answer_performed hash (good receipt) = derive_new_state input.action hash

  abbrev pub after_submit : Checked String → W → FacilitatorPerformActionResult × W
  after_submit (bad code) w = (FacilitatorPerformActionResult.rejected code, w)
  after_submit (good hash) w =
      let (o, w') = config.public_client.wait_for_transaction_receipt hash w in
      (answer_performed hash (receipt_of config o), w')

  -- Step 9.
  abbrev pub submit_lifted :
      String
      → BosonMetaTx
      → Outcome (Option (List TransferAuthorization))
      → W
      → FacilitatorPerformActionResult × W
  submit_lifted escrow m (thrown e) w =
      (FacilitatorPerformActionResult.rejected FacilitatorErrorCode.internal_error, w)
  submit_lifted escrow m (returned authorizations) w =
      let (result, w') =
        config.wallet_client.execute_meta_transaction m.from escrow m authorizations w in
      after_submit (hash_of config result) w'

  abbrev pub submit :
      String → BosonMetaTx → Outcome (Unit {0}) → W → FacilitatorPerformActionResult × W
  submit escrow m (thrown e) w =
      (FacilitatorPerformActionResult.rejected FacilitatorErrorCode.internal_error, w)
  submit escrow m (returned _) w =
      submit_lifted escrow m
        (transfer_authorizations (strategy_of input.token_auth_strategy) input.token_auth) w

  abbrev pub after_checks :
      ℕ → String → BosonMetaTx → StepResult → W → FacilitatorPerformActionResult × W
  after_checks chain_id escrow m (rejected code) w =
      (FacilitatorPerformActionResult.rejected code, w)
  after_checks chain_id escrow m ok w =
      submit escrow m (create_facilitator_core_sdk config chain_id) w

  abbrev pub with_relayer :
      ℕ → String → BosonMetaTx → Option String → W → FacilitatorPerformActionResult × W
  with_relayer chain_id escrow m none w =
      (FacilitatorPerformActionResult.rejected FacilitatorErrorCode.internal_error, w)
  with_relayer chain_id escrow m (some relayer) w =
      let (o, w') = check_at chain_id relayer escrow m w in
      after_checks chain_id escrow m (caught o) w'

  abbrev pub with_chain : String → BosonMetaTx → Option ℕ → W → FacilitatorPerformActionResult × W
  with_chain escrow m none w = (FacilitatorPerformActionResult.rejected network_mismatch, w)
  with_chain escrow m (some chain_id) w =
      with_relayer chain_id escrow m config.wallet_client.account w

  -- Step 5, with the steps after it.
  abbrev pub with_escrow : BosonMetaTx → Option String → W → FacilitatorPerformActionResult × W
  with_escrow m none w = (FacilitatorPerformActionResult.rejected network_mismatch, w)
  with_escrow m (some escrow) w =
      if same_text input.escrow_address escrow
      then with_chain escrow m (parse_chain_id input.network) w
      else (FacilitatorPerformActionResult.rejected invalid_payload, w)

  abbrev pub with_request : BosonMetaTx → StepResult → W → FacilitatorPerformActionResult × W
  with_request m (rejected code) w = (FacilitatorPerformActionResult.rejected code, w)
  with_request m ok w = with_escrow m (allowlisted config input.network) w

  abbrev pub with_meta_tx : Outcome BosonMetaTx → W → FacilitatorPerformActionResult × W
  with_meta_tx (thrown e) w = (FacilitatorPerformActionResult.rejected invalid_payload, w)
  with_meta_tx (returned m) w = with_request m (check_request m) w

  unfoldable pub perform_action : W → FacilitatorPerformActionResult × W
  unfolding check_request check_at map_submit_error create_facilitator_core_sdk
      boson_token_auth_to_transfer_authorization parse_chain_id
  perform_action w = with_meta_tx (config.libraries.decode_signed_payload input.signed_payload) w
