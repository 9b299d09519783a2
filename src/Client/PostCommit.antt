-- ===== src/Client/PostCommit.antt =====
-- post-commit.ts, and signAction and submitAction of client.ts: the buyer's actions after a
-- commitment. core-sdk's signatures and the encoding of the signed payload are parameters.
pub mod Relayed
pub mod Submitted
mod Tests
use x402b.Prelude.{ℕ, String, List, Option, none, some, ◌==◌, string_eq, find?}
use x402b.Json.{Json}
use x402b.Wire.{BosonMetaTx, NextAction}
use x402b.Machine.{ExchangeActionId, on_exchange, action_name}
use x402b.Effects.{Eff, returned, pure, throw, error, ◌>>=◌}
use x402b.Client.{SignedMetaTx, FulfillmentConfig, parse_chain_id}
use x402b.Client.Payment.{lift}
use x402b.Client.Signed.{BigNumberish, string_of, meta_tx_of}
use x402b.Client.Submit.{SubmitArgs, SubmitResult, SubmitReply, States, submit_action}

pub data CounterpartySig : Type 0 where
  hex : String → CounterpartySig
  rsv : (r s : String) → (v : ℕ) → CounterpartySig

-- `actionId`, with the arguments of the proposal that resolves a dispute.
pub data BuyerAction : Type 0 where
  redeem cancel_voucher complete_exchange raise_dispute : BuyerAction
  retract_dispute escalate_dispute : BuyerAction
  resolve_dispute : (buyer_percent : BigNumberish) → CounterpartySig → BuyerAction

abbrev pub action_id : BuyerAction → ExchangeActionId
action_id redeem = ExchangeActionId.redeem
action_id cancel_voucher = ExchangeActionId.cancel_voucher
action_id complete_exchange = ExchangeActionId.complete_exchange
action_id raise_dispute = ExchangeActionId.raise_dispute
action_id retract_dispute = ExchangeActionId.retract_dispute
action_id escalate_dispute = ExchangeActionId.escalate_dispute
action_id (resolve_dispute buyer_percent counterparty_sig) = ExchangeActionId.resolve_dispute

pub record SignActionArgs : Type 0 where
  pub action : BuyerAction
  pub exchange_id : BigNumberish
  pub network : String
  pub escrow_address : String

pub record SignedPostCommitAction : Type 0 where
  pub meta_tx : BosonMetaTx
  pub signed_payload : String

-- The methods of core-sdk, from a nonce and an exchange.
pub record ActionCoreSdk (W : Type 0) : Type 0 where
  pub sign_redeem_voucher : String → BigNumberish → Eff W SignedMetaTx
  pub sign_cancel_voucher : String → BigNumberish → Eff W SignedMetaTx
  pub sign_complete_exchange : String → BigNumberish → Eff W SignedMetaTx
  pub sign_raise_dispute : String → BigNumberish → Eff W SignedMetaTx
  pub sign_retract_dispute : String → BigNumberish → Eff W SignedMetaTx
  pub sign_escalate_dispute : String → BigNumberish → Eff W SignedMetaTx
  pub sign_resolve_dispute :
      String → BigNumberish → (buyer_percent : BigNumberish) → CounterpartySig → Eff W SignedMetaTx

pub record SignPostCommitActionDeps (W : Type 0) : Type 0 where
  pub core_sdk : (escrow : String) → (chain_id : ℕ) → ActionCoreSdk W
  pub get_address : Eff W String
  pub random_uint256 : W → ℕ × W
  pub to_text : ℕ → String  -- `n.toString()`
  pub encode_signed_payload : BosonMetaTx → String

unfoldable pub call_sign_meta_tx :
    {W : Type 0} → ActionCoreSdk W → BuyerAction → BigNumberish → String → Eff W SignedMetaTx
call_sign_meta_tx core_sdk redeem id nonce = core_sdk.sign_redeem_voucher nonce id
call_sign_meta_tx core_sdk cancel_voucher id nonce = core_sdk.sign_cancel_voucher nonce id
call_sign_meta_tx core_sdk complete_exchange id nonce = core_sdk.sign_complete_exchange nonce id
call_sign_meta_tx core_sdk raise_dispute id nonce = core_sdk.sign_raise_dispute nonce id
call_sign_meta_tx core_sdk retract_dispute id nonce = core_sdk.sign_retract_dispute nonce id
call_sign_meta_tx core_sdk escalate_dispute id nonce = core_sdk.sign_escalate_dispute nonce id
call_sign_meta_tx core_sdk (resolve_dispute buyer_percent counterparty_sig) id nonce =
    core_sdk.sign_resolve_dispute nonce id buyer_percent counterparty_sig

module _ {W : Type 0} (deps : SignPostCommitActionDeps W) where
  abbrev pub signed_action : BosonMetaTx → SignedPostCommitAction
  signed_action m = record { meta_tx = m; signed_payload = deps.encode_signed_payload m }

  abbrev pub envelope : String → ℕ → SignedMetaTx → Eff W SignedPostCommitAction
  envelope buyer nonce signed = pure (signed_action (meta_tx_of deps.to_text buyer nonce signed))

  abbrev pub sign_with : SignActionArgs → ℕ → String → ℕ → Eff W SignedPostCommitAction
  sign_with args nonce buyer chain_id =
      call_sign_meta_tx (deps.core_sdk args.escrow_address chain_id) args.action args.exchange_id
        (deps.to_text nonce)
      >>= envelope buyer nonce

  unfoldable pub sign_post_commit_action : SignActionArgs → Eff W SignedPostCommitAction
  unfolding call_sign_meta_tx parse_chain_id
  sign_post_commit_action args w =
      let (nonce, w') = deps.random_uint256 w in
      (deps.get_address >>= λ buyer.
      lift (parse_chain_id args.network) >>= sign_with args nonce buyer)
        w'

  module _ (states : States) (post : (endpoint : String) → Json → W → SubmitReply × W)
      (args : SignActionArgs) (next : List NextAction)
      (fulfillment : Option FulfillmentConfig) where
    abbrev pub submit_args : NextAction → SignedPostCommitAction → SubmitArgs
    submit_args action signed = record {
      action = action;
      signed_payload = signed.signed_payload;
      exchange_id = string_of deps.to_text args.exchange_id;
      network = args.network;
      escrow_address = args.escrow_address;
      fulfillment = fulfillment;
    }

    abbrev pub inner : SubmitArgs → Eff W SubmitResult
    inner submitted w = let (r, w') = submit_action states post submitted w in (returned r, w')

    abbrev pub submit_entry : SignedPostCommitAction → Option NextAction → Eff W SubmitResult
    submit_entry signed none = throw (error "Error")
    submit_entry signed (some action) = inner (submit_args action signed)

    abbrev pub submit_found : SignedPostCommitAction → Eff W SubmitResult
    submit_found signed =
        submit_entry signed
          (find? (λ entry. entry.id == action_name (on_exchange (action_id args.action))) next)

    -- `submitAction` of the client.
    unfoldable pub sign_and_submit_action : Eff W SubmitResult
    unfolding sign_post_commit_action submit_action
    sign_and_submit_action = sign_post_commit_action args >>= submit_found
