-- ===== src/Server/Perform/Tests.antt =====
-- A redeem that is answered 200 and ones that are refused, and the theorems there.
use x402b.Prelude.{ℕ, zero, suc, String, Option, none, some, List, [], ◌∷◌, ◌≡◌, refl}
use x402b.Json.{end}
use x402b.Machine.{ExchangeActionId, ExchangeState, PlainState}
use x402b.Wire.{EnvelopeState, EscrowNextActions, ActionChannel}
use x402b.Actions.{ChannelRegistry}
use x402b.Effects.{Outcome, error, returned, thrown}
use x402b.Facilitator.{exchange_ok, settled}
use x402b.Server.Exchange.{ExchangeSnapshot}
use x402b.Server.Payload.{valid, invalid}
use x402b.Server.State.{
  FulfillmentResult, RedeemFulfillmentChannel, HandlerContext, HandlerResult, ok, err, HandlerCode,
  ServerState,
}
use x402b.Server.Perform.{PerformActionInput, PerformActionOk, handle_perform_action}
use x402b.Server.Perform.Confirmed.{Confirmed, handle_perform_action-Confirmed}
use x402b.Server.Perform.Redeem.{Selection, handle_redeem}
use x402b.Server.Perform.Refused.{Untouched, handle_redeem-Untouched}
use x402b.Server.Perform.Redeemed.{Redeemed, handle_redeem-Redeemed}

-- The world counts the facilitator's transactions; the first one redeems.
abbrev state_at : ℕ → ExchangeState
state_at zero = ExchangeState.committed
state_at (suc n) = ExchangeState.redeemed

abbrev snapshot_at : ℕ → ExchangeSnapshot
snapshot_at n = record {
  state = state_at n;
  dispute_state = none;
  seller = "0x5E";
  exchange_token = "0xA5";
  price = "100";
}

abbrev mail : RedeemFulfillmentChannel ℕ
mail = record {
  id = "mail";
  validate = λ d. elim d [ none ↦ returned (invalid "no address") | some fields ↦ returned valid ];
  on_commit = λ exchange_id d n. (returned tt, n);
  on_fulfill = some (λ exchange_id n. (returned (FulfillmentResult.async none), n));
}

abbrev shop : HandlerContext ℕ
shop = record {
  config = record {
    network = "eip155:1";
    chain_id = 1;
    escrow = "0xD1";
    facilitator_url = "https://f";
    channel_registry = record {
      channels = ActionChannel.facilitator ∷ [];
      endpoints = [];
      xmtp = none;
      mcp = none;
      escrow = "0xD1";
    };
    fulfillment_channels = some (mail ∷ []);
  };
  facilitator = record {
    settle = λ input n. (returned (settled "12" "0x77"), suc n);
    perform_action = λ input n. (returned (exchange_ok "0x77" ExchangeState.redeemed none), suc n);
  };
  exchange_reader = record {
    read = λ exchange_id n. (returned (some (snapshot_at n)), n);
    delay = λ ms n. n;
  };
  chain = record {
    build_calldata = λ action fields. thrown (error "not here");
    recover_signer = λ chain_id contract meta_tx signature. thrown (error "not here");
  };
  now = λ n. n;
  now_seconds = λ n. n;
  base64 = λ bytes. "";
  signer_of_payload = λ payload. returned "0xB1";
}

abbrev voucher : PerformActionInput
voucher = record { exchange_id = "12"; signed_payload = "0x00" }

abbrev start : ServerState ℕ
start = record { outside = 0; recovery = []; options = ("12", "mail" ∷ []) ∷ [] }

abbrev by_mail : Selection
by_mail = record { option = "mail"; data_ = some end }

abbrev nothing : EscrowNextActions
nothing = record {
  exchange_id = "";
  state = EnvelopeState.plain PlainState.committed;
  next = [];
  fallback = none;
}

-- The body of an answer 200.
abbrev answered : Outcome (HandlerResult PerformActionOk) → PerformActionOk
answered (returned (ok body)) = body
answered _ = record { tx_hash = ""; next_actions = nothing; warnings = []; fulfillment = none }

performed :
    handle_perform_action shop ExchangeActionId.redeem voucher 0
    ≡ (returned (ok (answered (handle_perform_action shop ExchangeActionId.redeem voucher 0).0)), 1)
unfolding handle_perform_action x402b.Server.Exchange.is_retryable_verify_result
    x402b.Server.Exchange.verify_exchange_snapshot x402b.Prelude.same_text
    x402b.Actions.derive_next_actions x402b.Machine.client_legal_actions x402b.Actions.build_entry
    x402b.Actions.channels_for
performed = refl

handle_perform_action-Confirmed_example :
    Confirmed shop ExchangeActionId.redeem voucher 0
      (answered (handle_perform_action shop ExchangeActionId.redeem voucher 0).0)
      1
handle_perform_action-Confirmed_example =
    handle_perform_action-Confirmed shop ExchangeActionId.redeem voucher 0 1
      (answered (handle_perform_action shop ExchangeActionId.redeem voucher 0).0) performed

redeemed : handle_redeem shop voucher (some by_mail) start ≡ (
  returned (ok (answered (handle_redeem shop voucher (some by_mail) start).0)),
  record { outside = 1; recovery = []; options = [] },
)
unfolding handle_redeem x402b.Server.Exchange.is_retryable_verify_result
    x402b.Server.Exchange.verify_exchange_snapshot x402b.Prelude.same_text
    x402b.Actions.derive_next_actions x402b.Machine.client_legal_actions x402b.Actions.build_entry
    x402b.Actions.channels_for x402b.Server.State.delete_recovery x402b.Prelude.remove
    x402b.Server.State.set_recovery x402b.Prelude.put
redeemed = refl

handle_redeem-Redeemed_example :
    Redeemed shop voucher by_mail start
      (answered (handle_redeem shop voucher (some by_mail) start).0)
      (record { outside = 1; recovery = []; options = [] })
handle_redeem-Redeemed_example =
    handle_redeem-Redeemed shop voucher by_mail start
      (record { outside = 1; recovery = []; options = [] })
      (answered (handle_redeem shop voucher (some by_mail) start).0) redeemed

refused_redeems :
    (handle_redeem shop voucher (some (record { option = "mail"; data_ = none })) start
      ≡ (returned (err 400 HandlerCode.fulfillment_data_invalid), start))
    × (handle_redeem shop voucher (some (record { option = "fax"; data_ = none })) start
        ≡ (returned (err 400 HandlerCode.fulfillment_option_not_advertised), start))
unfolding handle_redeem x402b.Server.Exchange.is_retryable_verify_result
    x402b.Server.Exchange.verify_exchange_snapshot x402b.Prelude.same_text
    x402b.Actions.derive_next_actions x402b.Machine.client_legal_actions x402b.Actions.build_entry
    x402b.Actions.channels_for
refused_redeems = (refl, refl)

handle_redeem-Untouched_example : Untouched 400 start start
handle_redeem-Untouched_example =
    handle_redeem-Untouched shop voucher (some (record { option = "fax"; data_ = none })) start
      start 400 HandlerCode.fulfillment_option_not_advertised refused_redeems.1
