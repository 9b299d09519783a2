-- ===== src/Server/Delivery.antt =====
-- What the redeem and the atomic commit handlers do once the exchange is redeemed: the hand-over of
-- the delivery data to the channel, the dispatch of the delivery, and the recovery entries that they
-- leave where either fails.
pub mod Kept
pub mod Owed
mod Tests
use x402b.Prelude.{ℕ, String, Option, none, some, List, [], ◌∷◌, string_eq}
use x402b.Json.{Fields}
use x402b.Effects.{Eff, Outcome, returned, thrown, error_message}
use x402b.Server.State.{
  FulfillmentResult, SerializedFulfillmentResult, serialize_fulfillment_result,
  RedeemFulfillmentChannel, Phase, FulfillmentRecoveryEntry, ServerState, outside, set_recovery,
  delete_recovery, WarningCode, HandlerWarning,
}

-- What the hand-over adds to the answer.
pub record Delivered : Type 0 where
  pub warnings : List HandlerWarning
  pub delivery : Option SerializedFulfillmentResult

abbrev pub deferred : WarningCode → String → Delivered
deferred code reason = record {
  warnings = (record { code = code; error = reason }) ∷ [];
  delivery = none;
}

module _ {W : Type 0} (now : W → ℕ) (base64 : List ℕ → String)
    (channel : RedeemFulfillmentChannel W) where
  module _ (exchange_id : String) where
    -- The end of `onFulfill`.
    unfoldable pub after_fulfill :
        FulfillmentRecoveryEntry
        → Outcome FulfillmentResult
        → ServerState W
        → Delivered × ServerState W
    after_fulfill pending (returned result) s = (
      record { warnings = []; delivery = some (serialize_fulfillment_result base64 result) },
      delete_recovery exchange_id s,
    )
    after_fulfill pending (thrown e) s = (
      deferred WarningCode.fulfillment_delivery_deferred (error_message e),
      set_recovery exchange_id (record pending { error = some (error_message e) }) s,
    )

    -- The dispatch of the delivery, where the channel has one.
    unfoldable pub dispatch :
        Option (String → Eff W FulfillmentResult)
        → FulfillmentRecoveryEntry
        → ServerState W
        → Delivered × ServerState W
    unfolding after_fulfill
    dispatch none pending s =
        (record { warnings = []; delivery = none }, delete_recovery exchange_id s)
    dispatch (some on_fulfill) pending s =
        let delivery_pending = record pending {
          phase = Phase.delivery;
          recorded_at = now s.outside;
        } in
        let (o, s') =
          outside (on_fulfill exchange_id) (set_recovery exchange_id delivery_pending s) in
        after_fulfill delivery_pending o s'

    -- The end of `onCommit`; `code` is the handler's warning.
    unfoldable pub after_commit :
        WarningCode
        → FulfillmentRecoveryEntry
        → Outcome (Unit {0})
        → ServerState W
        → Delivered × ServerState W
    unfolding dispatch
    after_commit code pending (returned u) s = dispatch channel.on_fulfill pending s
    after_commit code pending (thrown e) s = (
      deferred code (error_message e),
      set_recovery exchange_id (record pending { error = some (error_message e) }) s,
    )

    unfoldable pub hand_over :
        WarningCode → FulfillmentRecoveryEntry → ServerState W → Delivered × ServerState W
    unfolding after_commit
    hand_over code pending s =
        let (o, s') =
          outside (channel.on_commit exchange_id pending.data_)
            (set_recovery exchange_id pending s) in
        after_commit code pending o s'

abbrev pub pending_entry : String → String → Option Fields → String → ℕ → FulfillmentRecoveryEntry
pending_entry exchange_id option data_ redeemer now = record {
  exchange_id = exchange_id;
  option = option;
  data_ = data_;
  redeemer = redeemer;
  recorded_at = now;
  phase = Phase.commit;
  error = none;
}
