-- ===== src/Server/Delivery/Tests.antt =====
-- Hand-overs that succeed and that fail.
use x402b.Prelude.{suc, ℕ, String, Option, none, some, List, [], ◌∷◌, ◌≡◌, refl, get}
use x402b.Effects.{error, returned, thrown}
use x402b.Server.Payload.{valid}
use x402b.Server.State.{
  FulfillmentResult, SerializedFulfillmentResult, RedeemFulfillmentChannel, Phase,
  FulfillmentRecoveryEntry, ServerState, WarningCode, fulfillment_update_deferred,
}
use x402b.Server.Delivery.{pending_entry, deferred, hand_over}

-- The world counts the calls of a channel, which is also the time.
abbrev mail : RedeemFulfillmentChannel ℕ
mail = record {
  id = "mail";
  validate = λ data_. returned valid;
  on_commit = λ exchange_id data_ n. (returned tt, suc n);
  on_fulfill = some (λ exchange_id n. (returned (FulfillmentResult.async (some "sent")), suc n));
}

abbrev broken_mail : RedeemFulfillmentChannel ℕ
broken_mail = record mail {
  on_fulfill = some (λ exchange_id n. (thrown (error "no route"), suc n));
}

abbrev start : ServerState ℕ
start = record { outside = 7; recovery = []; options = [] }

abbrev entry : FulfillmentRecoveryEntry
entry = pending_entry "12" "mail" none "0xB1" 7

handed_over :
    (hand_over (λ n. n) (λ bytes. "") mail "12" fulfillment_update_deferred entry start ≡ (
      record { warnings = []; delivery = some (SerializedFulfillmentResult.async (some "sent")) },
      record { outside = 9; recovery = []; options = [] },
    ))
    × (hand_over (λ n. n) (λ bytes. "") broken_mail "12" fulfillment_update_deferred entry start ≡ (
      deferred WarningCode.fulfillment_delivery_deferred "no route",
      record {
        outside = 9;
        recovery =
            (
              "12",
              record entry { phase = Phase.delivery; recorded_at = 8; error = some "no route" },
            )
            ∷ [];
        options = [];
      },
    ))
unfolding hand_over x402b.Server.State.outside x402b.Server.State.serialize_fulfillment_result
    x402b.Server.State.delete_recovery x402b.Prelude.remove x402b.Server.State.set_recovery
    x402b.Prelude.put
handed_over = (refl, refl)
