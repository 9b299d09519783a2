-- ===== src/Server/Perform/Redeem.antt =====
-- `handleRedeem`.
use x402b.Prelude.{
  String, Option, none, some, Bool, false, not, List, [], ◌++◌, get, find?, includes, ◌==◌,
  string_eq, if◌then◌else◌,
}
use x402b.Json.{Fields}
use x402b.Machine.{ExchangeActionId}
use x402b.Effects.{Eff, Outcome, returned, thrown}
use x402b.Server.Payload.{Validation, valid, invalid}
use x402b.Server.State.{
  FulfillmentRecoveryEntry, HandlerContext, HandlerCode, HandlerResult, ok, err,
  RedeemFulfillmentChannel, ServerState, outside, delete_options, WarningCode,
}
use x402b.Server.Delivery.{Delivered, pending_entry, hand_over}
use x402b.Server.Perform.{PerformActionInput, PerformActionOk, handle_perform_action}

-- `input.fulfillment`
pub record Selection : Type 0 where
  pub option : String
  pub data_ : Option Fields

-- What the checks on the selection come to: a refusal, or the channel to hand over to, if any.
pub data Resolved (W : Type 0) : Type 0 where
  refused : HandlerCode → Resolved W
  unselected : Resolved W
  resolved : Selection → RedeemFulfillmentChannel W → Resolved W

-- The `try` around `channel.validate`.
abbrev pub resolve_validated :
    {W : Type 0} → Selection → RedeemFulfillmentChannel W → Outcome Validation → Resolved W
resolve_validated selection channel (thrown e) = refused HandlerCode.fulfillment_data_invalid
resolve_validated selection channel (returned (invalid reason)) =
    refused HandlerCode.fulfillment_data_invalid
resolve_validated selection channel (returned valid) = resolved selection channel

abbrev pub resolve_found :
    {W : Type 0} → Selection → Option (RedeemFulfillmentChannel W) → Resolved W
resolve_found selection none = refused HandlerCode.fulfillment_option_unknown
resolve_found selection (some channel) =
    resolve_validated selection channel (channel.validate selection.data_)

abbrev pub resolve_among :
    {W : Type 0} → Selection → Option (List (RedeemFulfillmentChannel W)) → Resolved W
resolve_among selection none = refused HandlerCode.fulfillment_channels_not_configured
resolve_among selection (some channels) =
    resolve_found selection (find? (λ c. c.id == selection.option) channels)

-- `advertisedOptions !== undefined && !advertisedOptions.includes(option)`
abbrev pub is_unadvertised : Option (List String) → String → Bool
is_unadvertised none option = false
is_unadvertised (some advertised) option = not (includes advertised option)

unfoldable pub resolve_selection :
    {W : Type 0}
    → Option (List (RedeemFulfillmentChannel W))
    → Option (List String)
    → Option Selection
    → Resolved W
resolve_selection channels advertised none = unselected
resolve_selection channels advertised (some selection) =
    if is_unadvertised advertised selection.option
    then refused HandlerCode.fulfillment_option_not_advertised
    else resolve_among selection channels

abbrev pub first_some : {A : Type 0} → Option A → Option A → Option A
first_some none b = b
first_some (some a) b = some a

abbrev pub with_delivery : Delivered → PerformActionOk → PerformActionOk
with_delivery d body = record body {
  warnings = body.warnings ++ d.warnings;
  fulfillment = first_some d.delivery body.fulfillment;
}

module _ {W : Type 0} (ctx : HandlerContext W) (input : PerformActionInput) where
  abbrev pub redeem_entry : String → Selection → ServerState W → FulfillmentRecoveryEntry
  redeem_entry redeemer selection s =
      pending_entry input.exchange_id selection.option selection.data_ redeemer (ctx.now s.outside)

  -- The hand-over, where a channel was resolved.
  unfoldable pub hand_over_resolved :
      String → Resolved W → ServerState W → Delivered × ServerState W
  unfolding hand_over
  hand_over_resolved redeemer (resolved selection channel) s =
      hand_over ctx.now ctx.base64 channel input.exchange_id WarningCode.fulfillment_update_deferred
        (redeem_entry redeemer selection s) s
  hand_over_resolved redeemer _ s = (record { warnings = []; delivery = none }, s)

  unfoldable pub after_redeem :
      String
      → Resolved W
      → Outcome (HandlerResult PerformActionOk)
      → ServerState W
      → Outcome (HandlerResult PerformActionOk) × ServerState W
  unfolding hand_over_resolved delete_options
  after_redeem redeemer target (thrown e) s = (thrown e, s)
  after_redeem redeemer target (returned (err status code)) s = (returned (err status code), s)
  after_redeem redeemer target (returned (ok body)) s =
      let (d, s') = hand_over_resolved redeemer target s in
      (returned (ok (with_delivery d body)), delete_options input.exchange_id s')

  unfoldable pub redeem_resolved :
      String → Resolved W → Eff (ServerState W) (HandlerResult PerformActionOk)
  unfolding after_redeem handle_perform_action outside
  redeem_resolved redeemer (refused code) s = (returned (err 400 code), s)
  redeem_resolved redeemer target s =
      let (o, s') = outside (handle_perform_action ctx ExchangeActionId.redeem input) s in
      after_redeem redeemer target o s'

  unfoldable pub redeem_signed :
      Option Selection → Outcome String → Eff (ServerState W) (HandlerResult PerformActionOk)
  unfolding redeem_resolved resolve_selection
  redeem_signed fulfillment (thrown e) s =
      (returned (err 400 HandlerCode.signed_payload_decode_failed), s)
  redeem_signed fulfillment (returned redeemer) s =
      redeem_resolved redeemer
        (resolve_selection ctx.config.fulfillment_channels (get s.options input.exchange_id)
          fulfillment)
        s

  unfoldable pub handle_redeem :
      Option Selection → Eff (ServerState W) (HandlerResult PerformActionOk)
  unfolding redeem_signed
  handle_redeem fulfillment = redeem_signed fulfillment (ctx.signer_of_payload input.signed_payload)
