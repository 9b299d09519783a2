-- ===== src/Server/Perform/Redeemed.antt =====
-- What a redeem that is answered 200 leaves behind.
use x402b.Server.Payload.{Validation, valid, invalid}
use mathlib.Core.Path.{subst}
use x402b.Prelude.{
  ◌∷◌, Memᴰ, All, Bool-cases, inl, inr, includes, includes_iff_left, not, ne_of_beq-false, arith,
  find?, ◌==◌, string_eq, Bool, true, false, if◌then◌else◌, String, Option, none, some, ◌≡◌, ◌≢◌,
  refl, ap, sym, ◌∙◌, List, [], ◌++◌, get, remove,
}
use x402b.Machine.{ExchangeActionId}
use x402b.Effects.{Outcome, returned, thrown}
use x402b.Server.State.{
  HandlerContext, HandlerResult, ok, err, HandlerCode, ServerState, outside, delete_options,
  RedeemFulfillmentChannel, WarningCode,
}
use x402b.Server.Delivery.{Delivered, pending_entry, hand_over}
use x402b.Server.Delivery.Owed.{Settled, hand_over_lem}
use x402b.Server.Perform.{PerformActionInput, PerformActionOk, handle_perform_action}
use x402b.Server.Perform.Confirmed.{Confirmed, handle_perform_action-Confirmed}
use x402b.Server.Perform.Redeem.{
  Selection, Resolved, refused, unselected, resolved, resolve_validated, resolve_found,
  resolve_among, is_unadvertised, resolve_selection, after_redeem, redeem_resolved, redeem_signed,
  handle_redeem, hand_over_resolved, redeem_entry, with_delivery, first_some,
}

first_some-none : {A : Type 0} (a : Option A) → first_some a none ≡ a
first_some-none none = refl
first_some-none (some a) = refl

with_delivery-plain :
    (d : Delivered) (base : PerformActionOk)
    → base.warnings ≡ []
    → base.fulfillment ≡ none
    → ◌≡◌ {A = Delivered}
        (record {
          warnings = (with_delivery d base).warnings;
          delivery = (with_delivery d base).fulfillment;
        })
        d
with_delivery-plain d base p q = λ i. record {
  warnings = p i ++ d.warnings;
  delivery = (ap (first_some d.delivery) q ∙ first_some-none d.delivery) i;
}

-- The option is one of those that were advertised for the exchange, if any were; the channel is the
-- first registered one with its id; and the channel finds the data valid.
pub record Allowed {W : Type 0} (registered : Option (List (RedeemFulfillmentChannel W)))
    (advertised : Option (List String)) (selection : Selection)
    (channel : RedeemFulfillmentChannel W) : Type 0 where
  pub is_advertised :
      (options : List String) → advertised ≡ some options → Memᴰ selection.option options
  pub channels : List (RedeemFulfillmentChannel W)
  pub are_registered : registered ≡ some channels
  pub before : List (RedeemFulfillmentChannel W)
  pub later : List (RedeemFulfillmentChannel W)
  pub stands : channels ≡ before ++ (channel ∷ later)
  pub others : All (λ c. c.id ≢ selection.option) before
  pub named : channel.id ≡ selection.option
  pub is_valid : channel.validate selection.data_ ≡ returned valid

-- The first channel with an id is after channels that have other ids.
first_named :
    {W : Type 0} (id : String) (channels : List (RedeemFulfillmentChannel W))
    (channel : RedeemFulfillmentChannel W)
    → find? (λ c. c.id == id) channels ≡ some channel
    → (before : List (RedeemFulfillmentChannel W)) × (later : List (RedeemFulfillmentChannel W))
      × (channels ≡ before ++ (channel ∷ later))
      × All (λ c. c.id ≢ id) before
      × (channel.id ≡ id)
first_named id [] channel h = cc
first_named id (c ∷ channels) channel h = elim (Bool-cases (c.id == id)) [
  | inl p ↦
      let same : c ≡ channel = ground arith in
      (
        [],
        channels,
        ap (λ x. x ∷ channels) same,
        tt,
        ap (λ x. x.id) (sym same) ∙ (string_eq.beq_iff c.id id).0 p,
      )
  | inr p ↦
      let rest : find? (λ x. x.id == id) channels ≡ some channel = ground arith in
      let (before, later, stands, others, named) = first_named id channels channel rest in
      (c ∷ before, later, ap (λ xs. c ∷ xs) stands, (ne_of_beq-false c.id id p, others), named)
]

is_unadvertised-Mem :
    (advertised : Option (List String)) (option : String)
    → is_unadvertised advertised option ≡ false
    → (options : List String) → advertised ≡ some options
    → Memᴰ option options
is_unadvertised-Mem advertised option h options p =
    let k : not (includes options option) ≡ false =
      ap (λ a. is_unadvertised a option) (sym p) ∙ h in
    includes_iff_left options option (ground arith)

module _ {W : Type 0} (selection : Selection) where
  -- The checks on a selection refuse it or resolve it, to a channel that is allowed.
  abbrev IsDecided :
      Option (List (RedeemFulfillmentChannel W)) → Option (List String) → Resolved W → Type 0
  IsDecided registered advertised unselected = ⊥
  IsDecided registered advertised (refused code) = Unit
  IsDecided registered advertised (resolved chosen channel) =
      (chosen ≡ selection) × Allowed registered advertised selection channel

  module _ (advertised : Option (List String))
      (is_advertised : (options : List String)
        → advertised ≡ some options
        → Memᴰ selection.option options)
      (channels : List (RedeemFulfillmentChannel W)) where
    validated-IsDecided :
        (channel : RedeemFulfillmentChannel W) (o : Outcome Validation)
        → find? (λ c. c.id == selection.option) channels ≡ some channel
        → channel.validate selection.data_ ≡ o
        → IsDecided (some channels) advertised (resolve_validated selection channel o)
    validated-IsDecided channel (thrown e) f v = tt
    validated-IsDecided channel (returned (invalid reason)) f v = tt
    validated-IsDecided channel (returned valid) f v =
        let (before, later, stands, others, named) =
          first_named selection.option channels channel f in
        (
          refl,
          record {
            is_advertised = is_advertised;
            channels = channels;
            are_registered = refl;
            before = before;
            later = later;
            stands = stands;
            others = others;
            named = named;
            is_valid = v;
          },
        )

    found-IsDecided :
        (found : Option (RedeemFulfillmentChannel W))
        → find? (λ c. c.id == selection.option) channels ≡ found
        → IsDecided (some channels) advertised (resolve_found selection found)
    found-IsDecided none f = tt
    found-IsDecided (some channel) f =
        validated-IsDecided channel (channel.validate selection.data_) f refl

  among-IsDecided :
      (registered : Option (List (RedeemFulfillmentChannel W))) (advertised : Option (List String))
      → is_unadvertised advertised selection.option ≡ false
      → IsDecided registered advertised (resolve_among selection registered)
  among-IsDecided none advertised h = tt
  among-IsDecided (some channels) advertised h =
      found-IsDecided advertised (is_unadvertised-Mem advertised selection.option h) channels _ refl

  selection-IsDecided :
      (registered : Option (List (RedeemFulfillmentChannel W))) (advertised : Option (List String))
      → IsDecided registered advertised (resolve_selection registered advertised (some selection))
  unfolding resolve_selection
  selection-IsDecided registered advertised = go (is_unadvertised advertised selection.option) refl
    where
      go :
          (b : Bool)
          → is_unadvertised advertised selection.option ≡ b
          → IsDecided registered advertised (
              if b
              then refused HandlerCode.fulfillment_option_not_advertised
              else resolve_among selection registered)
      go true h = tt
      go false h = among-IsDecided registered advertised h

module _ {W : Type 0} (ctx : HandlerContext W) (input : PerformActionInput) where
  -- The redemption is confirmed, its delivery is settled with the option's channel, the exchange's
  -- option entry is gone, and the recovery entries of the other exchanges are as they were.
  pub record Redeemed (selection : Selection) (s : ServerState W) (body : PerformActionOk)
      (s' : ServerState W) : Type 0 where
    pub redeemer : String
    pub is_redeemer : ctx.signer_of_payload input.signed_payload ≡ returned redeemer
    pub channel : RedeemFulfillmentChannel W
    pub allowed :
        Allowed ctx.config.fulfillment_channels (get s.options input.exchange_id) selection channel
    pub base : PerformActionOk
    pub same_answer : (body.tx_hash ≡ base.tx_hash) × (body.next_actions ≡ base.next_actions)
    pub after : W
    pub confirmed : Confirmed ctx ExchangeActionId.redeem input s.outside base after
    pub settled :
        Settled input.exchange_id channel WarningCode.fulfillment_update_deferred
          (pending_entry input.exchange_id selection.option selection.data_ redeemer
            (ctx.now after))
          (record { warnings = body.warnings; delivery = body.fulfillment })
          s'.recovery
    pub others : (j : String) → input.exchange_id ≢ j → get s'.recovery j ≡ get s.recovery j
    pub options : s'.options ≡ remove s.options input.exchange_id

  Redeemed-of_resolved :
      (selection : Selection) (channel : RedeemFulfillmentChannel W) (redeemer : String)
      (s s' : ServerState W) (body : PerformActionOk)
      → ctx.signer_of_payload input.signed_payload ≡ returned redeemer
      → Allowed ctx.config.fulfillment_channels (get s.options input.exchange_id) selection channel
      → (o : Outcome (HandlerResult PerformActionOk)) (w : W)
      → handle_perform_action ctx ExchangeActionId.redeem input s.outside ≡ (o, w)
      → after_redeem ctx input redeemer (resolved selection channel) o (record s { outside = w })
        ≡ (returned (ok body), s')
      → Redeemed selection s body s'
  unfolding after_redeem hand_over_resolved delete_options
  Redeemed-of_resolved selection channel redeemer s s' body p q (thrown e) w r h =
      cc (ap (λ z. z.0) h)
  Redeemed-of_resolved selection channel redeemer s s' body p q (returned (err t c)) w r h =
      cc (ap (λ z. z.0) h)
  Redeemed-of_resolved selection channel redeemer s s' body p q (returned (ok base)) w r h =
      let u : ServerState W = record s { outside = w } in
      let entry = redeem_entry ctx input redeemer selection u in
      let run =
        hand_over ctx.now ctx.base64 channel input.exchange_id
          WarningCode.fulfillment_update_deferred entry u in
      let (kept, settled) =
        hand_over_lem ctx.now ctx.base64 channel input.exchange_id
          WarningCode.fulfillment_update_deferred entry u refl in
      let c =
        handle_perform_action-Confirmed ctx ExchangeActionId.redeem input s.outside w base r in
      let answer : ◌≡◌ {A = Outcome (HandlerResult PerformActionOk)}
          (returned (ok (with_delivery run.0 base))) (returned (ok body)) =
        ap (λ z. z.0) h in
      let is_body : with_delivery run.0 base ≡ body = cc in
      let is_state : delete_options input.exchange_id run.1 ≡ s' = ap (λ z. z.1) h in
      let recovery : run.1.recovery ≡ s'.recovery = ap (λ z. z.recovery) is_state in
      let delivered : run.0 ≡ record { warnings = body.warnings; delivery = body.fulfillment } =
        sym (with_delivery-plain run.0 base c.no_warnings c.no_fulfillment)
        ∙ ap (λ b. record { warnings = b.warnings; delivery = b.fulfillment }) is_body in
      record {
        redeemer = redeemer;
        is_redeemer = p;
        channel = channel;
        allowed = q;
        base = base;
        same_answer = rw (← is_body) (refl, refl);
        after = w;
        confirmed = c;
        settled =
            subst
              (λ d.
                Settled input.exchange_id channel WarningCode.fulfillment_update_deferred entry d
                  s'.recovery)
              delivered
              (subst
                (λ m.
                  Settled input.exchange_id channel WarningCode.fulfillment_update_deferred entry
                    run.0 m)
                recovery settled);
        others = λ j n. ap (λ m. get m j) (sym recovery) ∙ kept.others j n;
        options =
            ap (λ z. z.options) (sym is_state) ∙ ap (λ m. remove m input.exchange_id) kept.options;
      }

-- When a redeem with a fulfillment selection is answered 200, the redemption is confirmed; the
-- option is among those advertised for the exchange, if any are; the channel is the first registered
-- one of that option, and finds the selection's data valid; the delivery is either done, without a
-- warning or a recovery entry, or owed, with one warning and an entry to replay; the exchange's option
-- entry is removed; and the recovery entries of the other exchanges are as they were.
pub handle_redeem-Redeemed :
    {W : Type 0} (ctx : HandlerContext W) (input : PerformActionInput) (selection : Selection)
    (s s' : ServerState W) (body : PerformActionOk)
    → handle_redeem ctx input (some selection) s ≡ (returned (ok body), s')
    → Redeemed ctx input selection s body s'
unfolding handle_redeem redeem_signed redeem_resolved outside
handle_redeem-Redeemed {W = W} ctx input selection s s' body h =
    signed (ctx.signer_of_payload input.signed_payload) refl h
  where
    chosen :
        (redeemer : String)
        → ctx.signer_of_payload input.signed_payload ≡ returned redeemer
        → (t : Resolved W)
        → resolve_selection ctx.config.fulfillment_channels
            (get s.options input.exchange_id)
            (some selection)
          ≡ t
        → redeem_resolved ctx input redeemer t s ≡ (returned (ok body), s')
        → Redeemed ctx input selection s body s'
    chosen redeemer p (refused code) q r = cc (ap (λ z. z.0) r)
    chosen redeemer p unselected q r = absurd (
        subst
          (IsDecided selection ctx.config.fulfillment_channels (get s.options input.exchange_id)) q
          (selection-IsDecided selection ctx.config.fulfillment_channels
            (get s.options input.exchange_id)))
    chosen redeemer p (resolved sel channel) q r =
        let (same, allowed) : IsDecided selection ctx.config.fulfillment_channels
            (get s.options input.exchange_id) (resolved sel channel) =
          subst
            (IsDecided selection ctx.config.fulfillment_channels (get s.options input.exchange_id))
            q
            (selection-IsDecided selection ctx.config.fulfillment_channels
              (get s.options input.exchange_id)) in
        Redeemed-of_resolved ctx input selection channel redeemer s s' body p allowed _ _ refl (
          subst
            (λ z.
              redeem_resolved ctx input redeemer (resolved z channel) s ≡ (returned (ok body), s'))
            same r)

    signed :
        (o : Outcome String)
        → ctx.signer_of_payload input.signed_payload ≡ o
        → redeem_signed ctx input (some selection) o s ≡ (returned (ok body), s')
        → Redeemed ctx input selection s body s'
    signed (thrown e) p q = cc (ap (λ z. z.0) q)
    signed (returned redeemer) p q = chosen redeemer p _ refl q
