-- ===== src/Wire/Schemas.antt =====
-- core/src/schemes/escrow/{payment-payload,payment-requirements,shared-schemas}.ts: the zod schemas of
-- a payload and of requirements, on values that have the types of the wire format. The types give the
-- shapes and the lower bounds of the integers; what is left are patterns, lengths and distinctness.
-- The timestamps that zod's `datetime` accepts are a parameter.
use x402b.Prelude.{
  String, List, [], ◌∷◌, Option, none, some, Bool, true, false, not, ◌&&◌, ◌==◌, ◌!=◌, string_eq,
  ltb, includes, all, is_some, Dict, get, Eq,
}
use x402b.Wire.{
  strategy_eq, channel_eq, Sig, BosonMetaTx, Erc3009AuthData, PermitAuthData, Permit2AuthData,
  BosonTokenAuth, BosonOfferRef, FulfillmentRequirements, CarriedFulfillment, NextAction,
  OnchainHints, ActionsFallback, ActionsEnvelope, EscrowPaymentPayload, EscrowPaymentPayloadInner,
  EscrowPaymentRequirements,
}
use x402b.Wire.Patterns.{
  is_hex, is_hex_bytes, is_hex32, is_address, is_decimal_uint, is_evm_network,
}

-- `z.string().min(1)`
abbrev is_nonempty : String → Bool
is_nonempty s = s != ""

-- A schema with `.optional()`.
abbrev if_present {ℓ} : {A : Type ℓ} → (A → Bool) → Option A → Bool
if_present p none = true
if_present p (some a) = p a

abbrev is_nonempty_list {ℓ} : {A : Type ℓ} → List A → Bool
is_nonempty_list [] = false
is_nonempty_list (x ∷ xs) = true

-- `new Set(xs).size === xs.length`
abbrev is_distinct {ℓ} : {A : Type ℓ} ⦃e : Eq A⦄ → List A → Bool
is_distinct [] = true
is_distinct (x ∷ xs) = not (includes xs x) && is_distinct xs

unfoldable pub sig_schema : Sig → Bool
unfolding is_hex32
sig_schema sig = is_hex32 sig.r && is_hex32 sig.s

unfoldable pub meta_tx_schema : BosonMetaTx → Bool
unfolding sig_schema is_address is_decimal_uint is_hex_bytes
meta_tx_schema m =
    is_address m.from
    && is_decimal_uint m.nonce
    && is_nonempty m.function_name
    && is_hex_bytes m.function_signature
    && sig_schema m.sig

unfoldable pub erc3009_data_schema : Erc3009AuthData → Bool
unfolding is_address is_decimal_uint is_hex32
erc3009_data_schema d =
    is_address d.from
    && is_address d.to
    && is_decimal_uint d.value
    && is_hex32 d.nonce
    && is_hex32 d.r
    && is_hex32 d.s

unfoldable pub permit_data_schema : PermitAuthData → Bool
unfolding is_address is_decimal_uint is_hex32
permit_data_schema d =
    is_address d.owner
    && is_address d.spender
    && is_decimal_uint d.value
    && is_decimal_uint d.nonce
    && is_hex32 d.r
    && is_hex32 d.s

unfoldable pub permit2_data_schema : Permit2AuthData → Bool
unfolding is_address is_decimal_uint is_hex
permit2_data_schema d =
    is_address d.permitted.token
    && is_decimal_uint d.permitted.amount
    && is_address d.spender
    && is_decimal_uint d.nonce
    && is_hex d.signature

unfoldable pub token_auth_schema : BosonTokenAuth → Bool
unfolding erc3009_data_schema permit_data_schema permit2_data_schema
token_auth_schema (BosonTokenAuth.erc3009 d) = erc3009_data_schema d
token_auth_schema (BosonTokenAuth.permit d) = permit_data_schema d
token_auth_schema (BosonTokenAuth.permit2 d) = permit2_data_schema d

abbrev carried_schema : CarriedFulfillment → Bool
carried_schema f = is_nonempty f.option

abbrev payload_inner_schema : EscrowPaymentPayloadInner → Bool
payload_inner_schema p =
    is_nonempty p.action
    && is_hex p.offer_ref.seller_sig
    && is_address p.buyer
    && meta_tx_schema p.meta_tx
    && if_present token_auth_schema p.token_auth

unfoldable pub escrow_payment_payload_schema : EscrowPaymentPayload → Bool
unfolding is_evm_network is_hex is_address meta_tx_schema token_auth_schema
escrow_payment_payload_schema p =
    p.scheme == "escrow"
    && is_evm_network p.network
    && payload_inner_schema p.payload
    && if_present carried_schema p.fulfillment

unfoldable pub offer_ref_schema : BosonOfferRef → Bool
unfolding is_hex is_address
offer_ref_schema o = is_hex o.seller_sig && is_address o.creator

unfoldable pub fulfillment_schema : FulfillmentRequirements → Bool
fulfillment_schema f = all (λ option. is_nonempty option.id) f.options

module _ (is_datetime : String → Bool) where
  unfoldable pub action_entry_schema : NextAction → Bool
  action_entry_schema a =
      is_nonempty a.id
      && is_nonempty_list a.channels
      && is_distinct a.channels
      && if_present is_datetime a.deadline

-- The entrypoints have the four strategies as their keys.
abbrev meta_tx_entrypoints_schema : Dict String → Bool
meta_tx_entrypoints_schema m =
    all (λ k. includes ("none" ∷ "erc3009" ∷ "permit" ∷ "permit2" ∷ []) k.0 && is_nonempty k.1) m
    && all (λ k. is_some (get m k)) ("none" ∷ "erc3009" ∷ "permit" ∷ "permit2" ∷ [])

unfoldable pub onchain_hints_schema : OnchainHints → Bool
unfolding is_address
onchain_hints_schema h =
    is_address h.escrow
    && is_nonempty h.meta_tx_facet
    && meta_tx_entrypoints_schema h.meta_tx_entrypoints

unfoldable pub actions_fallback_schema : ActionsFallback → Bool
unfolding onchain_hints_schema
actions_fallback_schema f = if_present onchain_hints_schema f.onchain_hints

module _ (is_datetime : String → Bool) where
  unfoldable pub actions_schema : ActionsEnvelope → Bool
  unfolding action_entry_schema actions_fallback_schema
  actions_schema a =
      is_nonempty_list a.next
      && all (action_entry_schema is_datetime) a.next
      && if_present actions_fallback_schema a.fallback

  unfoldable pub escrow_payment_requirements_schema : EscrowPaymentRequirements → Bool
  unfolding is_evm_network is_address is_decimal_uint offer_ref_schema fulfillment_schema
      actions_schema
  escrow_payment_requirements_schema r =
      r.scheme == "escrow"
      && is_evm_network r.network
      && is_address r.asset
      && is_decimal_uint r.amount
      && is_address r.escrow_address
      && is_nonempty r.recipient_id
      && ltb 0 r.max_timeout_seconds
      && offer_ref_schema r.offer
      && is_nonempty_list r.token_auth_strategies
      && is_distinct r.token_auth_strategies
      && if_present fulfillment_schema r.fulfillment
      && actions_schema r.actions
