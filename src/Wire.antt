-- ===== src/Wire.antt =====
-- The wire format of the escrow scheme: typescript/packages/core/src/schemes/escrow/{types,
-- payment-requirements,payment-payload,next-actions}.ts. Integer fields are natural numbers; the
-- zod schemas bound all of them from below but the `v` of a signature.
pub mod Patterns
pub mod Schemas
use x402b.Prelude.{Dict, ℕ, String, List, Option, Bool, true, Eq, ◌≡◌, ◌↔◌, arith, nat_beq}
use x402b.Json.{Json, Fields}
use x402b.Machine.{PlainState, DisputeState}

pub data TokenAuthStrategy : Type 0 where
  none erc3009 permit permit2 : TokenAuthStrategy

abbrev strategy_index : TokenAuthStrategy → ℕ
strategy_index none = 0
strategy_index erc3009 = 1
strategy_index permit = 2
strategy_index permit2 = 3

abbrev pub strategy_beq : TokenAuthStrategy → TokenAuthStrategy → Bool
strategy_beq a b = nat_beq (strategy_index a) (strategy_index b)

pub strategy_beq_iff : (a b : TokenAuthStrategy) → (strategy_beq a b ≡ true) ↔ (a ≡ b)
strategy_beq_iff a b = ground arith

instance abbrev pub strategy_eq : Eq TokenAuthStrategy
strategy_eq = record { beq = strategy_beq; beq_iff = strategy_beq_iff }

abbrev pub strategy_name : TokenAuthStrategy → String
strategy_name none = "none"
strategy_name erc3009 = "erc3009"
strategy_name permit = "permit"
strategy_name permit2 = "permit2"

pub data ActionChannel : Type 0 where
  server facilitator onchain mcp xmtp : ActionChannel

abbrev channel_index : ActionChannel → ℕ
channel_index server = 0
channel_index facilitator = 1
channel_index onchain = 2
channel_index mcp = 3
channel_index xmtp = 4

abbrev pub channel_beq : ActionChannel → ActionChannel → Bool
channel_beq a b = nat_beq (channel_index a) (channel_index b)

pub channel_beq_iff : (a b : ActionChannel) → (channel_beq a b ≡ true) ↔ (a ≡ b)
channel_beq_iff a b = ground arith

instance abbrev pub channel_eq : Eq ActionChannel
channel_eq = record { beq = channel_beq; beq_iff = channel_beq_iff }

pub record BosonOfferRef : Type 0 where
  pub full_offer : Fields
  pub seller_sig : String
  pub creator : String

pub record FulfillmentOption : Type 0 where
  pub id : String
  pub schema : Option Fields  -- none for null
  pub metadata : Option Json

pub record FulfillmentRequirements : Type 0 where
  pub required : Bool
  pub options : List FulfillmentOption

pub record NextAction : Type 0 where
  pub id : String
  pub channels : List ActionChannel
  pub endpoints : Option (Dict String)
  pub deadline : Option String

pub record OnchainHints : Type 0 where
  pub escrow : String
  pub meta_tx_facet : String
  pub meta_tx_entrypoints : Dict String
  pub action_facets : Dict String

pub record ActionsFallback : Type 0 where
  pub xmtp : Option String
  pub mcp : Option String
  pub onchain_hints : Option OnchainHints

pub record ActionsEnvelope : Type 0 where
  pub next : List NextAction
  pub fallback : Option ActionsFallback

-- The discriminated half of `EscrowNextActions`: `disputeState` is there iff the state is DISPUTED.
pub data EnvelopeState : Type 0 where
  plain : PlainState → EnvelopeState
  disputed : DisputeState → EnvelopeState

pub record EscrowNextActions : Type 0 where
  pub exchange_id : String
  pub state : EnvelopeState
  pub next : List NextAction
  pub fallback : Option ActionsFallback

pub record Sig : Type 0 where
  pub v : ℕ
  pub r : String
  pub s : String

pub record BosonMetaTx : Type 0 where
  pub from : String
  pub nonce : String
  pub function_name : String
  pub function_signature : String
  pub sig : Sig

pub record Erc3009AuthData : Type 0 where
  pub from : String
  pub to : String
  pub value : String
  pub valid_after : ℕ
  pub valid_before : ℕ
  pub nonce : String
  pub v : ℕ
  pub r : String
  pub s : String

pub record PermitAuthData : Type 0 where
  pub owner : String
  pub spender : String
  pub value : String
  pub deadline : ℕ
  pub nonce : String
  pub v : ℕ
  pub r : String
  pub s : String

pub record TokenPermissions : Type 0 where
  pub token : String
  pub amount : String

pub record Permit2AuthData : Type 0 where
  pub permitted : TokenPermissions
  pub spender : String
  pub nonce : String
  pub deadline : ℕ
  pub signature : String

pub data BosonTokenAuth : Type 0 where
  erc3009 : Erc3009AuthData → BosonTokenAuth
  permit : PermitAuthData → BosonTokenAuth
  permit2 : Permit2AuthData → BosonTokenAuth

-- `tokenAuth.kind`
abbrev pub kind : BosonTokenAuth → TokenAuthStrategy
kind (BosonTokenAuth.erc3009 d) = TokenAuthStrategy.erc3009
kind (BosonTokenAuth.permit d) = TokenAuthStrategy.permit
kind (BosonTokenAuth.permit2 d) = TokenAuthStrategy.permit2

pub record EscrowPaymentRequirements : Type 0 where
  pub scheme : String
  pub network : String
  pub asset : String
  pub amount : String
  pub escrow_address : String
  pub recipient_id : String
  pub max_timeout_seconds : ℕ
  pub offer : BosonOfferRef
  pub token_auth_strategies : List TokenAuthStrategy
  pub fulfillment : Option FulfillmentRequirements
  pub actions : ActionsEnvelope

pub record PayloadOfferRef : Type 0 where
  pub full_offer : Fields
  pub seller_sig : String

pub record EscrowPaymentPayloadInner : Type 0 where
  pub action : String
  pub token_auth_strategy : TokenAuthStrategy
  pub offer_ref : PayloadOfferRef
  pub buyer : String
  pub meta_tx : BosonMetaTx
  pub token_auth : Option BosonTokenAuth

-- `data` is absent, null or an object: none, some none, some (some fields).
pub record CarriedFulfillment : Type 0 where
  pub option : String
  pub carried_data : Option (Option Fields)

pub record EscrowPaymentPayload : Type 0 where
  pub x402_version : ℕ
  pub scheme : String
  pub network : String
  pub payload : EscrowPaymentPayloadInner
  pub fulfillment : Option CarriedFulfillment
