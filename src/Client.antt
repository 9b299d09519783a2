-- ===== src/Client.antt =====
-- The buyer's SDK: typescript/packages/client/src. What it is configured with (types.ts), and what
-- core-sdk, viem and the platform do for it, as parameters. An error is given by its class.
pub mod TokenAuth
pub mod Choice
pub mod Payment
pub mod Chosen
pub mod Assembled
pub mod Accepted
pub mod Payable
pub mod Fulfilled
pub mod Served
pub mod Submit
pub mod Signed
pub mod PostCommit
pub mod Response
pub mod Withdraw
mod Tests
use x402b.Prelude.{
  ℕ, String, Option, Bool, true, false, none, some, ◌&&◌, leb, if◌then◌else◌, ltb, Eq,
}
use x402b.Json.{Fields}
use x402b.Wire.{TokenAuthStrategy, EscrowPaymentPayload}
use x402b.Effects.{Raised, error, Outcome, returned, thrown, Eff}
use x402b.Server.Payload.{CommitAction}
use x402b.Facilitator.Config.{TokenEip712Domain}
use x402b.Facilitator.Structural.{parse_chain_id as parse_network}

pub data RedeemMode : Type 0 where
  auto commit_only commit_and_redeem : RedeemMode

-- An absent `redeemMode` is `auto`.
pub record Policy : Type 0 where
  pub redeem_mode : RedeemMode
  pub max_amount : Option String
  pub token_auth_strategy : Option TokenAuthStrategy

-- `data` is an object or null.
pub record FulfillmentConfig : Type 0 where
  pub option : String
  pub chosen_data : Option Fields

pub record SignedMetaTx : Type 0 where
  pub function_name : String
  pub function_signature : String
  pub r : String
  pub s : String
  pub v : ℕ

pub record SignedAuthorization : Type 0 where
  pub valid_after : ℕ
  pub valid_before : ℕ
  pub nonce : String
  pub r : String
  pub s : String
  pub v : ℕ

pub record SignedPermit : Type 0 where
  pub r : String
  pub s : String
  pub v : ℕ

-- core-sdk's signing, over the buyer's signer.
pub record CoreSdk (W : Type 0) : Type 0 where
  pub sign_commit : CommitAction → (nonce : String) → Fields → Eff W SignedMetaTx
  pub sign_erc3009 :
      (token name version amount : String)
      → (valid_after valid_before : ℕ) → (spender : String) → Eff W SignedAuthorization
  pub sign_permit :
      (token name version amount : String)
      → (deadline : ℕ) → (spender : String) → Eff W SignedPermit
  pub sign_permit2 :
      (token amount : String) → (deadline : ℕ) → (spender nonce : String) → Eff W String

abbrev pub TokenDomainResolver : Type 0 → Type 0
TokenDomainResolver W = String → ℕ → Eff W TokenEip712Domain

-- A `call` of `nonces(owner)`, whose answer may be empty, and its decoding.
abbrev pub NonceReader : Type 0 → Type 0
NonceReader W = (token owner : String) → Eff W (Option ℕ)

-- `now` is `Date.now()`, in milliseconds.
pub record X402bClientConfig (W : Type 0) : Type 0 where
  pub get_address : Eff W String
  pub core_sdk : (escrow : String) → (chain_id : ℕ) → CoreSdk W
  pub now : W → ℕ
  pub random_uint256 : W → ℕ × W
  pub to_text : ℕ → String  -- `n.toString()`
  pub big_int : String → Outcome ℕ
  pub accepts_data : (schema : Fields) → Option Fields → Bool  -- Ajv
  pub is_datetime : String → Bool  -- zod
  pub encode : EscrowPaymentPayload → String  -- JSON in base64
  pub public_clients : ℕ → Option (NonceReader W)
  pub token_domain_resolver : Option (TokenDomainResolver W)
  pub policy : Policy
  pub fulfillment : Option FulfillmentConfig

-- `Number.isSafeInteger(n) && n > 0`
abbrev is_safe_chain : ℕ → Bool
is_safe_chain n = ltb 0 n && leb n 9007199254740991

abbrev pub checked_chain : Option ℕ → Outcome ℕ
checked_chain none = thrown (error "Error")
checked_chain (some n) = if is_safe_chain n then returned n else thrown (error "Error")

unfoldable pub parse_chain_id : String → Outcome ℕ
unfolding parse_network
parse_chain_id network = checked_chain (parse_network network)
