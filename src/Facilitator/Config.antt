-- ===== src/Facilitator/Config.antt =====
-- What the facilitator's functions are given: FacilitatorConfig of types.ts, and the libraries behind
-- it as parameters (viem, core-sdk with the typed-data and calldata builders over it, collation, zod's
-- timestamps); errors.ts; and how the steps are put in sequence.
use x402b.Prelude.{ℕ, String, List, Option, Bool, true, false, Dict, ◌≡◌, ◌↔◌, refl, arith}
use x402b.Json.{Json, Fields}
use x402b.Wire.{BosonMetaTx}
use x402b.Effects.{Raised, Eff, Outcome, returned, thrown}
use x402b.Server.Payload.{CommitAction, InnerActionCalldata}
use x402b.Facilitator.{FacilitatorErrorCode, StepResult, ok, rejected}

-- A meta-transaction's message, by the primary type of its typed data.
pub data TypedMessage : Type 0 where
  meta_transaction : (function_name function_signature : String) → TypedMessage
  meta_tx_exchange : (function_name : String) → (exchange_id : ℕ) → TypedMessage
  meta_tx_dispute_resolution :
      (exchange_id buyer_percent : ℕ) → (counterparty_sig : String) → TypedMessage
  meta_tx_fund :
      (entity_id : ℕ) → (token_list : List String) → (token_amounts : List ℕ) → TypedMessage

pub record TokenEip712Domain : Type 0 where
  pub name : String
  pub version : String
  pub chain_id : ℕ
  pub verifying_contract : String
  pub salt : Option String

-- The messages of the token authorisations, with the domain, or the chain of Permit2.
pub data TokenMessage : Type 0 where
  receive_with_authorization :
      TokenEip712Domain
      → (from to value : String) → (valid_after valid_before : ℕ) → (nonce : String) → TokenMessage
  permit : TokenEip712Domain → (owner spender value nonce : String) → (deadline : ℕ) → TokenMessage
  permit_transfer_from :
      (chain_id : ℕ) → (token amount spender nonce : String) → (deadline : ℕ) → TokenMessage

-- A value that viem decodes from calldata.
pub data DecodedValue : Type 0 where
  bigint : ℕ → DecodedValue
  hex : String → DecodedValue
  hexes : List String → DecodedValue
  bigints : List ℕ → DecodedValue
  other : DecodedValue

pub record DecodedCall : Type 0 where
  pub function_name : String
  pub args : List DecodedValue

-- A value that viem encodes, with its ABI type.
pub data AbiValue : Type 0 where
  uint256 : ℕ → AbiValue
  uint8 : ℕ → AbiValue
  bytes32 : String → AbiValue
  bytes : String → AbiValue

pub data RelayerSubmitErrorCode : Type 0 where
  insufficient_funds_for_gas onchain_revert internal_error : RelayerSubmitErrorCode

-- What a thrown error is an instance of. All but the first and the last two are viem's `BaseError`s.
pub data ErrorClass : Type 0 where
  relayer_submit : RelayerSubmitErrorCode → ErrorClass
  insufficient_funds execution_reverted contract_function_reverted raw_contract : ErrorClass
  base plain no_error : ErrorClass

pub record ErrorLink : Type 0 where
  pub class : ErrorClass
  pub details : String

-- An error, its cause, the cause of that, and so on; one that is its own cause is the last.
abbrev pub ErrorChain : Type 0
ErrorChain = List ErrorLink

pub record Libraries : Type 0 where
  pub build_calldata : CommitAction → Fields → Outcome InnerActionCalldata
  pub typed_data :
      (chain_id : ℕ)
      → (verifying_contract nonce from : String) → TypedMessage
      → Outcome ((signature : String) → Outcome String)
  pub recover_token_signer : TokenMessage → (signature : String) → Outcome String
  pub decode_function_data : String → Outcome DecodedCall
  pub decode_signed_payload : String → Outcome BosonMetaTx
  pub encode_abi_parameters : List AbiValue → Outcome String
  pub encode_token_envelope :
      (user function_name function_signature : String)
      → (nonce : ℕ) → (signature : String) → (queue : List String) → Outcome String
  pub execute_meta_transaction_info :
      (contract user : String) → BosonMetaTx → Outcome (Option String × Option String)
  pub big_int : String → Outcome ℕ
  pub to_text : ℕ → String  -- `n.toString()`
  pub precedes : String → String → Bool  -- `a.localeCompare(b) <= 0`
  pub stringify : Json → String
  pub is_datetime : String → Bool
  pub walk : (ErrorLink → Bool) → ErrorChain → Bool  -- `e.walk(p) !== null`

pub data CallResult : Type 0 where
  answered : CallResult
  failed : ErrorChain → CallResult

pub data SubmitResult : Type 0 where
  sent : (hash : String) → SubmitResult
  failed : ErrorChain → SubmitResult

-- A read of a contract: what it reads, viem's contract errors, and the other failures.
pub data ReadResult (A : Type 0) : Type 0 where
  read : A → ReadResult A
  contract_function_error : Raised → ReadResult A
  transport_error : Raised → ReadResult A

-- `eip712Domain()`, up to the salt.
pub record Eip5267Domain : Type 0 where
  pub fields : ℕ
  pub name : String
  pub version : String
  pub chain_id : ℕ
  pub verifying_contract : String
  pub salt : String

-- `abi` of the logs is core-sdk's: the `exchangeId` of each `BuyerCommitted` event, if it is a bigint.
pub record Receipt : Type 0 where
  pub success : Bool
  pub buyer_committed : List (Option ℕ)

pub record PublicClient (W : Type 0) : Type 0 where
  pub chain : Option ℕ
  pub call : (account to calldata : String) → W → CallResult × W
  pub eip712_domain : (token : String) → W → ReadResult Eip5267Domain × W
  pub name : (token : String) → W → ReadResult String × W
  pub version : (token : String) → W → ReadResult String × W
  pub wait_for_transaction_receipt : (hash : String) → Eff W Receipt
  pub now_seconds : W → ℕ

-- `strategy` with `data` of an entry of core-sdk's queue of authorisations.
pub data TransferData : Type 0 where
  erc3009 : (valid_after valid_before : ℕ) → (nonce : String) → TransferData
  eip2612 : (deadline : ℕ) → TransferData
  permit2 : (nonce : String) → (deadline : ℕ) → TransferData

-- An entry; `v` is none where it is not a number.
pub record TransferAuthorization : Type 0 where
  pub data_ : TransferData
  pub r : String
  pub s : String
  pub v : Option ℕ
  pub signature : String

-- `walletClient.sendTransaction`, and core-sdk's `executeMetaTransaction` over it.
pub record WalletClient (W : Type 0) : Type 0 where
  pub account : Option String
  pub chain : Option ℕ
  pub send_transaction : (account to calldata : String) → W → SubmitResult × W
  pub execute_meta_transaction :
      (user contract : String)
      → BosonMetaTx
      → Option (List TransferAuthorization)
      → W
      → SubmitResult × W

pub record FacilitatorConfig (W : Type 0) : Type 0 where
  pub supported_networks : List String
  pub escrows : Dict String
  pub wallet_client : WalletClient W
  pub public_client : PublicClient W
  pub libraries : Libraries

-- `toResult`: no function of the program throws a `FacilitatorError`.
abbrev pub to_result : Raised → StepResult
to_result e = rejected FacilitatorErrorCode.internal_error

-- The `try` of a whole function.
abbrev pub caught : Outcome StepResult → StepResult
caught (returned r) = r
caught (thrown e) = to_result e

-- A pure step, and those after it.
infixr 40 ◌followed_by◌
abbrev pub ◌followed_by◌ : StepResult → StepResult → StepResult
ok followed_by next = next
(rejected code) followed_by next = rejected code

-- `if (test) return { ok: false, code }`
abbrev pub reject_if : Bool → FacilitatorErrorCode → StepResult
reject_if true code = rejected code
reject_if false code = ok

module _ {W : Type 0} where
  -- `if (!step.ok) return step`, with what follows it.
  abbrev pub after_step : Outcome StepResult → Eff W StepResult → Eff W StepResult
  after_step (thrown e) next w = (thrown e, w)
  after_step (returned (rejected code)) next w = (returned (rejected code), w)
  after_step (returned ok) next w = next w

  infixr 39 ◌then_step◌
  abbrev pub ◌then_step◌ : Eff W StepResult → Eff W StepResult → Eff W StepResult
  ◌then_step◌ step next w = after_step (step w).0 next (step w).1

pub followed_by_iff : (a b : StepResult) → ((a followed_by b) ≡ ok) ↔ ((a ≡ ok) × (b ≡ ok))
followed_by_iff ok b = ground arith
followed_by_iff (rejected code) b = ground arith

pub reject_if_iff : (b : Bool) (code : FacilitatorErrorCode) → (reject_if b code ≡ ok) ↔ (b ≡ false)
reject_if_iff true code = ground arith
reject_if_iff false code = ground arith

-- Inversion of steps in sequence.
pub then_step-ok :
    {W : Type 0} (step next : Eff W StepResult) (w : W) {w' : W}
    → ◌then_step◌ step next w ≡ (returned ok, w')
    → (u : W) × (step w ≡ (returned ok, u)) × (next u ≡ (returned ok, w'))
then_step-ok {W} step next w {w'} h = go (step w) h refl
  where
    go :
        (r : Outcome StepResult × W)
        → after_step r.0 next r.1 ≡ (returned ok, w')
        → step w ≡ r
        → (u : W) × (step w ≡ (returned ok, u)) × (next u ≡ (returned ok, w'))
    go (thrown e, u) h p = cc
    go (returned (rejected code), u) h p = cc
    go (returned ok, u) h p = (u, p, h)
