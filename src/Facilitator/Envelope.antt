-- ===== src/Facilitator/Envelope.antt =====
-- internal/queue-layout.ts, internal/build-bpip12-calldata.ts, internal/build-settle-calldata.ts,
-- internal/token-auth-lift.ts and verify/simulate.ts: the call of the escrow that carries a
-- meta-transaction, and its simulation.
pub mod Simulated
pub mod Target
use Prim.Native.Char.{code}
use x402b.Prelude.{
  ℕ, zero, suc, String, List, [], ◌∷◌, ◌++◌, Option, none, some, Bool, true, false, not, ◌&&◌, ◌||◌,
  ◌==◌, string_eq, nat_eq, if◌then◌else◌, to_lower_case,
}
use x402b.Wire.{Permit2AuthData, BosonMetaTx, BosonTokenAuth, TokenAuthStrategy, strategy_eq}
use x402b.Effects.{Outcome, returned, thrown, Eff, Raised, error}
use x402b.Facilitator.{
  FacilitatorErrorCode, invalid_payload, simulation_revert, StepResult, ok, rejected,
}
use x402b.Facilitator.Config.{
  Libraries, PublicClient, AbiValue, uint256, uint8, bytes32, bytes, ErrorClass, ErrorLink,
  ErrorChain, CallResult, answered, TransferAuthorization, TransferData, execution_reverted,
  contract_function_reverted, raw_contract, relayer_submit, plain, no_error,
}
use x402b.Facilitator.Hex.{pack_rsv, unpack_signature, Unpacked}

-- `preBuyerSkipSlots`, by `PRE_BUYER_SKIP_SLOTS`.
unfoldable pub pre_buyer_skip_slots : String → ℕ
pre_buyer_skip_slots action =
    if action == "boson-createOfferAndCommit"
    then 1
    else if action == "boson-createOfferCommitAndRedeem"
    then 1
    else 0

-- `await` and `BigInt` in a function that throws on.
module _ {A B : Type 0} where
  infixl 5 ◌>>=◌
  abbrev pub ◌>>=◌ : Outcome A → (A → Outcome B) → Outcome B
  (returned a) >>= f = f a
  (thrown e) >>= f = thrown e

pub record TxRequest : Type 0 where
  pub to : String
  pub calldata : String

module _ (lib : Libraries) where
  -- `encodeAuthEntry`; the strategies are 1, 2 and 3.
  abbrev entry_of : ℕ → List AbiValue → Outcome String
  entry_of strategy values = do
    inner ← lib.encode_abi_parameters values
    lib.encode_abi_parameters (uint8 strategy ∷ bytes inner ∷ [])

  unfoldable pub encode_auth_entry : BosonTokenAuth → Outcome String
  encode_auth_entry (BosonTokenAuth.erc3009 d) = entry_of 1 (
      uint256 d.valid_after
      ∷ uint256 d.valid_before
      ∷ bytes32 d.nonce
      ∷ uint8 d.v
      ∷ bytes32 d.r
      ∷ bytes32 d.s
      ∷ [])
  encode_auth_entry (BosonTokenAuth.permit d) =
      entry_of 2 (uint256 d.deadline ∷ uint8 d.v ∷ bytes32 d.r ∷ bytes32 d.s ∷ [])
  encode_auth_entry (BosonTokenAuth.permit2 d) = do
    nonce ← lib.big_int d.nonce
    entry_of 3 (uint256 nonce ∷ uint256 d.deadline ∷ bytes d.signature ∷ [])

  -- The loop over the slots, with `FALLBACK_ENTRY`.
  abbrev pub fallback_entries : ℕ → List String
  fallback_entries zero = []
  fallback_entries (suc n) = "0x" ∷ fallback_entries n

  unfoldable pub build_bpip12_queue : String → BosonTokenAuth → Outcome (List String)
  unfolding pre_buyer_skip_slots encode_auth_entry
  build_bpip12_queue action auth = do
    entry ← encode_auth_entry auth
    returned (fallback_entries (pre_buyer_skip_slots action) ++ (entry ∷ []))

module _ (lib : Libraries) (escrow user : String) (m : BosonMetaTx) (action : String) where
  -- `buildBpip12Calldata`, with the arguments that `buildSettleCalldata` gives it.
  unfoldable pub build_bpip12_calldata : BosonTokenAuth → Outcome TxRequest
  unfolding build_bpip12_queue
  build_bpip12_calldata auth = do
    nonce ← lib.big_int m.nonce
    queue ← build_bpip12_queue lib action auth
    calldata ←
        lib.encode_token_envelope user m.function_name m.function_signature nonce
          (pack_rsv m.sig.r m.sig.s m.sig.v) queue
    returned (record { to = escrow; calldata = calldata })

  -- core-sdk's transaction is to have a target and data.
  abbrev pub complete : Option String × Option String → Outcome TxRequest
  complete (some to, some calldata) = returned (record { to = to; calldata = calldata })
  complete _ = thrown (error "build-settle-calldata: an envelope without to/data")

  unfoldable pub build_settle_calldata :
      TokenAuthStrategy → Option BosonTokenAuth → Outcome TxRequest
  unfolding build_bpip12_calldata
  build_settle_calldata TokenAuthStrategy.none auth = do
    tx ← lib.execute_meta_transaction_info escrow user m
    complete tx
  build_settle_calldata strategy none = thrown (error "build-settle-calldata: requires tokenAuth")
  build_settle_calldata strategy (some auth) = build_bpip12_calldata auth

-- `isRevertMarker`
abbrev pub is_revert_marker : ErrorLink → Bool
is_revert_marker link = elim link.class [
  | raw_contract ↦ true
  | contract_function_reverted ↦ true
  | execution_reverted ↦ true
  | _ ↦ false
]

-- `err instanceof BaseError`
abbrev pub is_base_error : ErrorLink → Bool
is_base_error link = elim link.class [
  | relayer_submit code ↦ false
  | plain ↦ false
  | no_error ↦ false
  | _ ↦ true
]

abbrev begins : List ℕ → List ℕ → Bool
begins [] t = true
begins (c ∷ s) [] = false
begins (c ∷ s) (d ∷ t) = c == d && begins s t

abbrev occurs : List ℕ → List ℕ → Bool
occurs s [] = begins s []
occurs s (d ∷ t) = begins s (d ∷ t) || occurs s t

-- `isHardhatRevertDetails`, whose pattern ignores case.
unfoldable pub is_hardhat_revert_details : ErrorLink → Bool
unfolding to_lower_case
is_hardhat_revert_details link =
    is_base_error link
    && (occurs (to_lower_case "reverted") (to_lower_case link.details)
        || occurs (to_lower_case "VM Exception") (to_lower_case link.details)
        || occurs (to_lower_case "out of gas") (to_lower_case link.details))

-- `isOnChainRevert`
unfoldable pub is_on_chain_revert : Libraries → ErrorChain → Bool
unfolding is_hardhat_revert_details
is_on_chain_revert lib [] = false
is_on_chain_revert lib (e ∷ causes) =
    is_base_error e
    && (lib.walk is_revert_marker (e ∷ causes) || lib.walk is_hardhat_revert_details (e ∷ causes))

-- Whether an authorisation that the strategy needs is missing.
abbrev pub lacks_token_auth : TokenAuthStrategy → Option BosonTokenAuth → Bool
lacks_token_auth TokenAuthStrategy.none auth = false
lacks_token_auth strategy none = true
lacks_token_auth strategy (some auth) = false

abbrev pub simulated : Libraries → CallResult → StepResult
simulated lib answered = ok
simulated lib (CallResult.failed e) =
    rejected
      (if is_on_chain_revert lib e then simulation_revert else FacilitatorErrorCode.internal_error)

module _ {W : Type 0} (lib : Libraries) (client : PublicClient W) (relayer escrow user : String)
    (m : BosonMetaTx) (action : String) where
  abbrev pub call_built : Outcome TxRequest → Eff W StepResult
  call_built (thrown e) w = (returned (rejected FacilitatorErrorCode.internal_error), w)
  call_built (returned tx) w =
      let (result, w') = client.call relayer tx.to tx.calldata w in
      (returned (simulated lib result), w')

  unfoldable pub simulate_execute_meta_transaction :
      TokenAuthStrategy → Option BosonTokenAuth → Eff W StepResult
  unfolding build_settle_calldata is_on_chain_revert
  simulate_execute_meta_transaction strategy auth w =
      if lacks_token_auth strategy auth
      then (returned (rejected invalid_payload), w)
      else call_built (build_settle_calldata lib escrow user m action strategy auth) w

-- `bosonTokenAuthToTransferAuthorization`. A Permit2 signature that is not of 65 bytes throws.
abbrev pub lift_permit2 : Permit2AuthData → Option Unpacked → Outcome TransferAuthorization
lift_permit2 d none = thrown (error "token-auth-lift: Permit2 signature must be 65 bytes")
lift_permit2 d (some parts) = returned (record {
  data_ = TransferData.permit2 d.nonce d.deadline;
  r = parts.r;
  s = parts.s;
  v = parts.v;
  signature = d.signature;
})

unfoldable pub boson_token_auth_to_transfer_authorization :
    BosonTokenAuth → Outcome TransferAuthorization
unfolding unpack_signature pack_rsv
boson_token_auth_to_transfer_authorization (BosonTokenAuth.erc3009 d) = returned (record {
  data_ = TransferData.erc3009 d.valid_after d.valid_before d.nonce;
  r = d.r;
  s = d.s;
  v = some d.v;
  signature = pack_rsv d.r d.s d.v;
})
boson_token_auth_to_transfer_authorization (BosonTokenAuth.permit d) = returned (record {
  data_ = TransferData.eip2612 d.deadline;
  r = d.r;
  s = d.s;
  v = some d.v;
  signature = pack_rsv d.r d.s d.v;
})
boson_token_auth_to_transfer_authorization (BosonTokenAuth.permit2 d) =
    lift_permit2 d (unpack_signature d.signature)
