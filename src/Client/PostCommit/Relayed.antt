-- ===== src/Client/PostCommit/Relayed.antt =====
-- What the facilitator makes of an action that the client signs.
use mathlib.Core.Path.{subst}
use x402b.Prelude.{
  ℕ, String, List, ◌∷◌, Option, none, some, false, ◌≡◌, refl, ap, sym, ◌∙◌, Memᴰ, includes_of_mem,
  string_eq,
}
use x402b.Machine.{on_exchange, is_entity_keyed_action, action_name}
use x402b.Effects.{Outcome, returned, bind-eq-returned, pure-eq}
use x402b.Facilitator.{FacilitatorPerformActionInput, ok}
use x402b.Facilitator.Config.{FacilitatorConfig, Libraries, DecodedValue, bigint}
use x402b.Facilitator.Calldata.{
  ActionFunction, parse_uint256, exchange_action_function, post_commit_exchange_function,
}
use x402b.Facilitator.Calldata.Matching.{Calls, validate_perform_exchange_iff}
use x402b.Facilitator.Perform.{check_request, check_token_auth_shape}
use x402b.Client.{SignedMetaTx, parse_chain_id}
use x402b.Client.Payment.{lift}
use x402b.Client.Signed.{BigNumberish, string_of, meta_tx_of}
use x402b.Client.PostCommit.{
  CounterpartySig, BuyerAction, redeem, cancel_voucher, complete_exchange, raise_dispute,
  retract_dispute, escalate_dispute, resolve_dispute, action_id, SignActionArgs,
  SignedPostCommitAction, ActionCoreSdk, SignPostCommitActionDeps, call_sign_meta_tx, signed_action,
  envelope, sign_post_commit_action,
}

-- What was signed names a function, and its calldata decodes to a call of it with a number first.
abbrev pub Encodes : Libraries → (name signature : String) → ℕ → SignedMetaTx → Type 0
Encodes lib name signature n signed =
    (signed.function_name ≡ signature)
    × (rest : List DecodedValue) × (lib.decode_function_data signed.function_signature
        ≡ returned (record { function_name = name; args = bigint n ∷ rest }))

-- What a method of core-sdk signs calls the function, on the exchange whose text is `key`.
abbrev pub SignsCall :
    {W : Type 0}
    → Libraries
    → (name signature : String) → ℕ
    → (W → Outcome SignedMetaTx × W)
    → Type 0
SignsCall {W = W} lib name signature n method =
    (w w' : W) (signed : SignedMetaTx)
    → method w ≡ (returned signed, w')
    → Encodes lib name signature n signed

-- core-sdk's methods sign what their names say, on exchange `id`, the number `n`.
pub record SignsActions {W : Type 0} (sdk : ActionCoreSdk W) (lib : Libraries) (id : BigNumberish)
    (n : ℕ) : Type 0 where
  pub redeems :
      (nonce : String)
      → SignsCall lib "redeemVoucher" "redeemVoucher(uint256)" n (sdk.sign_redeem_voucher nonce id)
  pub cancels :
      (nonce : String)
      → SignsCall lib "cancelVoucher" "cancelVoucher(uint256)" n (sdk.sign_cancel_voucher nonce id)
  pub completes :
      (nonce : String)
      → SignsCall lib "completeExchange" "completeExchange(uint256)" n
          (sdk.sign_complete_exchange nonce id)
  pub raises :
      (nonce : String)
      → SignsCall lib "raiseDispute" "raiseDispute(uint256)" n (sdk.sign_raise_dispute nonce id)
  pub retracts :
      (nonce : String)
      → SignsCall lib "retractDispute" "retractDispute(uint256)" n
          (sdk.sign_retract_dispute nonce id)
  pub escalates :
      (nonce : String)
      → SignsCall lib "escalateDispute" "escalateDispute(uint256)" n
          (sdk.sign_escalate_dispute nonce id)
  pub resolves :
      (nonce : String) (percent : BigNumberish) (sig : CounterpartySig)
      → SignsCall lib "resolveDispute" "resolveDispute(uint256,uint256,bytes)" n
          (sdk.sign_resolve_dispute nonce id percent sig)

-- The request that the client posts to the facilitator for a signed action.
abbrev pub relaying :
    (key : String) → SignActionArgs → SignedPostCommitAction → FacilitatorPerformActionInput
relaying key args signed = record {
  network = args.network;
  escrow_address = args.escrow_address;
  action = on_exchange (action_id args.action);
  key = key;
  signed_payload = signed.signed_payload;
  token_auth_strategy = none;
  token_auth = none;
  asset = none;
  amount = none;
  max_timeout_seconds = none;
}

module _ {W : Type 0} (deps : SignPostCommitActionDeps W) (args : SignActionArgs) (n : ℕ)
    (is_number : parse_uint256 (string_of deps.to_text args.exchange_id) ≡ some n) (lib : Libraries)
    (sdk : ActionCoreSdk W) (signs : SignsActions sdk lib args.exchange_id n) (buyer : String)
    (nonce : ℕ) where
  Encodes-Calls :
      (function : Option ActionFunction) (name signature : String) (signed : SignedMetaTx)
      → function ≡ some (record { name = name; signature = signature })
      → Encodes lib name signature n signed
      → Calls lib function
          (string_of deps.to_text args.exchange_id)
          (meta_tx_of deps.to_text buyer nonce signed)
  Encodes-Calls function name signature signed f (named, rest, decoded) = record {
    expected = record { name = name; signature = signature };
    is_function = f;
    named = named;
    number = n;
    is_number = is_number;
    rest = rest;
    decoded = decoded;
  }

  call_sign_meta_tx-Calls :
      (action : BuyerAction) (text : String) (w w' : W) (signed : SignedMetaTx)
      → call_sign_meta_tx sdk action args.exchange_id text w ≡ (returned signed, w')
      → Calls lib
          (exchange_action_function (action_id action))
          (string_of deps.to_text args.exchange_id)
          (meta_tx_of deps.to_text buyer nonce signed)
  unfolding call_sign_meta_tx exchange_action_function
  call_sign_meta_tx-Calls redeem text w w' signed h =
      Encodes-Calls _ _ _ signed refl (signs.redeems text w w' signed h)
  call_sign_meta_tx-Calls cancel_voucher text w w' signed h =
      Encodes-Calls _ _ _ signed refl (signs.cancels text w w' signed h)
  call_sign_meta_tx-Calls complete_exchange text w w' signed h =
      Encodes-Calls _ _ _ signed refl (signs.completes text w w' signed h)
  call_sign_meta_tx-Calls raise_dispute text w w' signed h =
      Encodes-Calls _ _ _ signed refl (signs.raises text w w' signed h)
  call_sign_meta_tx-Calls retract_dispute text w w' signed h =
      Encodes-Calls _ _ _ signed refl (signs.retracts text w w' signed h)
  call_sign_meta_tx-Calls escalate_dispute text w w' signed h =
      Encodes-Calls _ _ _ signed refl (signs.escalates text w w' signed h)
  call_sign_meta_tx-Calls (resolve_dispute percent sig) text w w' signed h =
      Encodes-Calls _ _ _ signed refl (signs.resolves text percent sig w w' signed h)

keyed_by_exchange :
    (action : BuyerAction)
    → is_entity_keyed_action (action_name (on_exchange (action_id action))) ≡ false
unfolding is_entity_keyed_action
keyed_by_exchange redeem = refl
keyed_by_exchange cancel_voucher = refl
keyed_by_exchange complete_exchange = refl
keyed_by_exchange raise_dispute = refl
keyed_by_exchange retract_dispute = refl
keyed_by_exchange escalate_dispute = refl
keyed_by_exchange (resolve_dispute percent sig) = refl

module _ {V : Type 0} (facilitator : FacilitatorConfig V) (key : String) (args : SignActionArgs)
    (signed : SignedPostCommitAction)
    (supported : Memᴰ args.network facilitator.supported_networks) where
  request-Calls :
      Calls facilitator.libraries
        (exchange_action_function (action_id args.action))
        key
        signed.meta_tx
      → check_request facilitator (relaying key args signed) signed.meta_tx ≡ ok
  unfolding check_request check_token_auth_shape post_commit_exchange_function
  request-Calls c =
      let calldata =
        (validate_perform_exchange_iff facilitator.libraries (on_exchange (action_id args.action))
            key signed.meta_tx).1
          c in
      rw
        (
          includes_of_mem facilitator.supported_networks args.network supported,
          keyed_by_exchange args.action,
          calldata,
        )
        refl

module _ {W V : Type 0} (deps : SignPostCommitActionDeps W) (facilitator : FacilitatorConfig V)
    (args : SignActionArgs) (n : ℕ) where
  -- If core-sdk signs calls of the functions that its methods are named for, on the exchange, whose
  -- number is a uint256, and the facilitator supports the network and decodes what the client
  -- encodes, then an action that the client signs is the buyer's meta-transaction, and it passes the
  -- facilitator's checks on the request for that action on that exchange.
  pub sign_post_commit_action-check_request :
      (w w' : W) (signed : SignedPostCommitAction)
      → parse_uint256 (string_of deps.to_text args.exchange_id) ≡ some n
      → ((chain_id : ℕ)
          → SignsActions
              (deps.core_sdk args.escrow_address chain_id)
              facilitator.libraries
              args.exchange_id
              n)
      → Memᴰ args.network facilitator.supported_networks
      → facilitator.libraries.decode_signed_payload (deps.encode_signed_payload signed.meta_tx)
        ≡ returned signed.meta_tx
      → sign_post_commit_action deps args w ≡ (returned signed, w')
      → let request = relaying (string_of deps.to_text args.exchange_id) args signed in
        (facilitator.libraries.decode_signed_payload request.signed_payload
          ≡ returned signed.meta_tx)
        × (check_request facilitator request signed.meta_tx ≡ ok)
        × ((u v : W) × (deps.get_address u ≡ (returned signed.meta_tx.from, v)))
  unfolding sign_post_commit_action
  sign_post_commit_action-check_request w w' signed number signs supported codec h =
      let (nonce, u) = deps.random_uint256 w in
      let (buyer, u1, p1, h1) = bind-eq-returned deps.get_address _ u h in
      let (chain_id, u2, p2, h2) = bind-eq-returned (lift (parse_chain_id args.network)) _ u1 h1 in
      let sdk = deps.core_sdk args.escrow_address chain_id in
      let (m, u3, p3, h3) =
        bind-eq-returned (call_sign_meta_tx sdk args.action args.exchange_id (deps.to_text nonce))
          (envelope deps buyer nonce) u2 h2 in
      let same =
        pure-eq (signed_action deps (meta_tx_of deps.to_text buyer nonce m)) signed u3 w' h3 in
      let decodes : facilitator.libraries.decode_signed_payload signed.signed_payload
          ≡ returned signed.meta_tx =
        subst (λ x. facilitator.libraries.decode_signed_payload x ≡ returned signed.meta_tx)
          (ap {A = SignedPostCommitAction} {B = String} (λ x. deps.encode_signed_payload x.meta_tx)
              (sym same)
            ∙ ap {A = SignedPostCommitAction} {B = String} (λ x. x.signed_payload) same)
          codec in
      let accepted =
        subst
          (λ x.
            check_request facilitator (relaying (string_of deps.to_text args.exchange_id) args x)
              x.meta_tx
            ≡ ok)
          same
          (request-Calls facilitator _ args _ supported (
            call_sign_meta_tx-Calls deps args n number facilitator.libraries sdk (signs chain_id)
              buyer nonce args.action (deps.to_text nonce) u2 u3 m p3)) in
      let sender =
        subst (λ x. (a b : W) × (deps.get_address a ≡ (returned x.meta_tx.from, b))) same
          (u, u1, p1) in
      (decodes, accepted, sender)
