-- ===== src/Server/Payload/Rules/Signed.antt =====
-- The rules on the signed calldata and on the meta-transaction's signer.
use x402b.Prelude.{ℕ, String, Option, none, some, ◌≡◌, ◌↔◌, refl, SameText, string_eq}
use x402b.Effects.{Outcome, returned, thrown}
use x402b.Wire.{EscrowPaymentPayload, EscrowPaymentRequirements}
use x402b.Server.Payload.{
  Chain, InnerActionCalldata, CommitAction, commit_action, splice, check_calldata,
  check_calldata_of, compare_built, compare_signer, check_recovery, check_signer, encode_rsv,
}
use x402b.Server.Payload.Rules.Combine.{both_iff, check_same_iff, check_text_iff}

-- The signed calldata are what the offer and the buyer give for one of the two commit actions.
pub record SignsOffer (chain : Chain) (payload : EscrowPaymentPayload) : Type 0 where
  pub action : CommitAction
  pub is_action : commit_action payload.payload.action ≡ some action
  pub calldata : InnerActionCalldata
  pub is_calldata :
      chain.build_calldata action (
        splice payload.payload.offer_ref.full_offer payload.payload.buyer
          payload.payload.offer_ref.seller_sig)
      ≡ returned calldata
  pub function_name : calldata.function_name ≡ payload.payload.meta_tx.function_name
  pub function_signature :
      SameText calldata.function_signature payload.payload.meta_tx.function_signature

-- The buyer is the sender of the meta-transaction and its recovered signer.
pub record SignedByBuyer (chain : Chain) (chain_id : ℕ) (payload : EscrowPaymentPayload)
    (requirements : EscrowPaymentRequirements) : Type 0 where
  pub sender : SameText payload.payload.buyer payload.payload.meta_tx.from
  pub signature : String
  pub is_signature : encode_rsv payload.payload.meta_tx.sig ≡ some signature
  pub recovered : String
  pub is_recovered :
      chain.recover_signer chain_id requirements.escrow_address payload.payload.meta_tx signature
      ≡ returned recovered
  pub signer : SameText recovered payload.payload.buyer

module _ (chain : Chain) (payload : EscrowPaymentPayload) where
  check_calldata_of-SignsOffer :
      (found : Option CommitAction)
      → commit_action payload.payload.action ≡ found
      → check_calldata_of payload chain found ≡ none
      → SignsOffer chain payload
  check_calldata_of-SignsOffer none p h = cc
  check_calldata_of-SignsOffer (some action) p h = go _ refl h
    where
      go :
          (o : Outcome InnerActionCalldata)
          → chain.build_calldata action (
              splice payload.payload.offer_ref.full_offer payload.payload.buyer
                payload.payload.offer_ref.seller_sig)
            ≡ o
          → compare_built payload o ≡ none
          → SignsOffer chain payload
      go (thrown e) q h = cc
      go (returned calldata) q h =
          let (name, text) = (both_iff _ _ (check_same_iff _ _ _) (check_text_iff _ _ _)).0 h in
          record {
            action = action;
            is_action = p;
            calldata = calldata;
            is_calldata = q;
            function_name = name;
            function_signature = text;
          }

  check_calldata_of_SignsOffer : SignsOffer chain payload → check_calldata payload chain ≡ none
  unfolding check_calldata
  check_calldata_of_SignsOffer s =
      rw (s.is_action, s.is_calldata)
        ((both_iff _ _ (check_same_iff _ _ _) (check_text_iff _ _ _)).1
          (s.function_name, s.function_signature))

  pub check_calldata_iff : (check_calldata payload chain ≡ none) ↔ SignsOffer chain payload
  unfolding check_calldata
  check_calldata_iff = (check_calldata_of-SignsOffer _ refl, check_calldata_of_SignsOffer)

  module _ (chain_id : ℕ) (requirements : EscrowPaymentRequirements) where
    abbrev Recovers : Type 0
    Recovers =
        (signature : String) × (encode_rsv payload.payload.meta_tx.sig ≡ some signature)
        × (recovered : String) × (chain.recover_signer chain_id requirements.escrow_address
              payload.payload.meta_tx signature
            ≡ returned recovered)
        × SameText recovered payload.payload.buyer

    recovers_of_check :
        (encoded : Option String)
        → encode_rsv payload.payload.meta_tx.sig ≡ encoded
        → check_recovery payload chain chain_id requirements encoded ≡ none
        → Recovers
    recovers_of_check none p h = cc
    recovers_of_check (some signature) p h = go _ refl h
      where
        go :
            (o : Outcome String)
            → chain.recover_signer chain_id requirements.escrow_address payload.payload.meta_tx
                signature
              ≡ o
            → compare_signer payload o ≡ none
            → Recovers
        go (thrown e) q h = cc
        go (returned recovered) q h =
            (signature, p, recovered, q, (check_text_iff recovered payload.payload.buyer _).0 h)

    check_recovery_iff :
        (check_recovery payload chain chain_id requirements (encode_rsv payload.payload.meta_tx.sig)
          ≡ none)
        ↔ Recovers
    check_recovery_iff = (
      recovers_of_check _ refl,
      λ (signature, p, recovered, q, text).
          rw (p, q) ((check_text_iff recovered payload.payload.buyer _).1 text),
    )

    pub check_signer_iff :
        (check_signer payload chain chain_id requirements ≡ none)
        ↔ SignedByBuyer chain chain_id payload requirements
    unfolding check_signer
    check_signer_iff =
        let (go, back) = both_iff _ _ (check_text_iff _ _ _) check_recovery_iff in
        (
          λ h.
              let (sender, found) = go h in
              let (signature, p, recovered, q, text) = found in
              record {
                sender = sender;
                signature = signature;
                is_signature = p;
                recovered = recovered;
                is_recovered = q;
                signer = text;
              },
          λ s.
              back (s.sender, (s.signature, s.is_signature, s.recovered, s.is_recovered, s.signer)),
        )
