-- ===== src/Facilitator/MetaTx/Signed.antt =====
-- Whose meta-transaction verifyMetaTxSignature accepts.
use x402b.Prelude.{
  ℕ, String, true, ◌≡◌, ◌↔◌, ◌⊎◌, refl, ap, SameText, arith, nat_eq, inl, inr, Bool-cases,
}
use x402b.Effects.{Outcome, returned, thrown}
use x402b.Wire.{BosonMetaTx}
use x402b.Facilitator.{FacilitatorErrorCode, ok}
use x402b.Facilitator.Config.{Libraries, TypedMessage}
use x402b.Facilitator.Structural.Accepts.{both_iff, same_texts_iff}
use x402b.Facilitator.MetaTx.{
  RecoverMetaTxSignerResult, signer, unrecovered, is_legacy_v, meta_tx_signature, recovered_or_not,
  recover_from_typed_data, recover_meta_tx_signer, check_recovered, verify_meta_tx_signature,
}

module _ (lib : Libraries) (chain_id : ℕ) (escrow : String) (m : BosonMetaTx) where
  -- `address` signed the message as a transaction of the escrow on the chain.
  pub record SignedBy (message : TypedMessage) (address : String) : Type 0 where
    pub legacy : (m.sig.v ≡ 27) ⊎ (m.sig.v ≡ 28)
    pub recover : (signature : String) → Outcome String
    pub typed : lib.typed_data chain_id escrow m.nonce m.from message ≡ returned recover
    pub recovers : recover (meta_tx_signature m) ≡ returned address

  pub legacy_cases : (v : ℕ) → (is_legacy_v v ≡ true) ↔ ((v ≡ 27) ⊎ (v ≡ 28))
  legacy_cases v = ground arith

  recovered-signer :
      (o : Outcome String) (address : String)
      → recovered_or_not o ≡ signer address
      → o ≡ returned address
  recovered-signer (returned a) address h = cc
  recovered-signer (thrown e) address h = cc

  typed-signer :
      (o : Outcome (String → Outcome String)) (address : String)
      → recover_from_typed_data o (meta_tx_signature m) ≡ returned (signer address)
      → (recover : (signature : String) → Outcome String) × (o ≡ returned recover)
        × (recover (meta_tx_signature m) ≡ returned address)
  typed-signer (thrown e) address h = cc
  typed-signer (returned recover) address h =
      let same : recovered_or_not (recover (meta_tx_signature m)) ≡ signer address = cc in
      (recover, refl, recovered-signer (recover (meta_tx_signature m)) address same)

  -- The message of the basic primary type.
  abbrev pub basic_message : TypedMessage
  basic_message = TypedMessage.meta_transaction m.function_name m.function_signature

  pub SignedBy-of_recovery :
      (message : TypedMessage) (address : String)
      → is_legacy_v m.sig.v ≡ true
      → recover_from_typed_data
          (lib.typed_data chain_id escrow m.nonce m.from message)
          (meta_tx_signature m)
        ≡ returned (signer address)
      → SignedBy message address
  SignedBy-of_recovery message address v h =
      let (recover, typed, recovers) = typed-signer _ address h in
      record {
        legacy = (legacy_cases m.sig.v).0 v;
        recover = recover;
        typed = typed;
        recovers = recovers;
      }

  pub recover_meta_tx_signer-signer :
      (address : String)
      → recover_meta_tx_signer lib chain_id escrow m ≡ returned (signer address)
      → SignedBy basic_message address
  unfolding recover_meta_tx_signer
  recover_meta_tx_signer-signer address h = elim (Bool-cases (is_legacy_v m.sig.v)) [
    | inl v ↦ SignedBy-of_recovery basic_message address v (rw v at h)
    | inr v ↦
        let wrong : ◌≡◌ {A = Outcome RecoverMetaTxSignerResult} (returned unrecovered)
            (returned (signer address)) =
          rw v at h in
        cc
  ]

  -- The recovered signer is the buyer, and so is the sender.
  pub record SignedByBuyer (buyer : String) : Type 0 where
    pub address : String
    pub signed : SignedBy basic_message address
    pub is_buyer : SameText address buyer
    pub from_buyer : SameText m.from buyer

  check_recovered-ok :
      (buyer : String) (o : Outcome RecoverMetaTxSignerResult)
      → check_recovered lib chain_id escrow m buyer o ≡ returned ok
      → (address : String) × (o ≡ returned (signer address))
        × SameText address buyer
        × SameText m.from buyer
  check_recovered-ok buyer (thrown e) h = cc
  check_recovered-ok buyer (returned unrecovered) h = cc
  check_recovered-ok buyer (returned (signer address)) h =
      let (p, q) =
        (both_iff _ _ (same_texts_iff address buyer FacilitatorErrorCode.bad_meta_tx_signature)
            (same_texts_iff m.from buyer FacilitatorErrorCode.bad_meta_tx_signature)).0
          (cc) in
      (address, refl, p, q)

  pub verify_meta_tx_signature_iff :
      (buyer : String)
      → (verify_meta_tx_signature lib chain_id escrow m buyer ≡ returned ok) ↔ SignedByBuyer buyer
  unfolding verify_meta_tx_signature recover_meta_tx_signer
  verify_meta_tx_signature_iff buyer = (
    λ h.
        let (address, p, q, r) = check_recovered-ok buyer _ h in
        record {
          address = address;
          signed = recover_meta_tx_signer-signer address p;
          is_buyer = q;
          from_buyer = r;
        },
    λ x. rw ((legacy_cases m.sig.v).1 x.signed.legacy) (
        rw x.signed.typed (
          rw x.signed.recovers (
            ap returned (
              (both_iff _ _
                  (same_texts_iff x.address buyer FacilitatorErrorCode.bad_meta_tx_signature)
                  (same_texts_iff m.from buyer FacilitatorErrorCode.bad_meta_tx_signature)).1
                (x.is_buyer, x.from_buyer))))),
  )
