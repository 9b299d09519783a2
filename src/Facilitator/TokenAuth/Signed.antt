-- ===== src/Facilitator/TokenAuth/Signed.antt =====
-- Whose token authorisation is accepted.
use x402b.Prelude.{ℕ, ◌+◌, String, true, ◌≡◌, ◌↔◌, ◌≤◌, ◌<◌, ◌⊎◌, refl, ap, SameText, arith, leb}
use x402b.Effects.{Outcome, returned, thrown}
use x402b.Wire.{BosonTokenAuth}
use x402b.Facilitator.{FacilitatorErrorCode, StepResult, ok, rejected}
use x402b.Facilitator.Config.{
  Libraries, PublicClient, TokenEip712Domain, TokenMessage, reject_if, after_step,
}
use x402b.Facilitator.Structural.Accepts.{
  both_iff, trans_iff, equal_texts_iff, same_texts_iff, holds_iff,
}
use x402b.Facilitator.Hex.{pack_rsv}
use x402b.Facilitator.MetaTx.{is_legacy_v}
use x402b.Facilitator.TokenAuth.{
  VerifyTokenAuthSignatureArgs, check_terms, is_buyer, erc3009_message, permit_message,
  permit2_message, check_signer, check_signature, verify_token_auth_signature, fetch_token_domain,
}
use x402b.Facilitator.TokenAuth.Window.{validate_deadline_window_iff}

-- `v` has the legacy form.
abbrev pub IsLegacy : ℕ → Type 0
IsLegacy v = (v ≡ 27) ⊎ (v ≡ 28)

-- The time is before the deadline, by no more than the timeout.
abbrev pub Within : ℕ → ℕ → ℕ → Type 0
Within now deadline timeout = (now < deadline) × (deadline ≤ now + timeout)

module _ (args : VerifyTokenAuthSignatureArgs) where
  -- The authorisation is from the buyer to the escrow, for the amount, at a time of its window.
  abbrev pub HasTerms : BosonTokenAuth → ℕ → Type 0
  HasTerms (BosonTokenAuth.erc3009 d) now =
      IsLegacy d.v
      × (SameText d.from args.buyer
          × (SameText d.to args.escrow_address
              × ((d.value ≡ args.amount)
                  × ((d.valid_after < now) × Within now d.valid_before args.max_timeout_seconds))))
  HasTerms (BosonTokenAuth.permit d) now =
      IsLegacy d.v
      × (SameText d.owner args.buyer
          × (SameText d.spender args.escrow_address
              × ((d.value ≡ args.amount) × Within now d.deadline args.max_timeout_seconds)))
  HasTerms (BosonTokenAuth.permit2 d) now =
      SameText d.permitted.token args.asset
      × (SameText d.spender args.escrow_address
          × ((d.permitted.amount ≡ args.amount) × Within now d.deadline args.max_timeout_seconds))

  is_legacy_v_iff : (v : ℕ) → (is_legacy_v v ≡ true) ↔ IsLegacy v
  is_legacy_v_iff v = ground arith

  started_iff :
      (after now : ℕ)
      → (reject_if (leb now after) FacilitatorErrorCode.bad_token_auth_signature ≡ ok)
        ↔ (after < now)
  started_iff after now = ground arith

  pub check_terms_iff :
      (auth : BosonTokenAuth) (now : ℕ) → (check_terms args auth now ≡ ok) ↔ HasTerms auth now
  unfolding check_terms
  check_terms_iff (BosonTokenAuth.erc3009 d) now =
      both_iff _ _ (trans_iff (holds_iff _ _) (is_legacy_v_iff d.v)) (
        both_iff _ _ (same_texts_iff _ _ _) (
          both_iff _ _ (same_texts_iff _ _ _) (
            both_iff _ _ (equal_texts_iff _ _ _)
              (both_iff _ _ (started_iff _ _) (validate_deadline_window_iff _ _ _)))))
  check_terms_iff (BosonTokenAuth.permit d) now =
      both_iff _ _ (trans_iff (holds_iff _ _) (is_legacy_v_iff d.v)) (
        both_iff _ _ (same_texts_iff _ _ _) (
          both_iff _ _ (same_texts_iff _ _ _)
            (both_iff _ _ (equal_texts_iff _ _ _) (validate_deadline_window_iff _ _ _))))
  check_terms_iff (BosonTokenAuth.permit2 d) now = both_iff _ _ (same_texts_iff _ _ _) (
      both_iff _ _ (same_texts_iff _ _ _)
        (both_iff _ _ (equal_texts_iff _ _ _) (validate_deadline_window_iff _ _ _)))

module _ {W : Type 0} (lib : Libraries) (client : PublicClient W)
    (args : VerifyTokenAuthSignatureArgs) where
  -- The buyer's signature on a message is recovered.
  pub record BuyerSigned (message : TokenMessage) (signature : String) : Type 0 where
    pub address : String
    pub recovers : lib.recover_token_signer message signature ≡ returned address
    pub is_buyer : SameText address args.buyer

  -- The same on the message at the domain that the token gives.
  pub record BuyerSignedAt (message : TokenEip712Domain → TokenMessage) (signature : String)
      (w w' : W) : Type 0 where
    pub domain : TokenEip712Domain
    pub is_domain : fetch_token_domain client args.asset args.chain_id w ≡ (returned domain, w')
    pub signed : BuyerSigned (message domain) signature

  -- The signature that an authorisation carries.
  abbrev pub HasSignature : BosonTokenAuth → W → W → Type 0
  HasSignature (BosonTokenAuth.erc3009 d) w w' =
      BuyerSignedAt (erc3009_message args d) (pack_rsv d.r d.s d.v) w w'
  HasSignature (BosonTokenAuth.permit d) w w' =
      BuyerSignedAt (permit_message args d) (pack_rsv d.r d.s d.v) w w'
  HasSignature (BosonTokenAuth.permit2 d) w w' =
      BuyerSigned (permit2_message args d) d.signature × (w ≡ w')

  -- The terms hold now, and the buyer signed.
  pub record Authorised (auth : BosonTokenAuth) (w w' : W) : Type 0 where
    pub terms : HasTerms args auth (client.now_seconds w)
    pub signature : HasSignature auth w w'

  is_buyer-ok :
      (message : TokenMessage) (signature : String) (o : Outcome String)
      → lib.recover_token_signer message signature ≡ o
      → is_buyer args o ≡ ok
      → BuyerSigned message signature
  is_buyer-ok message signature (thrown e) p h = cc
  is_buyer-ok message signature (returned a) p h = record {
    address = a;
    recovers = p;
    is_buyer = (same_texts_iff a args.buyer FacilitatorErrorCode.bad_token_auth_signature).0 h;
  }

  fetched-ok :
      (message : TokenEip712Domain → TokenMessage) (signature : String)
      (r : Outcome TokenEip712Domain × W) (w w' : W)
      → fetch_token_domain client args.asset args.chain_id w ≡ r
      → ◌≡◌ {A = Outcome StepResult × W}
          (returned (check_signer lib client args message signature r.0), r.1)
          (returned ok, w')
      → BuyerSignedAt message signature w w'
  fetched-ok message signature (thrown e, u) w w' p h = cc (ap (λ z. z.0) h)
  fetched-ok message signature (returned domain, u) w w' p h =
      let q : ◌≡◌ {A = Outcome StepResult}
          (returned (is_buyer args (lib.recover_token_signer (message domain) signature)))
          (returned ok) =
        ap (λ z. z.0) h in
      let same : u ≡ w' = ap (λ z. z.1) h in
      record {
        domain = domain;
        is_domain = rw (← same) p;
        signed = is_buyer-ok (message domain) signature _ refl (cc);
      }

  check_signature-ok :
      (auth : BosonTokenAuth) (w w' : W)
      → check_signature lib client args auth w ≡ (returned ok, w')
      → HasSignature auth w w'
  check_signature-ok (BosonTokenAuth.erc3009 d) w w' h = fetched-ok _ _ _ w w' refl h
  check_signature-ok (BosonTokenAuth.permit d) w w' h = fetched-ok _ _ _ w w' refl h
  check_signature-ok (BosonTokenAuth.permit2 d) w w' h =
      let q : ◌≡◌ {A = Outcome StepResult}
          (returned (is_buyer args (lib.recover_token_signer (permit2_message args d) d.signature)))
          (returned ok) =
        ap (λ z. z.0) h in
      (is_buyer-ok _ _ _ refl (cc), ap (λ z. z.1) h)

  after_terms :
      (auth : BosonTokenAuth) (w w' : W) (r : StepResult)
      → check_terms args auth (client.now_seconds w) ≡ r
      → after_step (returned r) (check_signature lib client args auth) w ≡ (returned ok, w')
      → Authorised auth w w'
  after_terms auth w w' (rejected code) p h = cc (ap (λ z. z.0) h)
  after_terms auth w w' ok p h = record {
    terms = (check_terms_iff args auth (client.now_seconds w)).0 p;
    signature = check_signature-ok auth w w' h;
  }

  pub verify_token_auth_signature-Authorised :
      (auth : BosonTokenAuth) (w w' : W)
      → verify_token_auth_signature lib client args auth w ≡ (returned ok, w')
      → Authorised auth w w'
  unfolding verify_token_auth_signature
  verify_token_auth_signature-Authorised auth w w' h = after_terms auth w w' _ refl h
