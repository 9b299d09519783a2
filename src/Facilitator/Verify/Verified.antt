-- ===== src/Facilitator/Verify/Verified.antt =====
-- What `verify` has checked when it accepts.
use x402b.Prelude.{
  ℕ, String, Option, none, some, ◌≡◌, refl, ap, SameText, same_text, same_text_iff, Bool-cases, inl,
  inr,
}
use x402b.Effects.{Outcome, returned, thrown}
use x402b.Wire.{TokenAuthStrategy, BosonTokenAuth}
use x402b.Facilitator.{invalid_payload, FacilitatorVerifyInput, StepResult, ok, rejected}
use x402b.Facilitator.Config.{FacilitatorConfig, after_step, caught, then_step-ok, ◌then_step◌}
use x402b.Facilitator.Structural.{parse_chain_id}
use x402b.Facilitator.MetaTx.{verify_meta_tx_signature}
use x402b.Facilitator.MetaTx.Signed.{SignedByBuyer, verify_meta_tx_signature_iff}
use x402b.Facilitator.TokenAuth.Signed.{Authorised, verify_token_auth_signature-Authorised}
use x402b.Facilitator.Envelope.Simulated.{Simulated, simulate-Simulated}
use x402b.Facilitator.Verify.{
  check_structure, allowlisted, token_auth_args, check_token_auth, check_meta_tx,
  check_payment_auth, simulate, check_at, with_escrow, with_relayer, with_chain, verify,
}
use x402b.Facilitator.Verify.Structure.{WellFormed, check_structure_iff}

module _ {W : Type 0} (config : FacilitatorConfig W) (input : FacilitatorVerifyInput) where
  -- The authorisation that the strategy asks for, if it asks for one that is there.
  abbrev pub HasTokenAuth : ℕ → String → TokenAuthStrategy → Option BosonTokenAuth → W → W → Type 0
  HasTokenAuth chain_id escrow TokenAuthStrategy.none auth w w' = w ≡ w'
  HasTokenAuth chain_id escrow strategy none w w' = w ≡ w'
  HasTokenAuth chain_id escrow strategy (some auth) w w' =
      Authorised config.libraries config.public_client
        (token_auth_args config input chain_id escrow) auth w w'

  -- The payment is well formed, for the operator's escrow on the network; the buyer signed it for
  -- that escrow and chain, and authorised the transfer of the amount to that escrow; and the call
  -- that settles it passed when the relayer simulated it.
  pub record Verified (w w' : W) : Type 0 where
    pub well_formed : WellFormed config input
    pub chain_id : ℕ
    pub is_chain : parse_chain_id input.network ≡ some chain_id
    pub relayer : String
    pub is_relayer : config.wallet_client.account ≡ some relayer
    pub escrow : String
    pub is_allowed : allowlisted config input.network ≡ some escrow
    pub same_escrow : SameText input.requirements.escrow_address escrow
    pub signed :
        SignedByBuyer config.libraries chain_id escrow input.payload.payload.meta_tx
          input.payload.payload.buyer
    pub before_call : W
    pub authorised :
        HasTokenAuth chain_id escrow input.payload.payload.token_auth_strategy
          input.payload.payload.token_auth w before_call
    pub simulated :
        Simulated config.libraries config.public_client relayer escrow input.payload.payload.buyer
          input.payload.payload.meta_tx input.payload.payload.action
          input.payload.payload.token_auth_strategy input.payload.payload.token_auth before_call w'

  check_token_auth-ok :
      (chain_id : ℕ) (escrow : String) (strategy : TokenAuthStrategy) (auth : Option BosonTokenAuth)
      (w w' : W)
      → check_token_auth config input chain_id escrow strategy auth w ≡ (returned ok, w')
      → HasTokenAuth chain_id escrow strategy auth w w'
  check_token_auth-ok chain_id escrow TokenAuthStrategy.none auth w w' h = ap (λ z. z.1) h
  check_token_auth-ok chain_id escrow TokenAuthStrategy.erc3009 none w w' h = ap (λ z. z.1) h
  check_token_auth-ok chain_id escrow TokenAuthStrategy.permit none w w' h = ap (λ z. z.1) h
  check_token_auth-ok chain_id escrow TokenAuthStrategy.permit2 none w w' h = ap (λ z. z.1) h
  check_token_auth-ok chain_id escrow TokenAuthStrategy.erc3009 (some auth) w w' h =
      verify_token_auth_signature-Authorised _ _ _ auth w w' h
  check_token_auth-ok chain_id escrow TokenAuthStrategy.permit (some auth) w w' h =
      verify_token_auth_signature-Authorised _ _ _ auth w w' h
  check_token_auth-ok chain_id escrow TokenAuthStrategy.permit2 (some auth) w w' h =
      verify_token_auth_signature-Authorised _ _ _ auth w w' h

  module _ (structure : WellFormed config input) where
    check_at-Verified :
        (chain_id : ℕ) (relayer escrow : String) (w w' : W)
        → parse_chain_id input.network ≡ some chain_id
        → config.wallet_client.account ≡ some relayer
        → allowlisted config input.network ≡ some escrow
        → SameText input.requirements.escrow_address escrow
        → check_at config input chain_id relayer escrow w ≡ (returned ok, w')
        → Verified w w'
    unfolding check_at
    check_at-Verified chain_id relayer escrow w w' p q r s h =
        let (u, signed, rest) =
          then_step-ok (check_meta_tx config input chain_id escrow)
            (check_payment_auth config input chain_id escrow
              then_step simulate config input relayer escrow)
            w h in
        let (v, authorised, simulated) =
          then_step-ok (check_payment_auth config input chain_id escrow)
            (simulate config input relayer escrow) u rest in
        let here : w ≡ u = ap (λ z. z.1) signed in
        let step : verify_meta_tx_signature config.libraries chain_id escrow
              input.payload.payload.meta_tx input.payload.payload.buyer
            ≡ returned ok =
          ap (λ z. z.0) signed in
        record {
          well_formed = structure;
          chain_id = chain_id;
          is_chain = p;
          relayer = relayer;
          is_relayer = q;
          escrow = escrow;
          is_allowed = r;
          same_escrow = s;
          signed = (verify_meta_tx_signature_iff config.libraries chain_id escrow _ _).0 step;
          before_call = v;
          authorised = check_token_auth-ok chain_id escrow _ _ w v (rw here authorised);
          simulated = simulate-Simulated _ _ _ _ _ _ _ _ _ v w' simulated;
        }

    with_escrow-Verified :
        (chain_id : ℕ) (relayer : String) (o : Option String) (w w' : W)
        → parse_chain_id input.network ≡ some chain_id
        → config.wallet_client.account ≡ some relayer
        → allowlisted config input.network ≡ o
        → with_escrow config input chain_id relayer o w ≡ (returned ok, w')
        → Verified w w'
    with_escrow-Verified chain_id relayer none w w' p q r h = cc (ap (λ z. z.0) h)
    with_escrow-Verified chain_id relayer (some escrow) w w' p q r h =
        elim (Bool-cases (same_text input.requirements.escrow_address escrow)) [
          | inl e ↦
              check_at-Verified chain_id relayer escrow w w' p q r
                ((same_text_iff input.requirements.escrow_address escrow).0 e) (rw e at h)
          | inr e ↦
              let wrong : ◌≡◌ {A = Outcome StepResult × W} (returned (rejected invalid_payload), w)
                  (returned ok, w') =
                rw e at h in
              cc (ap (λ z. z.0) wrong)
        ]

    with_relayer-Verified :
        (chain_id : ℕ) (o : Option String) (w w' : W)
        → parse_chain_id input.network ≡ some chain_id
        → config.wallet_client.account ≡ o
        → with_relayer config input chain_id o w ≡ (returned ok, w')
        → Verified w w'
    with_relayer-Verified chain_id none w w' p q h = cc (ap (λ z. z.0) h)
    with_relayer-Verified chain_id (some relayer) w w' p q h =
        with_escrow-Verified chain_id relayer _ w w' p q refl h

    with_chain-Verified :
        (o : Option ℕ) (w w' : W)
        → parse_chain_id input.network ≡ o
        → with_chain config input o w ≡ (returned ok, w')
        → Verified w w'
    with_chain-Verified none w w' p h = cc (ap (λ z. z.0) h)
    with_chain-Verified (some chain_id) w w' p h = with_relayer-Verified chain_id _ w w' p refl h

  after_structure :
      (r : StepResult) (w w' : W)
      → check_structure config input ≡ r
      → after_step (returned r) (with_chain config input (parse_chain_id input.network)) w
        ≡ (returned ok, w')
      → Verified w w'
  after_structure (rejected code) w w' p h = cc (ap (λ z. z.0) h)
  after_structure ok w w' p h =
      with_chain-Verified ((check_structure_iff config input).0 p) _ w w' refl h

  caught-ok :
      (r : Outcome StepResult × W) (w' : W)
      → ◌≡◌ {A = StepResult × W} (caught r.0, r.1) (ok, w')
      → r ≡ (returned ok, w')
  caught-ok (thrown e, u) w' h = cc (ap (λ z. z.0) h)
  caught-ok (returned r, u) w' h = λ i. (returned (ap (λ z. z.0) h i), ap (λ z. z.1) h i)

  -- When `verify` accepts a payment, the payload and the requirements fit their schemas, one another
  -- and a supported network; the escrow is the operator's for that network; the buyer signed the
  -- offer's calldata for that escrow and chain; any token authorisation is the buyer's, for the
  -- amount, to that escrow, and within its window; and the settling call passed in simulation.
  pub verify-Verified : (w w' : W) → verify config input w ≡ (ok, w') → Verified w w'
  unfolding verify
  verify-Verified w w' h = after_structure _ w w' refl (caught-ok _ w' h)
