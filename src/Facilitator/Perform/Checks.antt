-- ===== src/Facilitator/Perform/Checks.antt =====
-- What the checks of `performAction` accept.
use mathlib.Core.Path.{subst}
use x402b.Prelude.{
  ℕ, String, Option, none, some, false, ◌≡◌, refl, ap, sym, SameText, Memᴰ, string_eq,
}
use x402b.Effects.{Outcome, returned, thrown}
use x402b.Machine.{
  is_entity_keyed_action, ExchangeActionId, ActionId, on_exchange, withdraw_funds, action_name,
}
use x402b.Wire.{BosonMetaTx, TokenAuthStrategy}
use x402b.Facilitator.{network_mismatch, bad_meta_tx_signature, FacilitatorPerformActionInput, ok}
use x402b.Facilitator.Config.{FacilitatorConfig, ◌then_step◌, then_step-ok}
use x402b.Facilitator.Structural.Accepts.{
  both_iff, trans_iff, holds_iff, includes_iff, same_texts_iff,
}
use x402b.Facilitator.MetaTx.{
  RecoverMetaTxSignerResult, signer, unrecovered, recover_action_meta_tx_signer,
}
use x402b.Facilitator.TokenAuth.{VerifyTokenAuthSignatureArgs}
use x402b.Facilitator.TokenAuth.Signed.{Authorised, verify_token_auth_signature-Authorised}
use x402b.Facilitator.Envelope.Simulated.{Simulated, simulate-Simulated}
use x402b.Facilitator.Calldata.{post_commit_exchange_function, entity_action_function}
use x402b.Facilitator.Calldata.Matching.{
  Calls, validate_perform_exchange_iff, validate_perform_entity_iff,
}
use x402b.Facilitator.Perform.{
  strategy_of, TokenTerms, terms, check_token_auth_shape, check_calldata, check_request,
  check_signer, verify_terms, check_token_auth, check_meta_tx, check_action_auth, simulate,
  check_at,
}

entity_keyed-on_exchange :
    (action : ExchangeActionId) → is_entity_keyed_action (action_name (on_exchange action)) ≡ false
unfolding is_entity_keyed_action
entity_keyed-on_exchange ExchangeActionId.redeem = refl
entity_keyed-on_exchange action = refl

module _ {W : Type 0} (config : FacilitatorConfig W) (input : FacilitatorPerformActionInput) where
  -- The function of the action, by its kind.
  abbrev pub CallsAction : ActionId → BosonMetaTx → Type 0
  CallsAction withdraw_funds m =
      Calls config.libraries (entity_action_function withdraw_funds) input.key m
  CallsAction (on_exchange action) m =
      Calls config.libraries (post_commit_exchange_function (on_exchange action)) input.key m

  abbrev pub args_at : ℕ → String → BosonMetaTx → TokenTerms → VerifyTokenAuthSignatureArgs
  args_at chain_id escrow m t = record {
    chain_id = chain_id;
    asset = t.asset;
    amount = t.amount;
    max_timeout_seconds = t.max_timeout_seconds;
    buyer = m.from;
    escrow_address = escrow;
  }

  -- Under a strategy, the signer authorised the declared terms.
  abbrev pub TermsOf : ℕ → String → BosonMetaTx → Option TokenTerms → W → W → Type 0
  TermsOf chain_id escrow m none w w' = ⊥
  TermsOf chain_id escrow m (some t) w w' =
      Authorised config.libraries config.public_client (args_at chain_id escrow m t) t.auth w w'

  abbrev pub HasActionAuth : ℕ → String → BosonMetaTx → TokenAuthStrategy → W → W → Type 0
  HasActionAuth chain_id escrow m TokenAuthStrategy.none w w' = w ≡ w'
  HasActionAuth chain_id escrow m strategy w w' = TermsOf chain_id escrow m (terms input) w w'

  -- The checks on the signatures and the simulation, at the escrow.
  pub record CheckedAt (chain_id : ℕ) (relayer escrow : String) (m : BosonMetaTx) (w w' : W)
      : Type 0 where
    pub address : String
    pub recovered :
        recover_action_meta_tx_signer config.libraries chain_id escrow m input.action
        ≡ returned (signer address)
    pub is_signer : SameText address m.from
    pub before_call : W
    pub authorised :
        HasActionAuth chain_id escrow m (strategy_of input.token_auth_strategy) w before_call
    pub simulated :
        Simulated config.libraries config.public_client relayer escrow m.from m
          (action_name input.action)
          (strategy_of input.token_auth_strategy)
          input.token_auth
          before_call
          w'

  check_calldata-ok :
      (action : ActionId) (m : BosonMetaTx)
      → check_calldata config input action m ≡ ok
      → CallsAction action m
  unfolding is_entity_keyed_action
  check_calldata-ok withdraw_funds m h =
      (validate_perform_entity_iff config.libraries withdraw_funds input.key m).0 h
  check_calldata-ok (on_exchange action) m h =
      (validate_perform_exchange_iff config.libraries (on_exchange action) input.key m).0
        (rw (entity_keyed-on_exchange action) at h)

  pub check_request-ok :
      (m : BosonMetaTx)
      → check_request config input m ≡ ok
      → Memᴰ input.network config.supported_networks
        × (CallsAction input.action m × (check_token_auth_shape input ≡ ok))
  unfolding check_request
  check_request-ok m h =
      let (supported, rest) =
        (both_iff _ _
            (trans_iff (holds_iff _ network_mismatch)
              (includes_iff config.supported_networks input.network))
            ((λ x. x), (λ x. x))).0
          h in
      let (calls, shape) =
        (both_iff (check_calldata config input input.action m) (check_token_auth_shape input)
            ((λ x. x), (λ x. x)) ((λ x. x), (λ x. x))).0
          rest in
      (supported, (check_calldata-ok input.action m calls, shape))

  verify_terms-Authorised :
      (chain_id : ℕ) (escrow : String) (m : BosonMetaTx) (o : Option TokenTerms) (w w' : W)
      → verify_terms config input chain_id escrow m o w ≡ (returned ok, w')
      → TermsOf chain_id escrow m o w w'
  verify_terms-Authorised chain_id escrow m none w w' h = cc (ap (λ z. z.0) h)
  verify_terms-Authorised chain_id escrow m (some t) w w' h =
      verify_token_auth_signature-Authorised _ _ _ t.auth w w' h

  check_token_auth-ok :
      (chain_id : ℕ) (escrow : String) (m : BosonMetaTx) (strategy : TokenAuthStrategy) (w w' : W)
      → check_token_auth config input chain_id escrow m strategy w ≡ (returned ok, w')
      → HasActionAuth chain_id escrow m strategy w w'
  check_token_auth-ok chain_id escrow m TokenAuthStrategy.none w w' h = ap (λ z. z.1) h
  check_token_auth-ok chain_id escrow m TokenAuthStrategy.erc3009 w w' h =
      verify_terms-Authorised chain_id escrow m _ w w' h
  check_token_auth-ok chain_id escrow m TokenAuthStrategy.permit w w' h =
      verify_terms-Authorised chain_id escrow m _ w w' h
  check_token_auth-ok chain_id escrow m TokenAuthStrategy.permit2 w w' h =
      verify_terms-Authorised chain_id escrow m _ w w' h

  check_signer-ok :
      (m : BosonMetaTx) (o : Outcome RecoverMetaTxSignerResult)
      → check_signer config input m o ≡ returned ok
      → (address : String) × (o ≡ returned (signer address)) × SameText address m.from
  check_signer-ok m (thrown e) h = cc
  check_signer-ok m (returned unrecovered) h = cc
  check_signer-ok m (returned (signer address)) h =
      (address, refl, (same_texts_iff address m.from bad_meta_tx_signature).0 (cc))

  pub check_at-CheckedAt :
      (chain_id : ℕ) (relayer escrow : String) (m : BosonMetaTx) (w w' : W)
      → check_at config input chain_id relayer escrow m w ≡ (returned ok, w')
      → CheckedAt chain_id relayer escrow m w w'
  unfolding check_at
  check_at-CheckedAt chain_id relayer escrow m w w' h =
      let (u, signed, rest) =
        then_step-ok (check_meta_tx config input chain_id escrow m)
          (check_action_auth config input chain_id escrow m
            then_step simulate config input relayer escrow m)
          w h in
      let (v, authorised, simulated) =
        then_step-ok (check_action_auth config input chain_id escrow m)
          (simulate config input relayer escrow m) u rest in
      let here : w ≡ u = ap (λ z. z.1) signed in
      let (address, p, q) = check_signer-ok m _ (ap (λ z. z.0) signed) in
      record {
        address = address;
        recovered = p;
        is_signer = q;
        before_call = v;
        authorised =
            subst (λ x. HasActionAuth chain_id escrow m (strategy_of input.token_auth_strategy) x v)
              (sym here) (check_token_auth-ok chain_id escrow m _ u v authorised);
        simulated = simulate-Simulated _ _ _ _ _ _ _ _ _ v w' simulated;
      }
