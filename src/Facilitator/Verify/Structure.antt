-- ===== src/Facilitator/Verify/Structure.antt =====
-- What the steps of `verify` before the chain id accept.
use x402b.Prelude.{map, true, ◌≡◌, ◌↔◌, Memᴰ, SameText, string_eq}
use x402b.Wire.{strategy_eq}
use x402b.Wire.Schemas.{escrow_payment_payload_schema, escrow_payment_requirements_schema}
use x402b.Facilitator.{FacilitatorErrorCode, FacilitatorVerifyInput, ok}
use x402b.Facilitator.Config.{FacilitatorConfig}
use x402b.Facilitator.Structural.{
  validate_payload_structure, validate_requirements_structure, validate_scheme,
  validate_network_match, validate_action_in_requirements, validate_offer_ref_matches_requirements,
  validate_token_auth_strategy_in_requirements, canonical_json,
}
use x402b.Facilitator.Structural.Accepts.{
  both_iff, trans_iff, equal_texts_iff, same_texts_iff, holds_iff, includes_iff, EncodesOffer,
  FitsStrategy, match_strategy_iff, validate_meta_tx_calldata_iff,
}
use x402b.Facilitator.Verify.{check_structure}

module _ {W : Type 0} (config : FacilitatorConfig W) (input : FacilitatorVerifyInput) where
  -- The payload and the requirements agree, and fit the schemas, the networks and one another.
  pub record WellFormed : Type 0 where
    pub supported : Memᴰ input.network config.supported_networks
    pub payload_fits : escrow_payment_payload_schema input.payload ≡ true
    pub requirements_fit :
        escrow_payment_requirements_schema config.libraries.is_datetime input.requirements ≡ true
    pub scheme : input.scheme ≡ "escrow"
    pub payload_scheme : input.payload.scheme ≡ "escrow"
    pub payload_network : input.network ≡ input.payload.network
    pub requirements_network : input.network ≡ input.requirements.network
    pub advertised :
        Memᴰ input.payload.payload.action (map (λ entry. entry.id) input.requirements.actions.next)
    pub same_offer :
        canonical_json config.libraries input.payload.payload.offer_ref.full_offer
        ≡ canonical_json config.libraries input.requirements.offer.full_offer
    pub same_seller_sig :
        SameText input.payload.payload.offer_ref.seller_sig input.requirements.offer.seller_sig
    pub encodes_offer : EncodesOffer config.libraries input.payload input.requirements
    pub strategy_allowed :
        Memᴰ input.payload.payload.token_auth_strategy input.requirements.token_auth_strategies
    pub fits_strategy :
        FitsStrategy input.payload.payload.token_auth_strategy input.payload.payload.token_auth

  -- The checks before the chain is asked pass exactly when the network is supported, the payload and
  -- the requirements fit their schemas and that network, the action is an offered one, the payload
  -- repeats the offer and its seller's signature, its meta-transaction encodes that offer, and the
  -- strategy is an allowed one and has the authorisation that it needs.
  pub check_structure_iff : (check_structure config input ≡ ok) ↔ WellFormed
  unfolding check_structure validate_payload_structure validate_requirements_structure
      validate_scheme validate_network_match validate_action_in_requirements
      validate_offer_ref_matches_requirements validate_token_auth_strategy_in_requirements
  check_structure_iff =
      let steps =
        both_iff _ _
          (trans_iff (holds_iff _ FacilitatorErrorCode.network_mismatch)
            (includes_iff config.supported_networks input.network))
          (both_iff _ _ (holds_iff _ FacilitatorErrorCode.invalid_payload) (
            both_iff _ _ (holds_iff _ FacilitatorErrorCode.invalid_payload) (
              both_iff _ _
                (both_iff _ _ (equal_texts_iff _ _ FacilitatorErrorCode.scheme_mismatch)
                  (equal_texts_iff _ _ FacilitatorErrorCode.scheme_mismatch))
                (both_iff _ _
                  (both_iff _ _ (equal_texts_iff _ _ FacilitatorErrorCode.network_mismatch)
                    (equal_texts_iff _ _ FacilitatorErrorCode.network_mismatch))
                  (both_iff _ _
                    (trans_iff (holds_iff _ FacilitatorErrorCode.action_not_in_requirements)
                      (includes_iff _ input.payload.payload.action))
                    (both_iff _ _
                      (both_iff _ _ (equal_texts_iff _ _ FacilitatorErrorCode.invalid_payload)
                        (same_texts_iff _ _ FacilitatorErrorCode.invalid_payload))
                      (both_iff _ _
                        (validate_meta_tx_calldata_iff config.libraries input.payload
                          input.requirements)
                        (both_iff _ _
                          (trans_iff
                            (holds_iff _ FacilitatorErrorCode.token_auth_not_in_requirements)
                            (includes_iff _ input.payload.payload.token_auth_strategy))
                          (match_strategy_iff input.payload.payload.token_auth_strategy
                            input.payload.payload.token_auth))))))))) in
      (
        λ h.
            let (a, (b, (c, ((d, e), ((f, g), (i, ((j, k), (l, (m, n))))))))) = steps.0 h in
            record {
              supported = a;
              payload_fits = b;
              requirements_fit = c;
              scheme = d;
              payload_scheme = e;
              payload_network = f;
              requirements_network = g;
              advertised = i;
              same_offer = j;
              same_seller_sig = k;
              encodes_offer = l;
              strategy_allowed = m;
              fits_strategy = n;
            },
        λ x. steps.1 (
          x.supported,
          (
            x.payload_fits,
            (
              x.requirements_fit,
              (
                (x.scheme, x.payload_scheme),
                (
                  (x.payload_network, x.requirements_network),
                  (
                    x.advertised,
                    (
                      (x.same_offer, x.same_seller_sig),
                      (x.encodes_offer, (x.strategy_allowed, x.fits_strategy)),
                    ),
                  ),
                ),
              ),
            ),
          ),
        ),
      )
