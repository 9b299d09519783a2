-- ===== src/Facilitator/Perform/Performed.antt =====
-- What `performAction` has done when it gives a transaction.
use mathlib.Core.Path.{subst}
use x402b.Prelude.{
  ◌∙◌, ℕ, String, List, Option, none, some, true, ◌≡◌, refl, ap, sym, SameText, same_text,
  same_text_iff, Bool-cases, inl, inr, Memᴰ, string_eq,
}
use x402b.Effects.{Outcome, returned, thrown}
use x402b.Machine.{ActionId, on_exchange, withdraw_funds}
use x402b.Wire.{BosonMetaTx}
use x402b.Facilitator.{
  FacilitatorErrorCode, invalid_payload, FacilitatorPerformActionInput,
  FacilitatorPerformActionResult, exchange_ok, entity_ok, StepResult, ok, rejected,
}
use x402b.Facilitator.Config.{
  FacilitatorConfig, TransferAuthorization, Receipt, SubmitResult, sent, caught,
}
use x402b.Facilitator.Structural.{parse_chain_id}
use x402b.Facilitator.Verify.{allowlisted}
use x402b.Facilitator.Settle.{hash_of, receipt_of}
use x402b.Facilitator.Perform.Checks.{CallsAction, CheckedAt, check_request-ok, check_at-CheckedAt}
use x402b.Facilitator.Perform.{
  strategy_of, check_token_auth_shape, check_request, check_at, transfer_authorizations,
  derive_new_state, answer_performed, after_submit, submit_lifted, submit, after_checks,
  with_relayer, with_chain, with_escrow, with_request, with_meta_tx, perform_action,
}

-- The transaction of a result that is no rejection.
abbrev pub transaction_of : FacilitatorPerformActionResult → Option String
transaction_of (exchange_ok hash state dispute) = some hash
transaction_of (entity_ok hash) = some hash
transaction_of (FacilitatorPerformActionResult.rejected code) = none

module _ {W : Type 0} (config : FacilitatorConfig W) (input : FacilitatorPerformActionInput) where
  -- The signed payload is the requested action on the requested key, for the operator's escrow of a
  -- supported network; its signer is its sender; it passed the checks; and it was submitted once to
  -- that escrow, and succeeded.
  pub record Performed (w : W) (hash : String) (w' : W) : Type 0 where
    pub m : BosonMetaTx
    pub decoded : config.libraries.decode_signed_payload input.signed_payload ≡ returned m
    pub supported : Memᴰ input.network config.supported_networks
    pub calls : CallsAction config input input.action m
    pub shape : check_token_auth_shape input ≡ ok
    pub escrow : String
    pub is_allowed : allowlisted config input.network ≡ some escrow
    pub same_escrow : SameText input.escrow_address escrow
    pub chain_id : ℕ
    pub is_chain : parse_chain_id input.network ≡ some chain_id
    pub relayer : String
    pub is_relayer : config.wallet_client.account ≡ some relayer
    pub checked : W
    pub checks : CheckedAt config input chain_id relayer escrow m w checked
    pub authorizations : Option (List TransferAuthorization)
    pub lifted :
        transfer_authorizations config input
          (strategy_of input.token_auth_strategy)
          input.token_auth
        ≡ returned authorizations
    pub submitted : W
    pub is_submitted :
        config.wallet_client.execute_meta_transaction m.from escrow m authorizations checked
        ≡ (sent hash, submitted)
    pub receipt : Receipt
    pub received :
        config.public_client.wait_for_transaction_receipt hash submitted ≡ (returned receipt, w')
    pub succeeded : receipt.success ≡ true

  derive_new_state-transaction :
      (action : ActionId) (hash : String)
      → transaction_of (derive_new_state config input action hash) ≡ some hash
  unfolding derive_new_state
  derive_new_state-transaction withdraw_funds hash = refl
  derive_new_state-transaction (on_exchange action) hash = refl

  -- A rejection has no transaction.
  refused :
      {A : Type 0} (code : FacilitatorErrorCode) (u : W) (result : FacilitatorPerformActionResult)
      (hash : String) (w' : W)
      → ◌≡◌ {A = FacilitatorPerformActionResult × W}
          (FacilitatorPerformActionResult.rejected code, u)
          (result, w')
      → transaction_of result ≡ some hash
      → A
  refused code u result hash w' h p =
      let same : FacilitatorPerformActionResult.rejected code ≡ result = ap (λ z. z.0) h in
      let wrong : ◌≡◌ {A = Option String} none (some hash) = ap transaction_of same ∙ p in cc

  received-transaction :
      (hash hash' : String) (r : Outcome Receipt × W) (result : FacilitatorPerformActionResult)
      (w' : W)
      → ◌≡◌ {A = FacilitatorPerformActionResult × W}
          (answer_performed config input hash' (receipt_of config r.0), r.1)
          (result, w')
      → transaction_of result ≡ some hash
      → (receipt : Receipt) × (r ≡ (returned receipt, w'))
        × (receipt.success ≡ true)
        × (result ≡ derive_new_state config input input.action hash)
        × (hash' ≡ hash)
  received-transaction hash hash' (thrown e, u) result w' h p = refused _ u result hash w' h p
  received-transaction hash hash' (returned receipt, u) result w' h p =
      elim (Bool-cases receipt.success) [
        | inl e ↦
            let same : derive_new_state config input input.action hash' ≡ result =
              rw e at (ap (λ z. z.0) h) in
            let known : ◌≡◌ {A = Option String} (some hash') (some hash) =
              sym (derive_new_state-transaction input.action hash')
              ∙ (ap transaction_of same ∙ p) in
            let hashes : hash' ≡ hash = cc in
            (
              receipt,
              (λ i. (returned receipt, ap (λ z. z.1) h i)),
              e,
              rw (← hashes) (sym same),
              hashes,
            )
        | inr e ↦ refused FacilitatorErrorCode.onchain_revert u result hash w' (rw e at h) p
      ]

  -- A result with a transaction comes from a submission that succeeded.
  after_submit-transaction :
      (r : SubmitResult × W) (result : FacilitatorPerformActionResult) (hash : String) (w' : W)
      → after_submit config input (hash_of config r.0) r.1 ≡ (result, w')
      → transaction_of result ≡ some hash
      → (submitted : W) × (receipt : Receipt) × (r ≡ (sent hash, submitted))
        × (config.public_client.wait_for_transaction_receipt hash submitted
            ≡ (returned receipt, w'))
        × (receipt.success ≡ true)
        × (result ≡ derive_new_state config input input.action hash)
  after_submit-transaction (SubmitResult.failed e, u) result hash w' h p =
      refused _ u result hash w' h p
  after_submit-transaction (sent hash', u) result hash w' h p =
      let (receipt, received, succeeded, same, hashes) =
        received-transaction hash hash' (config.public_client.wait_for_transaction_receipt hash' u)
          result w' h p in
      (
        u,
        receipt,
        (λ i. (sent (hashes i), u)),
        subst (λ x. config.public_client.wait_for_transaction_receipt x u ≡ (returned receipt, w'))
            hashes received,
        succeeded,
        same,
      )

  module _ (w : W) (result : FacilitatorPerformActionResult) (hash : String) (w' : W)
      (found : transaction_of result ≡ some hash) where
    -- What a run is to have done.
    abbrev Done : Type 0
    Done = Performed w hash w' × (result ≡ derive_new_state config input input.action hash)

    module _ (m : BosonMetaTx)
        (decoded : config.libraries.decode_signed_payload input.signed_payload ≡ returned m)
        (supported : Memᴰ input.network config.supported_networks)
        (calls : CallsAction config input input.action m)
        (shape : check_token_auth_shape input ≡ ok) where
      module _ (escrow : String) (is_allowed : allowlisted config input.network ≡ some escrow)
          (same_escrow : SameText input.escrow_address escrow) (chain_id : ℕ)
          (is_chain : parse_chain_id input.network ≡ some chain_id) (relayer : String)
          (is_relayer : config.wallet_client.account ≡ some relayer) (checked : W)
          (checks : CheckedAt config input chain_id relayer escrow m w checked) where
        submit_lifted-Performed :
            (o : Outcome (Option (List TransferAuthorization)))
            → transfer_authorizations config input
                (strategy_of input.token_auth_strategy)
                input.token_auth
              ≡ o
            → submit_lifted config input escrow m o checked ≡ (result, w')
            → Done
        submit_lifted-Performed (thrown e) p h = refused _ checked result hash w' h found
        submit_lifted-Performed (returned authorizations) p h =
            let (submitted, receipt, is_submitted, received, succeeded, same) =
              after_submit-transaction
                (config.wallet_client.execute_meta_transaction m.from escrow m authorizations
                  checked)
                result hash w' h found in
            (
              record {
                m = m;
                decoded = decoded;
                supported = supported;
                calls = calls;
                shape = shape;
                escrow = escrow;
                is_allowed = is_allowed;
                same_escrow = same_escrow;
                chain_id = chain_id;
                is_chain = is_chain;
                relayer = relayer;
                is_relayer = is_relayer;
                checked = checked;
                checks = checks;
                authorizations = authorizations;
                lifted = p;
                submitted = submitted;
                is_submitted = is_submitted;
                receipt = receipt;
                received = received;
                succeeded = succeeded;
              },
              same,
            )

        submit-Performed :
            (o : Outcome (Unit {0})) → submit config input escrow m o checked ≡ (result, w') → Done
        submit-Performed (thrown e) h = refused _ checked result hash w' h found
        submit-Performed (returned u) h = submit_lifted-Performed _ refl h

      module _ (escrow : String) (is_allowed : allowlisted config input.network ≡ some escrow)
          (same_escrow : SameText input.escrow_address escrow) where
        with_relayer-Performed :
            (chain_id : ℕ) (o : Option String)
            → parse_chain_id input.network ≡ some chain_id
            → config.wallet_client.account ≡ o
            → with_relayer config input chain_id escrow m o w ≡ (result, w')
            → Done
        with_relayer-Performed chain_id none p q h = refused _ w result hash w' h found
        with_relayer-Performed chain_id (some relayer) p q h =
            go (check_at config input chain_id relayer escrow m w) refl h
          where
            go :
                (r : Outcome StepResult × W)
                → check_at config input chain_id relayer escrow m w ≡ r
                → after_checks config input chain_id escrow m (caught r.0) r.1 ≡ (result, w')
                → Done
            go (thrown e, u) s k = refused _ u result hash w' k found
            go (returned (rejected code), u) s k = refused _ u result hash w' k found
            go (returned ok, u) s k =
                submit-Performed escrow is_allowed same_escrow chain_id p relayer q u
                  (check_at-CheckedAt config input chain_id relayer escrow m w u s) _ k

        with_chain-Performed :
            (o : Option ℕ)
            → parse_chain_id input.network ≡ o
            → with_chain config input escrow m o w ≡ (result, w')
            → Done
        with_chain-Performed none p h = refused _ w result hash w' h found
        with_chain-Performed (some chain_id) p h = with_relayer-Performed chain_id _ p refl h

      with_escrow-Performed :
          (o : Option String)
          → allowlisted config input.network ≡ o
          → with_escrow config input m o w ≡ (result, w')
          → Done
      with_escrow-Performed none p h = refused _ w result hash w' h found
      with_escrow-Performed (some escrow) p h =
          elim (Bool-cases (same_text input.escrow_address escrow)) [
            | inl e ↦
                with_chain-Performed escrow p ((same_text_iff input.escrow_address escrow).0 e) _
                  refl (rw e at h)
            | inr e ↦ refused invalid_payload w result hash w' (rw e at h) found
          ]

    with_request-Performed :
        (m : BosonMetaTx) (r : StepResult)
        → config.libraries.decode_signed_payload input.signed_payload ≡ returned m
        → check_request config input m ≡ r
        → with_request config input m r w ≡ (result, w')
        → Done
    with_request-Performed m (rejected code) p q h = refused code w result hash w' h found
    with_request-Performed m ok p q h =
        let (supported, (calls, shape)) = check_request-ok config input m q in
        with_escrow-Performed m p supported calls shape _ refl h

    with_meta_tx-Performed :
        (o : Outcome BosonMetaTx)
        → config.libraries.decode_signed_payload input.signed_payload ≡ o
        → with_meta_tx config input o w ≡ (result, w')
        → Done
    with_meta_tx-Performed (thrown e) p h = refused _ w result hash w' h found
    with_meta_tx-Performed (returned m) p h = with_request-Performed m _ p refl h

  -- When `performAction` gives a transaction, the signed payload decodes to the requested action on
  -- the requested key, on a supported network with the operator's escrow; its signer is its sender,
  -- who authorised the declared transfer if a strategy is declared; it passed in simulation; it was
  -- submitted once, to that escrow, and succeeded; and the state that is answered is the one that the
  -- action leads to.
  pub perform_action-Performed :
      (w : W) (result : FacilitatorPerformActionResult) (hash : String) (w' : W)
      → perform_action config input w ≡ (result, w')
      → transaction_of result ≡ some hash
      → Performed w hash w' × (result ≡ derive_new_state config input input.action hash)
  unfolding perform_action
  perform_action-Performed w result hash w' h found =
      with_meta_tx-Performed w result hash w' found _ refl h
