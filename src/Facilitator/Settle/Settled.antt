-- ===== src/Facilitator/Settle/Settled.antt =====
-- What `settle` has done when it gives an exchange id.
use x402b.Prelude.{
  ℕ, String, List, [], ◌∷◌, Option, none, some, true, ◌≡◌, refl, ap, Bool-cases, inl, inr,
}
use x402b.Effects.{Outcome, returned, thrown}
use x402b.Wire.{TokenAuthStrategy, BosonTokenAuth}
use x402b.Facilitator.{
  FacilitatorErrorCode, invalid_payload, FacilitatorSettleInput, FacilitatorSettleResult, settled,
  StepResult,
}
use x402b.Facilitator.Config.{FacilitatorConfig, Receipt, SubmitResult, sent}
use x402b.Facilitator.Envelope.{
  TxRequest, build_settle_calldata, build_bpip12_calldata, lacks_token_auth,
}
use x402b.Facilitator.Envelope.Target.{build_bpip12_calldata-to}
use x402b.Facilitator.Verify.{verify}
use x402b.Facilitator.Verify.Verified.{Verified, verify-Verified}
use x402b.Facilitator.Settle.{
  Checked, good, bad, hash_of, receipt_of, submit_plain, send_built, submit, answer_settled,
  after_submit, settle_on, after_verify, settle, extract_exchange_id, create_facilitator_core_sdk,
}

module _ {W : Type 0} (config : FacilitatorConfig W) (input : FacilitatorSettleInput) where
  -- core-sdk's submission of the buyer's meta-transaction to the escrow.
  abbrev pub SentPlain : String → W → W → Type 0
  SentPlain hash w w' =
      config.wallet_client.execute_meta_transaction input.payload.payload.buyer
        input.requirements.escrow_address input.payload.payload.meta_tx none w
      ≡ (sent hash, w')

  -- The relayer's transaction to the escrow, with the envelope that carries an authorisation.
  pub record SentEnvelope (auth : BosonTokenAuth) (hash : String) (w w' : W) : Type 0 where
    pub tx : TxRequest
    pub built :
        build_bpip12_calldata config.libraries input.requirements.escrow_address
          input.payload.payload.buyer input.payload.payload.meta_tx input.payload.payload.action
          auth
        ≡ returned tx
    pub to_escrow : tx.to ≡ input.requirements.escrow_address
    pub account : String
    pub is_account : config.wallet_client.account ≡ some account
    pub is_sent :
        config.wallet_client.send_transaction account tx.to tx.calldata w ≡ (sent hash, w')

  abbrev pub Submitted : TokenAuthStrategy → Option BosonTokenAuth → String → W → W → Type 0
  Submitted TokenAuthStrategy.none auth hash w w' = SentPlain hash w w'
  Submitted strategy none hash w w' = ⊥
  Submitted strategy (some auth) hash w w' = SentEnvelope auth hash w w'

  -- The payment was verified, submitted to the escrow once, and succeeded there; the id is that of
  -- the first `BuyerCommitted` event of its receipt.
  pub record Settled (w : W) (exchange_id hash : String) (w' : W) : Type 0 where
    pub checked : W
    pub verified : Verified config input w checked
    pub submitted : W
    pub is_submitted :
        Submitted input.payload.payload.token_auth_strategy input.payload.payload.token_auth hash
          checked submitted
    pub receipt : Receipt
    pub received :
        config.public_client.wait_for_transaction_receipt hash submitted ≡ (returned receipt, w')
    pub succeeded : receipt.success ≡ true
    pub id : ℕ
    pub later : List (Option ℕ)
    pub committed : receipt.buyer_committed ≡ some id ∷ later
    pub is_id : exchange_id ≡ config.libraries.to_text id

  hash_of-good :
      (r : SubmitResult × W) (hash : String) (w' : W)
      → ◌≡◌ {A = Checked String × W} (hash_of config r.0, r.1) (good hash, w')
      → r ≡ (sent hash, w')
  hash_of-good (sent h, u) hash w' e =
      let p : ◌≡◌ {A = Checked String} (good h) (good hash) = ap (λ z. z.0) e in
      let same : h ≡ hash = cc in λ i. (sent (same i), ap (λ z. z.1) e i)
  hash_of-good (SubmitResult.failed c, u) hash w' e = cc (ap (λ z. z.0) e)

  submit_plain-good :
      (o : Outcome (Unit {0})) (hash : String) (w w' : W)
      → submit_plain config input o w ≡ (good hash, w')
      → SentPlain hash w w'
  submit_plain-good (thrown e) hash w w' h = cc (ap (λ z. z.0) h)
  submit_plain-good (returned u) hash w w' h = hash_of-good _ hash w' h

  send_built-good :
      (auth : BosonTokenAuth) (o : Outcome TxRequest) (account : Option String) (hash : String)
      (w w' : W)
      → build_bpip12_calldata config.libraries input.requirements.escrow_address
          input.payload.payload.buyer input.payload.payload.meta_tx input.payload.payload.action
          auth
        ≡ o
      → config.wallet_client.account ≡ account
      → send_built config input o account w ≡ (good hash, w')
      → SentEnvelope auth hash w w'
  send_built-good auth (thrown e) account hash w w' p q h = cc (ap (λ z. z.0) h)
  send_built-good auth (returned tx) none hash w w' p q h = cc (ap (λ z. z.0) h)
  send_built-good auth (returned tx) (some account) hash w w' p q h = record {
    tx = tx;
    built = p;
    to_escrow = build_bpip12_calldata-to _ _ _ _ _ auth tx p;
    account = account;
    is_account = q;
    is_sent = hash_of-good _ hash w' h;
  }

  submit-good :
      (chain_id : ℕ) (strategy : TokenAuthStrategy) (auth : Option BosonTokenAuth) (hash : String)
      (w w' : W)
      → submit config input chain_id strategy auth w ≡ (good hash, w')
      → Submitted strategy auth hash w w'
  unfolding build_settle_calldata
  submit-good chain_id TokenAuthStrategy.none auth hash w w' h =
      submit_plain-good (create_facilitator_core_sdk config chain_id) hash w w' h
  submit-good chain_id TokenAuthStrategy.erc3009 none hash w w' h = cc (ap (λ z. z.0) h)
  submit-good chain_id TokenAuthStrategy.permit none hash w w' h = cc (ap (λ z. z.0) h)
  submit-good chain_id TokenAuthStrategy.permit2 none hash w w' h = cc (ap (λ z. z.0) h)
  submit-good chain_id TokenAuthStrategy.erc3009 (some auth) hash w w' h =
      send_built-good auth _ _ hash w w' refl refl h
  submit-good chain_id TokenAuthStrategy.permit (some auth) hash w w' h =
      send_built-good auth _ _ hash w w' refl refl h
  submit-good chain_id TokenAuthStrategy.permit2 (some auth) hash w w' h =
      send_built-good auth _ _ hash w w' refl refl h

  extracted :
      (events : List (Option ℕ)) (receipt : Receipt) (exchange_id hash hash' : String)
      → receipt.buyer_committed ≡ events
      → answer_settled config input hash' (good receipt) ≡ settled exchange_id hash
      → (id : ℕ) × (later : List (Option ℕ)) × (events ≡ some id ∷ later)
        × (exchange_id ≡ config.libraries.to_text id)
        × (hash' ≡ hash)
  unfolding extract_exchange_id
  extracted [] receipt exchange_id hash hash' p h =
      let wrong : FacilitatorSettleResult.rejected FacilitatorErrorCode.event_not_found
          ≡ settled exchange_id hash =
        rw p at h in
      cc
  extracted (none ∷ later) receipt exchange_id hash hash' p h =
      let wrong : FacilitatorSettleResult.rejected FacilitatorErrorCode.event_not_found
          ≡ settled exchange_id hash =
        rw p at h in
      cc
  extracted (some id ∷ later) receipt exchange_id hash hash' p h =
      let right : settled (config.libraries.to_text id) hash' ≡ settled exchange_id hash =
        rw p at h in
      (id, later, refl, cc, cc)

  received-good :
      (r : Outcome Receipt × W) (exchange_id hash hash' : String) (w' : W)
      → ◌≡◌ {A = FacilitatorSettleResult × W}
          (answer_settled config input hash' (receipt_of config r.0), r.1)
          (settled exchange_id hash, w')
      → (receipt : Receipt) × (r ≡ (returned receipt, w'))
        × (receipt.success ≡ true)
        × (answer_settled config input hash' (good receipt) ≡ settled exchange_id hash)
  unfolding extract_exchange_id
  received-good (thrown e, u) exchange_id hash hash' w' h = cc (ap (λ z. z.0) h)
  received-good (returned receipt, u) exchange_id hash hash' w' h =
      elim (Bool-cases receipt.success) [
        | inl e ↦
            (receipt, (λ i. (returned receipt, ap (λ z. z.1) h i)), e, rw e at (ap (λ z. z.0) h))
        | inr e ↦
            let wrong : FacilitatorSettleResult.rejected FacilitatorErrorCode.onchain_revert
                ≡ settled exchange_id hash =
              rw e at (ap (λ z. z.0) h) in
            cc
      ]

  after_submit-Settled :
      (r : Checked String × W) (w checked : W) (exchange_id hash : String) (w' : W)
      → Verified config input w checked
      → ((hash : String) (u : W)
          → r ≡ (good hash, u)
          → Submitted input.payload.payload.token_auth_strategy input.payload.payload.token_auth
              hash checked u)
      → after_submit config input r.0 r.1 ≡ (settled exchange_id hash, w')
      → Settled w exchange_id hash w'
  after_submit-Settled (bad code, u) w checked exchange_id hash w' v k h = cc (ap (λ z. z.0) h)
  after_submit-Settled (good hash', u) w checked exchange_id hash w' v k h =
      let (receipt, received, succeeded, answered) =
        received-good (config.public_client.wait_for_transaction_receipt hash' u) exchange_id hash
          hash' w' h in
      let (id, later, committed, is_id, same) =
        extracted receipt.buyer_committed receipt exchange_id hash hash' refl answered in
      record {
        checked = checked;
        verified = v;
        submitted = u;
        is_submitted = k hash u (λ i. (good (same i), u));
        receipt = receipt;
        received = rw (← same) received;
        succeeded = succeeded;
        id = id;
        later = later;
        committed = committed;
        is_id = is_id;
      }

  settle_on-Settled :
      (o : Option ℕ) (w checked : W) (exchange_id hash : String) (w' : W)
      → Verified config input w checked
      → settle_on config input o checked ≡ (settled exchange_id hash, w')
      → Settled w exchange_id hash w'
  settle_on-Settled none w checked exchange_id hash w' v h = cc (ap (λ z. z.0) h)
  settle_on-Settled (some chain_id) w checked exchange_id hash w' v h =
      after_submit-Settled _ w checked exchange_id hash w' v
        (λ hash u. submit-good chain_id _ _ hash checked u) h

  after_verify-Settled :
      (r : StepResult × W) (w : W) (exchange_id hash : String) (w' : W)
      → verify config input w ≡ r
      → after_verify config input r.0 r.1 ≡ (settled exchange_id hash, w')
      → Settled w exchange_id hash w'
  after_verify-Settled (StepResult.rejected code, u) w exchange_id hash w' p h =
      cc (ap (λ z. z.0) h)
  after_verify-Settled (StepResult.ok, u) w exchange_id hash w' p h =
      let v = verify-Verified config input w u p in
      elim (Bool-cases (
        lacks_token_auth input.payload.payload.token_auth_strategy
          input.payload.payload.token_auth)) [
            | inl e ↦
                let wrong : ◌≡◌ {A = FacilitatorSettleResult × W}
                    (FacilitatorSettleResult.rejected invalid_payload, u)
                    (settled exchange_id hash, w') =
                  rw e at h in
                cc (ap (λ z. z.0) wrong)
            | inr e ↦ settle_on-Settled _ w u exchange_id hash w' v (rw e at h)
          ]

  -- When `settle` gives an exchange id, the payment was verified, and then submitted once, to the
  -- escrow of the requirements, which is the operator's; its transaction succeeded; and the id is that
  -- of the first `BuyerCommitted` event in its receipt.
  pub settle-Settled :
      (w : W) (exchange_id hash : String) (w' : W)
      → settle config input w ≡ (settled exchange_id hash, w')
      → Settled w exchange_id hash w'
  unfolding settle
  settle-Settled w exchange_id hash w' h = after_verify-Settled _ w exchange_id hash w' refl h
