-- ===== src/Facilitator/Envelope/Simulated.antt =====
-- What a simulation that passes has called.
use x402b.Prelude.{String, Option, false, ◌≡◌, refl, ap, Bool-cases, inl, inr}
use x402b.Effects.{Outcome, returned, thrown}
use x402b.Wire.{BosonMetaTx, BosonTokenAuth, TokenAuthStrategy}
use x402b.Facilitator.{invalid_payload, StepResult, ok, rejected}
use x402b.Facilitator.Config.{Libraries, PublicClient, CallResult, answered}
use x402b.Facilitator.Envelope.{
  TxRequest, build_settle_calldata, simulated, call_built, lacks_token_auth,
  simulate_execute_meta_transaction,
}

module _ {W : Type 0} (lib : Libraries) (client : PublicClient W) (relayer escrow user : String)
    (m : BosonMetaTx) (action : String) where
  -- The envelope was built, and its call by the relayer was answered.
  pub record Simulated (strategy : TokenAuthStrategy) (auth : Option BosonTokenAuth) (w w' : W)
      : Type 0 where
    pub tx : TxRequest
    pub built : build_settle_calldata lib escrow user m action strategy auth ≡ returned tx
    pub called : client.call relayer tx.to tx.calldata w ≡ (answered, w')

  simulated-ok :
      (r : CallResult × W) (w' : W)
      → ◌≡◌ {A = Outcome StepResult × W} (returned (simulated lib r.0), r.1) (returned ok, w')
      → r ≡ (answered, w')
  simulated-ok (answered, u) w' h = λ i. (answered, ap (λ z. z.1) h i)
  simulated-ok (CallResult.failed e, u) w' h = cc (ap (λ z. z.0) h)

  call_built-ok :
      (strategy : TokenAuthStrategy) (auth : Option BosonTokenAuth) (w w' : W)
      (o : Outcome TxRequest)
      → build_settle_calldata lib escrow user m action strategy auth ≡ o
      → call_built lib client relayer escrow user m action o w ≡ (returned ok, w')
      → Simulated strategy auth w w'
  call_built-ok strategy auth w w' (thrown e) p h = cc (ap (λ z. z.0) h)
  call_built-ok strategy auth w w' (returned tx) p h = record {
    tx = tx;
    built = p;
    called = simulated-ok _ w' h;
  }

  pub simulate-Simulated :
      (strategy : TokenAuthStrategy) (auth : Option BosonTokenAuth) (w w' : W)
      → simulate_execute_meta_transaction lib client relayer escrow user m action strategy auth w
        ≡ (returned ok, w')
      → Simulated strategy auth w w'
  unfolding simulate_execute_meta_transaction
  simulate-Simulated strategy auth w w' h = elim (Bool-cases (lacks_token_auth strategy auth)) [
    | inl e ↦
        let wrong : ◌≡◌ {A = Outcome StepResult × W} (returned (rejected invalid_payload), w)
            (returned ok, w') =
          rw e at h in
        cc (ap (λ z. z.0) wrong)
    | inr e ↦ call_built-ok strategy auth w w' _ refl (rw e at h)
  ]

  pub simulate-of_Simulated :
      (strategy : TokenAuthStrategy) (auth : Option BosonTokenAuth) (w w' : W)
      → Simulated strategy auth w w'
      → lacks_token_auth strategy auth ≡ false
      → simulate_execute_meta_transaction lib client relayer escrow user m action strategy auth w
        ≡ (returned ok, w')
  unfolding simulate_execute_meta_transaction
  simulate-of_Simulated strategy auth w w' s e = rw e (rw s.built (rw s.called))
