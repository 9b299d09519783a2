-- ===== src/Facilitator/Envelope/Target.antt =====
-- Where the call of an envelope goes.
use x402b.Prelude.{String, ◌≡◌, refl, sym, ap}
use x402b.Effects.{Outcome, returned, thrown}
use x402b.Wire.{BosonMetaTx, BosonTokenAuth}
use x402b.Facilitator.Config.{Libraries}
use x402b.Facilitator.Hex.{pack_rsv}
use x402b.Facilitator.Envelope.{TxRequest, ◌>>=◌, build_bpip12_queue, build_bpip12_calldata}

bind-returned :
    {A B : Type 0} (o : Outcome A) (f : A → Outcome B) {b : B}
    → (o >>= f) ≡ returned b
    → (a : A) × (o ≡ returned a) × (f a ≡ returned b)
bind-returned (returned a) f h = (a, refl, h)
bind-returned (thrown e) f h = cc

module _ (lib : Libraries) (escrow user : String) (m : BosonMetaTx) (action : String) where
  -- The envelope of a token authorisation is a call of the escrow.
  pub build_bpip12_calldata-to :
      (auth : BosonTokenAuth) (tx : TxRequest)
      → build_bpip12_calldata lib escrow user m action auth ≡ returned tx
      → tx.to ≡ escrow
  unfolding build_bpip12_calldata
  build_bpip12_calldata-to auth tx h =
      let (nonce, p, h₁) = bind-returned (lib.big_int m.nonce) _ h in
      let (queue, q, h₂) = bind-returned (build_bpip12_queue lib action auth) _ h₁ in
      let (calldata, r, h₃) =
        bind-returned
          (lib.encode_token_envelope user m.function_name m.function_signature nonce
            (pack_rsv m.sig.r m.sig.s m.sig.v) queue)
          _ h₂ in
      let same : ◌≡◌ {A = TxRequest} (record { to = escrow; calldata = calldata }) tx = cc in
      sym (ap (λ t. t.to) same)
