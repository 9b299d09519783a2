-- ===== src/Client/Withdraw/Emptied.antt =====
-- What a signature that withdraws all of an entity's funds covers.
use x402b.Prelude.{
  ℕ, ◌<◌, String, List, [], ◌∷◌, map, length, Bool, true, false, ◌≡◌, ◌≢◌, refl, ap, sym, ◌∙◌, ◌⊎◌,
  inl, inr, ◌==◌, string_eq, nat_eq, ltb, arith, eq_iff, Bool-cases, if◌then◌else◌,
}
use mathlib.Core.Path.{subst}
use x402b.Effects.{Outcome, returned, thrown, error, ◌>>=◌, bind-eq-returned, pure-eq}
use x402b.Server.Entity.{CoreSdkFundsEntity}
use x402b.Client.{SignedMetaTx, parse_chain_id}
use x402b.Client.Payment.{lift}
use x402b.Client.Signed.{text, string_of, meta_tx_of}
use x402b.Client.Withdraw.{
  SignWithdrawFundsArgs, SignWithdrawAllArgs, SignedWithdrawFunds, WithdrawCoreSdk, WithdrawDeps,
  normalize_entity_id, resolve_entity_id_client_side, signed_withdrawal, after_sign,
  sign_withdraw_funds_internal, is_available, keep_if, non_zero, args_for, sign_funds,
  sign_withdraw_all_available_funds,
}

above : (n : ℕ) → ltb 0 n ≡ true → 0 < n
above n v = ground arith

none_above : (n : ℕ) → ltb 0 n ≡ false → n ≡ 0
none_above n v = ground arith

module _ {W : Type 0} (deps : WithdrawDeps W) where
  -- The funds with a positive amount, in order; the others are zero.
  pub data Kept : List CoreSdkFundsEntity → List CoreSdkFundsEntity → Type 0 where
    nothing : Kept [] []
    taken :
        (f : CoreSdkFundsEntity) (n : ℕ) (fs gs : List CoreSdkFundsEntity)
        → deps.big_int f.available_amount ≡ returned n
        → 0 < n
        → Kept fs gs
        → Kept (f ∷ fs) (f ∷ gs)
    dropped :
        (f : CoreSdkFundsEntity) (fs gs : List CoreSdkFundsEntity)
        → (f.available_amount ≡ "0") ⊎ (deps.big_int f.available_amount ≡ returned 0)
        → Kept fs gs
        → Kept (f ∷ fs) gs

  available_cases :
      (amount : String) (b : Bool)
      → is_available deps amount ≡ returned b
      → ((b ≡ true) × (n : ℕ) × (deps.big_int amount ≡ returned n) × (0 < n))
        ⊎ ((b ≡ false) × ((amount ≡ "0") ⊎ (deps.big_int amount ≡ returned 0)))
  available_cases amount b h = go (deps.big_int amount) refl h
    where
      same : {x y : Bool} → ◌≡◌ {A = Outcome Bool} (returned x) (returned y) → y ≡ x
      same k = cc

      go :
          (o : Outcome ℕ)
          → deps.big_int amount ≡ o
          → ◌≡◌ {A = Outcome Bool}
              (elim o [
                | thrown e ↦ if amount == "0" then returned false else thrown e
                | returned n ↦ returned (if amount == "0" then false else ltb 0 n)
              ])
              (returned b)
          → ((b ≡ true) × (n : ℕ) × (deps.big_int amount ≡ returned n) × (0 < n))
            ⊎ ((b ≡ false) × ((amount ≡ "0") ⊎ (deps.big_int amount ≡ returned 0)))
      go (thrown e) p k = elim (Bool-cases (amount == "0")) [
        | inl z ↦ inr (same (rw z at k), inl ((eq_iff amount "0").0 z))
        | inr z ↦ absurd (clash (rw z at k))
      ]
        where
          clash : ◌≡◌ {A = Outcome Bool} (thrown e) (returned b) → ⊥
          clash c = cc
      go (returned n) p k = elim (Bool-cases (amount == "0")) [
        | inl z ↦ inr (same (rw z at k), inl ((eq_iff amount "0").0 z))
        | inr z ↦ elim (Bool-cases (ltb 0 n)) [
          | inl v ↦ inl (same (rw (z, v) at k), n, p, above n v)
          | inr v ↦ inr (same (rw (z, v) at k), inr (p ∙ ap (λ x. returned x) (none_above n v)))
        ]
      ]

  keep_if-returned :
      (f : CoreSdkFundsEntity) (o : Outcome Bool) (rest : Outcome (List CoreSdkFundsEntity))
      (gs : List CoreSdkFundsEntity)
      → keep_if deps f o rest ≡ returned gs
      → (b : Bool) × (hs : List CoreSdkFundsEntity) × (o ≡ returned b)
        × (rest ≡ returned hs)
        × (gs ≡ (if b then f ∷ hs else hs))
  keep_if-returned f (thrown e) rest gs h = cc
  keep_if-returned f (returned b) (thrown e) gs h = cc
  keep_if-returned f (returned true) (returned hs) gs h = (true, hs, refl, refl, cc)
  keep_if-returned f (returned false) (returned hs) gs h = (false, hs, refl, refl, cc)

  non_zero-Kept : (fs gs : List CoreSdkFundsEntity) → non_zero deps fs ≡ returned gs → Kept fs gs
  non_zero-Kept [] gs h = let same : [] ≡ gs = cc in subst (Kept []) same Kept.nothing
  non_zero-Kept (f ∷ fs) gs h =
      let (b, hs, p, q, same) =
        keep_if-returned f (is_available deps f.available_amount) (non_zero deps fs) gs h in
      let rest = non_zero-Kept fs hs q in
      elim (available_cases f.available_amount b p) [
        | inl (kept, n, is_n, positive) ↦
            let whole : gs ≡ f ∷ hs = rw kept at same in
            subst (Kept (f ∷ fs)) (sym whole) (Kept.taken f n fs hs is_n positive rest)
        | inr (left, worthless) ↦
            let whole : gs ≡ hs = rw left at same in
            subst (Kept (f ∷ fs)) (sym whole) (Kept.dropped f fs hs worthless rest)
      ]

  -- core-sdk's signature for the arguments, from an address.
  pub record SignedBy (args : SignWithdrawFundsArgs) (sdk : WithdrawCoreSdk W) (from : String)
      (signed : SignedWithdrawFunds) : Type 0 where
    pub nonce : ℕ
    pub signing : W
    pub done : W
    pub by_sdk : SignedMetaTx
    pub signs :
        sdk.sign_withdraw_funds
          (deps.to_text nonce)
          args.entity_id
          args.token_list
          args.token_amounts
          signing
        ≡ (returned by_sdk, done)
    pub meta_tx : meta_tx_of deps.to_text from nonce by_sdk ≡ signed.meta_tx
    pub same_id : normalize_entity_id deps args.entity_id ≡ returned signed.entity_id
    pub tokens : args.token_list ≡ signed.token_list
    pub amounts : map (string_of deps.to_text) args.token_amounts ≡ signed.token_amounts

  pub internal-SignedBy :
      (args : SignWithdrawFundsArgs) (sdk : WithdrawCoreSdk W) (from : String) (w w' : W)
      (signed : SignedWithdrawFunds)
      → sign_withdraw_funds_internal deps args sdk from w ≡ (returned signed, w')
      → SignedBy args sdk from signed
  unfolding sign_withdraw_funds_internal
  internal-SignedBy args sdk from w w' signed h =
      elim (Bool-cases (length args.token_list == length args.token_amounts)) [
        | inl e ↦ made (rw e at h)
        | inr e ↦ absurd (refused (rw e at h))
      ]
    where
      refused :
          ◌≡◌ {A = Outcome SignedWithdrawFunds × W}
            (thrown (error "Error"), w)
            (returned signed, w')
          → ⊥
      refused k = cc (ap (λ z. z.0) k)

      made :
          (sdk.sign_withdraw_funds
                  (deps.to_text (deps.random_uint256 w).0)
                  args.entity_id
                  args.token_list
                  args.token_amounts
                >>= after_sign deps args from (deps.random_uint256 w).0)
              (deps.random_uint256 w).1
            ≡ (returned signed, w')
          → SignedBy args sdk from signed
      made k =
          let (nonce, u) = deps.random_uint256 w in
          let (m, v, signs, k1) =
            bind-eq-returned
              (sdk.sign_withdraw_funds (deps.to_text nonce) args.entity_id args.token_list
                args.token_amounts)
              (after_sign deps args from nonce) u k in
          let (id, v1, normal, k2) =
            bind-eq-returned (lift (normalize_entity_id deps args.entity_id)) _ v k1 in
          let same =
            pure-eq (signed_withdrawal deps args (meta_tx_of deps.to_text from nonce m) id) signed
              v1 w' k2 in
          record {
            nonce = nonce;
            signing = u;
            done = v;
            by_sdk = m;
            signs = signs;
            meta_tx = ap (λ x. x.meta_tx) same;
            same_id =
                ap {A = Outcome String × W} {B = Outcome String} (λ z. z.0) normal
                ∙ ap {A = SignedWithdrawFunds} {B = Outcome String} (λ x. returned x.entity_id)
                    same;
            tokens = ap (λ x. x.token_list) same;
            amounts = ap (λ x. x.token_amounts) same;
          }

  -- A signature of core-sdk for the withdrawal of all that an entity has.
  pub record Emptied (args : SignWithdrawAllArgs) (signed : SignedWithdrawFunds) : Type 0 where
    pub chain_id : ℕ
    pub is_chain : parse_chain_id args.network ≡ returned chain_id
    pub asked : W
    pub resolving : W
    pub from : String
    pub is_from : deps.get_address asked ≡ (returned from, resolving)
    pub entity_id : String
    pub reading : W
    pub resolved :
        resolve_entity_id_client_side deps
          (deps.core_sdk args.escrow_address chain_id).reader
          args.selector
          resolving
        ≡ (returned entity_id, reading)
    pub raw : List CoreSdkFundsEntity
    pub after : W
    pub read :
        (deps.core_sdk args.escrow_address chain_id).reader.get_funds entity_id reading
        ≡ (returned raw, after)
    pub funds : List CoreSdkFundsEntity
    pub kept : Kept raw funds
    pub some_left : funds ≢ []
    pub amounts : map (λ f. f.available_amount) funds ≡ signed.token_amounts
    pub signed_by :
        SignedBy
          (args_for deps args entity_id funds)
          (deps.core_sdk args.escrow_address chain_id)
          from
          signed

  string_texts :
      (fs : List CoreSdkFundsEntity)
      → map (string_of deps.to_text) (map (λ f. text f.available_amount) fs)
        ≡ map (λ f. f.available_amount) fs
  string_texts [] = refl
  string_texts (f ∷ fs) = ap (λ xs. f.available_amount ∷ xs) (string_texts fs)

  sign_funds-nonempty :
      (args : SignWithdrawAllArgs) (sdk : WithdrawCoreSdk W) (from entity_id : String)
      (funds : List CoreSdkFundsEntity) (w w' : W) (signed : SignedWithdrawFunds)
      → sign_funds deps args sdk from entity_id funds w ≡ (returned signed, w')
      → (funds ≢ [])
        × (sign_withdraw_funds_internal deps (args_for deps args entity_id funds) sdk from w
            ≡ (returned signed, w'))
  sign_funds-nonempty args sdk from entity_id [] w w' signed h = cc (ap (λ z. z.0) h)
  sign_funds-nonempty args sdk from entity_id (f ∷ fs) w w' signed h = ((λ e. cc), h)

  -- A signature for the withdrawal of all available funds is core-sdk's, from the signer's address,
  -- for the entity that the selector resolves to, on the tokens and amounts of exactly those of the
  -- entity's funds that have a positive amount; and there are such funds.
  pub sign_withdraw_all_available_funds-Emptied :
      (args : SignWithdrawAllArgs) (w w' : W) (signed : SignedWithdrawFunds)
      → sign_withdraw_all_available_funds deps args w ≡ (returned signed, w')
      → Emptied args signed
  unfolding sign_withdraw_all_available_funds
  sign_withdraw_all_available_funds-Emptied args w w' signed h =
      let (chain_id, u1, p1, h1) = bind-eq-returned (lift (parse_chain_id args.network)) _ w h in
      let sdk = deps.core_sdk args.escrow_address chain_id in
      let (from, u2, p2, h2) = bind-eq-returned deps.get_address _ u1 h1 in
      let (entity_id, u3, p3, h3) =
        bind-eq-returned (resolve_entity_id_client_side deps sdk.reader args.selector) _ u2 h2 in
      let (raw, u4, p4, h4) = bind-eq-returned (sdk.reader.get_funds entity_id) _ u3 h3 in
      let (funds, u5, p5, h5) = bind-eq-returned (lift (non_zero deps raw)) _ u4 h4 in
      let (some_left, h6) = sign_funds-nonempty args sdk from entity_id funds u5 w' signed h5 in
      let made = internal-SignedBy (args_for deps args entity_id funds) sdk from u5 w' signed h6 in
      record {
        chain_id = chain_id;
        is_chain = ap (λ z. z.0) p1;
        asked = u1;
        resolving = u2;
        from = from;
        is_from = p2;
        entity_id = entity_id;
        reading = u3;
        resolved = p3;
        raw = raw;
        after = u4;
        read = p4;
        funds = funds;
        kept = non_zero-Kept raw funds (ap (λ z. z.0) p5);
        some_left = some_left;
        amounts = sym (string_texts funds) ∙ made.amounts;
        signed_by = made;
      }
