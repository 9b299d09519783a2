-- ===== src/Server/Delivery/Owed.antt =====
-- No delivery is lost: what is not delivered is on record.
use x402b.Prelude.{
  Dict, Option, is_some, sym, true, ℕ, String, none, some, List, [], ◌∷◌, get, get-put_self,
  get-remove_self, ◌≡◌, refl, ◌⊎◌, inl, inr,
}
use x402b.Effects.{Eff, Outcome, returned, thrown, error_message}
use x402b.Server.State.{
  FulfillmentResult, RedeemFulfillmentChannel, Phase, FulfillmentRecoveryEntry, ServerState,
  set_recovery, delete_recovery, WarningCode, HandlerWarning,
}
use x402b.Server.Delivery.{outside, dispatch, after_commit, hand_over, Delivered, after_fulfill}
use x402b.Server.Delivery.Kept.{
  outside-Kept, Kept-trans, Kept, set_recovery-Kept, delete_recovery-Kept,
}

-- Nothing is owed: there is no warning and no entry, and a channel that delivers has delivered.
pub record Done {W : Type 0} (exchange_id : String) (channel : RedeemFulfillmentChannel W)
    (d : Delivered) (recovery : Dict FulfillmentRecoveryEntry) : Type 0 where
  pub no_warning : d.warnings ≡ []
  pub no_entry : get recovery exchange_id ≡ none
  pub delivered : is_some d.delivery ≡ is_some channel.on_fulfill

-- The delivery is owed: a warning says why, and an entry holds what a replay needs.
pub record Owed (exchange_id : String) (pending : FulfillmentRecoveryEntry) (phase : Phase)
    (code : WarningCode) (d : Delivered) (recovery : Dict FulfillmentRecoveryEntry) : Type 0 where
  pub entry : FulfillmentRecoveryEntry
  pub recorded : get recovery exchange_id ≡ some entry
  pub option : entry.option ≡ pending.option
  pub data_ : entry.data_ ≡ pending.data_
  pub redeemer : entry.redeemer ≡ pending.redeemer
  pub is_phase : entry.phase ≡ phase
  pub warning : HandlerWarning
  pub only : d.warnings ≡ warning ∷ []
  pub is_code : warning.code ≡ code
  pub error : entry.error ≡ some warning.error
  pub undelivered : d.delivery ≡ none

-- What handing over comes to: it is done, or owed from the step that failed on.
abbrev pub Settled :
    {W : Type 0}
    → String
    → RedeemFulfillmentChannel W
    → WarningCode
    → FulfillmentRecoveryEntry
    → Delivered
    → Dict FulfillmentRecoveryEntry
    → Type 0
Settled exchange_id channel code pending d recovery =
    Done exchange_id channel d recovery
    ⊎ (Owed exchange_id pending Phase.commit code d recovery
        ⊎ ((is_some channel.on_fulfill ≡ true)
            × Owed exchange_id pending Phase.delivery WarningCode.fulfillment_delivery_deferred d
                recovery))

module _ {W : Type 0} (now : W → ℕ) (base64 : List ℕ → String)
    (channel : RedeemFulfillmentChannel W) (exchange_id : String) (code : WarningCode) where
  -- The result of a part of the hand-over that started at a state.
  abbrev Comes : FulfillmentRecoveryEntry → ServerState W → Delivered × ServerState W → Type 0
  Comes first s result =
      Kept exchange_id s result.1
      × Settled exchange_id channel code first result.0 result.1.recovery

  Kept-then :
      (first : FulfillmentRecoveryEntry) (a b : ServerState W) (result : Delivered × ServerState W)
      → Kept exchange_id a b
      → Comes first b result
      → Comes first a result
  Kept-then first a b result k (l, settled) = (Kept-trans exchange_id a b result.1 k l, settled)

  after_fulfill_lem :
      (first : FulfillmentRecoveryEntry) (at : ℕ) (o : Outcome FulfillmentResult)
      (s : ServerState W)
      → is_some channel.on_fulfill ≡ true
      → Comes first s (
          after_fulfill now base64 channel exchange_id
            (record first { phase = Phase.delivery; recorded_at = at })
            o
            s)
  unfolding after_fulfill delete_recovery set_recovery
  after_fulfill_lem first at (returned result) s p = (
    delete_recovery-Kept exchange_id s,
    inl (record {
      no_warning = refl;
      no_entry = get-remove_self s.recovery exchange_id;
      delivered = sym p;
    }),
  )
  after_fulfill_lem first at (thrown e) s p = (
    set_recovery-Kept exchange_id s _,
    inr (
        inr (
          p,
          record {
            entry = record first {
              phase = Phase.delivery;
              recorded_at = at;
              error = some (error_message e);
            };
            recorded = get-put_self s.recovery exchange_id _;
            option = refl;
            data_ = refl;
            redeemer = refl;
            is_phase = refl;
            warning = record {
              code = WarningCode.fulfillment_delivery_deferred;
              error = error_message e;
            };
            only = refl;
            is_code = refl;
            error = refl;
            undelivered = refl;
          },
        )),
  )

  dispatch_lem :
      (on_fulfill : Option (String → Eff W FulfillmentResult))
      → channel.on_fulfill ≡ on_fulfill
      → (first : FulfillmentRecoveryEntry) (s : ServerState W)
      → Comes first s (dispatch now base64 channel exchange_id on_fulfill first s)
  unfolding dispatch delete_recovery
  dispatch_lem none p first s = (
    delete_recovery-Kept exchange_id s,
    inl (record {
      no_warning = refl;
      no_entry = get-remove_self s.recovery exchange_id;
      delivered = rw p refl;
    }),
  )
  dispatch_lem (some on_fulfill) p first s =
      let at = now s.outside in
      let entry = record first { phase = Phase.delivery; recorded_at = at } in
      let run = outside (on_fulfill exchange_id) (set_recovery exchange_id entry s) in
      Kept-then first s (set_recovery exchange_id entry s)
        (after_fulfill now base64 channel exchange_id entry run.0 run.1)
        (set_recovery-Kept exchange_id s entry)
        (Kept-then first (set_recovery exchange_id entry s) run.1
          (after_fulfill now base64 channel exchange_id entry run.0 run.1)
          (outside-Kept exchange_id (on_fulfill exchange_id) _)
          (after_fulfill_lem first at run.0 run.1 (rw p refl)))

  after_commit_lem :
      (first : FulfillmentRecoveryEntry) (o : Outcome (Unit {0})) (s : ServerState W)
      → first.phase ≡ Phase.commit
      → Comes first s (after_commit now base64 channel exchange_id code first o s)
  unfolding after_commit set_recovery
  after_commit_lem first (returned u) s p = dispatch_lem channel.on_fulfill refl first s
  after_commit_lem first (thrown e) s p = (
    set_recovery-Kept exchange_id s _,
    inr (
        inl (record {
          entry = record first { error = some (error_message e) };
          recorded = get-put_self s.recovery exchange_id _;
          option = refl;
          data_ = refl;
          redeemer = refl;
          is_phase = p;
          warning = record { code = code; error = error_message e };
          only = refl;
          is_code = refl;
          error = refl;
          undelivered = refl;
        })),
  )

  -- Handing the data of a redeemed exchange over to its channel either delivers, leaving no warning
  -- and no recovery entry, or leaves one warning and an entry with the option, the data, the redeemer
  -- and the error, in the phase that failed. The option store and the entries of the other exchanges
  -- stay as they were.
  pub hand_over_lem :
      (pending : FulfillmentRecoveryEntry) (s : ServerState W)
      → pending.phase ≡ Phase.commit
      → Kept exchange_id s (hand_over now base64 channel exchange_id code pending s).1
        × Settled exchange_id channel code pending
            (hand_over now base64 channel exchange_id code pending s).0
            (hand_over now base64 channel exchange_id code pending s).1.recovery
  unfolding hand_over
  hand_over_lem pending s p =
      let run =
        outside (channel.on_commit exchange_id pending.data_)
          (set_recovery exchange_id pending s) in
      Kept-then pending s (set_recovery exchange_id pending s)
        (after_commit now base64 channel exchange_id code pending run.0 run.1)
        (set_recovery-Kept exchange_id s pending)
        (Kept-then pending (set_recovery exchange_id pending s) run.1
          (after_commit now base64 channel exchange_id code pending run.0 run.1)
          (outside-Kept exchange_id (channel.on_commit exchange_id pending.data_) _)
          (after_commit_lem pending run.0 run.1 p))
