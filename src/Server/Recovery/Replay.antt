-- ===== src/Server/Recovery/Replay.antt =====
-- What a replay leaves behind.
use mathlib.Core.Path.{subst}
use x402b.Prelude.{
  String, Option, none, some, List, get, get-put_self, get-remove_self, find?, ◌==◌, string_eq, ◌≡◌,
  ap, sym,
}
use x402b.Effects.{Eff, Outcome, returned, thrown, error_message}
use x402b.Server.State.{
  FulfillmentResult, RedeemFulfillmentChannel, Phase, FulfillmentRecoveryEntry, ServerState,
  outside, set_recovery, delete_recovery,
}
use x402b.Server.Delivery.Kept.{
  Kept, Kept-trans, set_recovery-Kept, delete_recovery-Kept, outside-Kept,
}
use x402b.Server.Recovery.{
  ReplayResult, ok, failed, keep_entry, after_step, replay_delivery, replay_phase, replay_with,
  replay_entry, replay,
}

module _ {W : Type 0} (exchange_id : String) where
  -- The entry is gone if the replay is a success, and has the reason for its error otherwise.
  abbrev pub EntryAfter : FulfillmentRecoveryEntry → ReplayResult → ServerState W → Type 0
  EntryAfter entry ok s = get s.recovery exchange_id ≡ none
  EntryAfter entry (failed reason) s =
      get s.recovery exchange_id ≡ some (record entry { error = some reason })

module _ {W : Type 0} (channels : List (RedeemFulfillmentChannel W)) (exchange_id : String) where
  -- The result of a part of the replay of an entry that started at a state.
  abbrev Comes : FulfillmentRecoveryEntry → ServerState W → ReplayResult × ServerState W → Type 0
  Comes entry s result =
      Kept exchange_id s result.1 × EntryAfter exchange_id entry result.0 result.1

  keep_entry_lem :
      (entry : FulfillmentRecoveryEntry) (reason : String) (s : ServerState W)
      → Comes entry s (keep_entry channels exchange_id entry reason s)
  unfolding keep_entry set_recovery
  keep_entry_lem entry reason s =
      (set_recovery-Kept exchange_id s _, get-put_self s.recovery exchange_id _)

  after_step_lem :
      {A : Type 0} (entry : FulfillmentRecoveryEntry) (o : Outcome A) (s : ServerState W)
      → Comes entry s (after_step channels exchange_id entry o s)
  unfolding after_step delete_recovery
  after_step_lem entry (returned a) s =
      (delete_recovery-Kept exchange_id s, get-remove_self s.recovery exchange_id)
  after_step_lem entry (thrown e) s = keep_entry_lem entry (error_message e) s

  stepped :
      {A : Type 0} (entry : FulfillmentRecoveryEntry) (m : Eff W A) (s : ServerState W)
      → Comes entry s (after_step channels exchange_id entry (outside m s).0 (outside m s).1)
  stepped entry m s =
      let (kept, left) = after_step_lem entry (outside m s).0 (outside m s).1 in
      (Kept-trans exchange_id s (outside m s).1 _ (outside-Kept exchange_id m s) kept, left)

  replay_delivery_lem :
      (on_fulfill : Option (String → Eff W FulfillmentResult)) (entry : FulfillmentRecoveryEntry)
      (s : ServerState W)
      → Comes entry s (replay_delivery channels exchange_id on_fulfill entry s)
  unfolding replay_delivery
  replay_delivery_lem none entry s = keep_entry_lem entry _ s
  replay_delivery_lem (some on_fulfill) entry s = stepped entry (on_fulfill exchange_id) s

  replay_phase_lem :
      (channel : RedeemFulfillmentChannel W) (phase : Phase) (entry : FulfillmentRecoveryEntry)
      (s : ServerState W)
      → Comes entry s (replay_phase channels exchange_id channel phase entry s)
  unfolding replay_phase
  replay_phase_lem channel Phase.delivery entry s = replay_delivery_lem channel.on_fulfill entry s
  replay_phase_lem channel Phase.commit entry s =
      stepped entry (channel.on_commit exchange_id entry.data_) s

  replay_with_lem :
      (found : Option (RedeemFulfillmentChannel W)) (entry : FulfillmentRecoveryEntry)
      (s : ServerState W)
      → Comes entry s (replay_with channels exchange_id found entry s)
  unfolding replay_with
  replay_with_lem none entry s = keep_entry_lem entry _ s
  replay_with_lem (some channel) entry s = replay_phase_lem channel entry.phase entry s

  -- A replay keeps the option store and the entries of the other exchanges. Without an entry it
  -- changes nothing and fails; with one it either succeeds and removes the entry, or fails and keeps
  -- the entry as it was but for the error, which is the reason of the failure.
  pub replay_lem :
      (s : ServerState W)
      → ((get s.recovery exchange_id ≡ none)
          → replay channels exchange_id s ≡ (failed "no pending recovery entry", s))
        × ((entry : FulfillmentRecoveryEntry)
            → get s.recovery exchange_id ≡ some entry
            → Kept exchange_id s (replay channels exchange_id s).1
              × EntryAfter exchange_id entry
                  (replay channels exchange_id s).0
                  (replay channels exchange_id s).1)
  unfolding replay replay_entry
  replay_lem s = (
    λ p. ap (λ e. replay_entry channels exchange_id e s) p,
    λ entry p.
        subst (λ e. Comes entry s (replay_entry channels exchange_id e s)) (sym p)
          (replay_with_lem (find? (λ c. c.id == entry.option) channels) entry s),
  )
