-- ===== src/Server/Recovery.antt =====
-- `recovery.list` and `recovery.replay` of server.ts: what a host does with the recovery entries.
pub mod Replay
pub mod Replayable
mod Tests
use x402b.Prelude.{
  String, Option, none, some, List, [], ◌∷◌, get, values, find?, ◌==◌, string_eq, ℕ,
}
use x402b.Effects.{Eff, Outcome, returned, thrown, Raised, error_message}
use x402b.Server.State.{
  FulfillmentResult, RedeemFulfillmentChannel, Phase, FulfillmentRecoveryEntry, ServerState,
  outside, set_recovery, delete_recovery,
}

-- The reasons, less the ids that they quote.
pub data ReplayResult : Type 0 where
  ok : ReplayResult
  failed : (reason : String) → ReplayResult

unfoldable pub list : {W : Type 0} → ServerState W → List FulfillmentRecoveryEntry
list s = values s.recovery

module _ {W : Type 0} (channels : List (RedeemFulfillmentChannel W)) (exchange_id : String) where
  -- `fulfillmentRecoveryStore.set(exchangeId, { ...entry, error: reason })`
  unfoldable pub keep_entry :
      FulfillmentRecoveryEntry → String → ServerState W → ReplayResult × ServerState W
  unfolding set_recovery
  keep_entry entry reason s =
      (failed reason, set_recovery exchange_id (record entry { error = some reason }) s)

  -- The end of either `try`.
  unfoldable pub after_step :
      {A : Type 0}
      → FulfillmentRecoveryEntry
      → Outcome A
      → ServerState W
      → ReplayResult × ServerState W
  unfolding keep_entry delete_recovery
  after_step entry (returned a) s = (ok, delete_recovery exchange_id s)
  after_step entry (thrown e) s = keep_entry entry (error_message e) s

  unfoldable pub replay_delivery :
      Option (String → Eff W FulfillmentResult)
      → FulfillmentRecoveryEntry
      → ServerState W
      → ReplayResult × ServerState W
  unfolding keep_entry after_step outside
  replay_delivery none entry s =
      keep_entry entry "channel has no onFulfill; cannot replay delivery phase" s
  replay_delivery (some on_fulfill) entry s =
      let (o, s') = outside (on_fulfill exchange_id) s in after_step entry o s'

  unfoldable pub replay_phase :
      RedeemFulfillmentChannel W
      → Phase
      → FulfillmentRecoveryEntry
      → ServerState W
      → ReplayResult × ServerState W
  unfolding replay_delivery after_step outside
  replay_phase channel Phase.delivery entry s = replay_delivery channel.on_fulfill entry s
  replay_phase channel Phase.commit entry s =
      let (o, s') = outside (channel.on_commit exchange_id entry.data_) s in after_step entry o s'

  unfoldable pub replay_with :
      Option (RedeemFulfillmentChannel W)
      → FulfillmentRecoveryEntry
      → ServerState W
      → ReplayResult × ServerState W
  unfolding keep_entry replay_phase
  replay_with none entry s = keep_entry entry "no channel adapter is registered for the option" s
  replay_with (some channel) entry s = replay_phase channel entry.phase entry s

  unfoldable pub replay_entry :
      Option FulfillmentRecoveryEntry → ServerState W → ReplayResult × ServerState W
  unfolding replay_with
  replay_entry none s = (failed "no pending recovery entry", s)
  replay_entry (some entry) s = replay_with (find? (λ c. c.id == entry.option) channels) entry s

  unfoldable pub replay : ServerState W → ReplayResult × ServerState W
  unfolding replay_entry
  replay s = replay_entry (get s.recovery exchange_id) s
