-- ===== src/Server/Recovery/Tests.antt =====
-- Replays of both phases, and the theorems there.
use x402b.Prelude.{
  ℕ, suc, String, Option, none, some, List, [], ◌∷◌, ◌≡◌, refl, get, find?, ◌==◌, string_eq, ◌⊎◌,
  ap, sym, leb, if◌then◌else◌,
}
use x402b.Effects.{Eff, Outcome, error, returned, thrown}
use x402b.Server.Payload.{valid}
use x402b.Server.State.{
  FulfillmentResult, RedeemFulfillmentChannel, Phase, FulfillmentRecoveryEntry, ServerState,
  WarningCode,
}
use x402b.Server.Delivery.{pending_entry, hand_over}
use x402b.Server.Delivery.Kept.{Kept}
use x402b.Server.Recovery.{ok, failed, list, replay}
use x402b.Server.Recovery.Replayable.{Works, IsReplayed, hand_over-IsReplayed}
use x402b.Server.Delivery.Owed.{Done}
use x402b.Server.Recovery.Replay.{EntryAfter, replay_lem}

-- The world keeps the names of the calls.
abbrev mail : RedeemFulfillmentChannel (List String)
mail = record {
  id = "mail";
  validate = λ data_. returned valid;
  on_commit = λ exchange_id data_ log. (returned tt, "onCommit" ∷ log);
  on_fulfill = some (λ exchange_id log. (thrown (error "no route"), "onFulfill" ∷ log));
}

abbrev entry : FulfillmentRecoveryEntry
entry = pending_entry "12" "mail" none "0xB1" 7

abbrev undelivered : FulfillmentRecoveryEntry
undelivered = record entry { phase = Phase.delivery }

abbrev holding : FulfillmentRecoveryEntry → ServerState (List String)
holding e = record { outside = []; recovery = ("12", e) ∷ []; options = [] }

replayed :
    (replay (mail ∷ []) "12" (holding entry)
      ≡ (ok, record { outside = "onCommit" ∷ []; recovery = []; options = [] }))
    × (replay (mail ∷ []) "12" (holding undelivered) ≡ (
      failed "no route",
      record {
        outside = "onFulfill" ∷ [];
        recovery = ("12", record undelivered { error = some "no route" }) ∷ [];
        options = [];
      },
    ))
    × (list (holding entry) ≡ entry ∷ [])
unfolding replay list x402b.Prelude.remove x402b.Prelude.put
replayed = (refl, refl, refl)

replay_lem_example :
    ((get (holding undelivered).recovery "12" ≡ none)
      → replay (mail ∷ []) "12" (holding undelivered)
        ≡ (failed "no pending recovery entry", holding undelivered))
    × ((e : FulfillmentRecoveryEntry)
        → get (holding undelivered).recovery "12" ≡ some e
        → Kept "12" (holding undelivered) (replay (mail ∷ []) "12" (holding undelivered)).1
          × EntryAfter "12" e
              (replay (mail ∷ []) "12" (holding undelivered)).0
              (replay (mail ∷ []) "12" (holding undelivered)).1)
replay_lem_example = replay_lem (mail ∷ []) "12" (holding undelivered)

-- A channel that delivers from the time 10 on; the world is the time.
abbrev late_mail : RedeemFulfillmentChannel ℕ
late_mail = record {
  id = "mail";
  validate = λ data_. returned valid;
  on_commit = λ exchange_id data_ n. (returned tt, suc n);
  on_fulfill = some (λ exchange_id n. (
    if leb 10 n then returned (FulfillmentResult.async none) else thrown (error "no route"),
    suc n,
  ));
}

abbrev left : ServerState ℕ
left =
    (hand_over (λ n. n) (λ bytes. "") late_mail "12" WarningCode.fulfillment_update_deferred entry
      (record { outside = 7; recovery = []; options = [] })).1

abbrev next_day : ServerState ℕ
next_day = record left { outside = 20 }

abbrev answer_of : Option (String → Eff ℕ FulfillmentResult) → Outcome FulfillmentResult
answer_of none = thrown (error "Error")
answer_of (some on_fulfill) = (on_fulfill "12" 20).0

works : Works late_mail "12" entry 20
works = record {
  commits = refl;
  fulfils = λ on_fulfill same. (FulfillmentResult.async none, sym (ap answer_of same));
}

hand_over-IsReplayed_example :
    Done "12" late_mail
      (hand_over
        (λ n. n)
        (λ bytes. "")
        late_mail
        "12"
        WarningCode.fulfillment_update_deferred
        entry
        (record { outside = 7; recovery = []; options = [] })).0
      left.recovery
    ⊎ IsReplayed (late_mail ∷ []) "12" late_mail next_day
hand_over-IsReplayed_example =
    hand_over-IsReplayed (late_mail ∷ []) "12" late_mail (λ n. n) (λ bytes. "")
      WarningCode.fulfillment_update_deferred entry
      (record { outside = 7; recovery = []; options = [] }) next_day refl refl refl works
