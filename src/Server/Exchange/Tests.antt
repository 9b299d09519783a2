-- ===== src/Server/Exchange/Tests.antt =====
-- A chain that is one block behind, and the theorems at it.
use x402b.Prelude.{ℕ, zero, suc, Option, none, some, ◌≡◌, refl, same_text}
use x402b.Machine.{ExchangeState}
use x402b.Effects.{returned}
use x402b.Server.Exchange.{
  is_retryable_verify_result, ExchangeSnapshot, VerifyExchangeResult, ok, ExchangeReader,
  default_options, verify_exchange_snapshot, verify_exchange, further_attempts, delay_of,
}
use x402b.Server.Exchange.Snapshot.{Agrees}
use x402b.Server.Exchange.Polling.{PolledFor, verify_exchange_sound, verify_exchange_total}

abbrev committed : ExchangeSnapshot
committed = record {
  state = ExchangeState.committed;
  dispute_state = none;
  seller = "0xAb";
  exchange_token = "0xC0";
  price = "10";
}

abbrev expected : ExchangeSnapshot
expected = record committed { seller = "0xaB" }

-- The exchange shows up once the indexer has caught up; each pause lets it do so by a block.
abbrev seen_after : ℕ → Option ExchangeSnapshot
seen_after zero = some committed
seen_after (suc n) = none

abbrev catch_up : ℕ → ℕ
catch_up zero = zero
catch_up (suc n) = n

abbrev indexer : ExchangeReader ℕ
indexer = record {
  read = λ id lag. (returned (seen_after lag), lag);
  delay = λ ms lag. catch_up lag;
}

late : verify_exchange indexer "7" expected default_options 2 ≡ (returned ok, 0)
unfolding verify_exchange verify_exchange_snapshot is_retryable_verify_result same_text
late = refl

verify_exchange_sound_example :
    (u : ℕ) × (snapshot : ExchangeSnapshot) × (indexer.read "7" u ≡ (returned (some snapshot), 0))
    × Agrees snapshot expected
verify_exchange_sound_example = verify_exchange_sound indexer "7" expected default_options 2 0 late

verify_exchange_total_example :
    (r : VerifyExchangeResult) × (w' : ℕ) × (verify_exchange indexer "7" expected default_options 2
      ≡ (returned r, w'))
    × PolledFor indexer "7" expected
        (delay_of default_options.delay_ms)
        (suc (further_attempts default_options.attempts))
        2
        r
        w'
verify_exchange_total_example =
    verify_exchange_total indexer "7" expected default_options 2 (λ u. (seen_after u, refl))
