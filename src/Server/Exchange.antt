-- ===== src/Server/Exchange.antt =====
-- onchain/verify-exchange.ts: comparing an exchange with what it should be, with bounded retries.
pub mod Snapshot
pub mod Polling
mod Tests
use x402b.Prelude.{
  ℕ, zero, suc, String, Option, none, some, Bool, true, false, not, ◌&&◌, ◌||◌, ◌==◌, ◌!=◌, ◌≡◌,
  arith, string_eq, nat_eq, option_eq, same_text, ltb, if◌then◌else◌,
}
use x402b.Machine.{ExchangeState, state_eq, DisputeState, dispute_eq}
use x402b.Effects.{Eff, Outcome, returned, thrown, pure, ◌>>=◌, continue}

pub record ExchangeSnapshot : Type 0 where
  pub state : ExchangeState
  pub dispute_state : Option DisputeState
  pub seller : String
  pub exchange_token : String
  pub price : String

-- The same fields as a snapshot.
abbrev pub VerifyExchangeExpected : Type 0
VerifyExchangeExpected = ExchangeSnapshot

pub data VerifyExchangeErrorCode : Type 0 where
  exchange_not_found state_mismatch dispute_state_mismatch : VerifyExchangeErrorCode
  seller_mismatch token_mismatch price_mismatch : VerifyExchangeErrorCode

-- The error's `field`, `expected` and `got` are determined by the code, and left out.
pub data VerifyExchangeResult : Type 0 where
  ok : VerifyExchangeResult
  fail : VerifyExchangeErrorCode → VerifyExchangeResult

compare_parties : ExchangeSnapshot → VerifyExchangeExpected → VerifyExchangeResult
compare_parties snapshot expected =
    if not (same_text snapshot.seller expected.seller)
    then fail seller_mismatch
    else if not (same_text snapshot.exchange_token expected.exchange_token)
    then fail token_mismatch
    else if snapshot.price != expected.price
    then fail price_mismatch
    else ok

unfoldable pub verify_exchange_snapshot :
    Option ExchangeSnapshot → VerifyExchangeExpected → VerifyExchangeResult
unfolding compare_parties
verify_exchange_snapshot none expected = fail exchange_not_found
verify_exchange_snapshot (some snapshot) expected =
    if snapshot.state != expected.state
    then fail state_mismatch
    else if expected.state == ExchangeState.disputed
        && (snapshot.dispute_state != expected.dispute_state)
    then fail dispute_state_mismatch
    else compare_parties snapshot expected

unfoldable pub is_retryable_verify_result : VerifyExchangeResult → Bool
is_retryable_verify_result (fail exchange_not_found) = true
is_retryable_verify_result (fail state_mismatch) = true
is_retryable_verify_result (fail dispute_state_mismatch) = true
is_retryable_verify_result _ = false

-- `ExchangeReader` and the timer. Waiting never fails; the world may change meanwhile.
pub record ExchangeReader (W : Type 0) : Type 0 where
  pub read : String → Eff W (Option ExchangeSnapshot)
  pub delay : ℕ → W → W

pub record VerifyExchangeOptions : Type 0 where
  pub attempts : Option ℕ
  pub delay_ms : Option ℕ

-- `options = {}`
abbrev pub default_options : VerifyExchangeOptions
default_options = record { attempts = none; delay_ms = none }

-- `Math.max(1, Math.floor(options.attempts ?? 3))` less 1: the attempts that may follow the first.
abbrev pub further_attempts : Option ℕ → ℕ
further_attempts none = 2
further_attempts (some zero) = 0
further_attempts (some (suc n)) = n

abbrev pub delay_of : Option ℕ → ℕ
delay_of none = 50
delay_of (some n) = n

module _ {W : Type 0} (reader : ExchangeReader W) (exchange_id : String)
    (expected : VerifyExchangeExpected) where
  abbrev pub pause : ℕ → W → W
  pause ms w = if ltb 0 ms then reader.delay ms w else w

  -- The loop; `left` counts the attempts after this one, so it is 0 at the last.
  attempt : ℕ → ℕ → Eff W VerifyExchangeResult
  attempt zero ms w =
      continue (reader.read exchange_id w).0 (reader.read exchange_id w).1
        (λ snapshot. pure (verify_exchange_snapshot snapshot expected))
  attempt (suc left) ms w =
      continue (reader.read exchange_id w).0 (reader.read exchange_id w).1 (λ snapshot w'.
        let result = verify_exchange_snapshot snapshot expected in
        let again = attempt left ms (pause ms w') in
        if is_retryable_verify_result result then again else (returned result, w'))

  unfoldable pub verify_exchange : VerifyExchangeOptions → Eff W VerifyExchangeResult
  unfolding attempt
  verify_exchange options = attempt (further_attempts options.attempts) (delay_of options.delay_ms)
