-- ===== src/Server/Exchange/Polling.antt =====
-- What the retry loop does.
use x402b.Prelude.{
  ℕ, zero, suc, ◌≤◌, String, Option, some, true, false, ◌≡◌, refl, ◌⊎◌, inl, inr, arith, Bool-cases,
}
use mathlib.Core.Path.{subst₂}
use x402b.Server.Exchange.Snapshot.{Agrees, verify_exchange_snapshot_iff}
use x402b.Effects.{continue-eq-returned, pair_of_outcome, returned}
use x402b.Server.Exchange.{
  ExchangeSnapshot, VerifyExchangeExpected, VerifyExchangeResult, VerifyExchangeOptions,
  ExchangeReader, verify_exchange_snapshot, is_retryable_verify_result, further_attempts, delay_of,
  ok, pause, attempt, verify_exchange,
}

module _ {W : Type 0} (reader : ExchangeReader W) (exchange_id : String)
    (expected : VerifyExchangeExpected) (ms : ℕ) where
  -- A run of `n` reads of the exchange, with a pause between two of them: each but the last gave a
  -- result that is worth a retry, and the last gave the result.
  pub data Polled : ℕ → W → VerifyExchangeResult → W → Type 0 where
    last :
        {w w' : W} (found : Option ExchangeSnapshot)
        → reader.read exchange_id w ≡ (returned found, w')
        → Polled 1 w (verify_exchange_snapshot found expected) w'
    again :
        {n : ℕ} {w u w' : W} {r : VerifyExchangeResult} (found : Option ExchangeSnapshot)
        → reader.read exchange_id w ≡ (returned found, u)
        → is_retryable_verify_result (verify_exchange_snapshot found expected) ≡ true
        → Polled n (pause reader exchange_id expected ms u) r w'
        → Polled (suc n) w r w'

-- A run of reads that stops at a result that is final, or after all the attempts.
pub record PolledFor {W : Type 0} (reader : ExchangeReader W) (exchange_id : String)
    (expected : VerifyExchangeExpected) (ms attempts : ℕ) (w : W) (r : VerifyExchangeResult)
    (w' : W) : Type 0 where
  pub reads : ℕ
  pub polled : Polled reader exchange_id expected ms reads w r w'
  pub bounded : reads ≤ attempts
  pub stopped : (is_retryable_verify_result r ≡ false) ⊎ (reads ≡ attempts)

module _ {W : Type 0} (reader : ExchangeReader W) (exchange_id : String)
    (expected : VerifyExchangeExpected) (ms : ℕ) where
  attempt-PolledFor :
      (left : ℕ) (w : W) (r : VerifyExchangeResult) (w' : W)
      → attempt reader exchange_id expected left ms w ≡ (returned r, w')
      → PolledFor reader exchange_id expected ms (suc left) w r w'
  unfolding attempt
  attempt-PolledFor zero w r w' h =
      let (found, p, q) = continue-eq-returned (reader.read exchange_id w).0 _ _ h in
      let result : verify_exchange_snapshot found expected ≡ r = cc in
      let world : (reader.read exchange_id w).1 ≡ w' = cc in
      record {
        reads = 1;
        polled =
            subst₂ (Polled reader exchange_id expected ms 1 w) result world
              (Polled.last found (pair_of_outcome (reader.read exchange_id w) p));
        bounded = omega arith;
        stopped = inr refl;
      }
  attempt-PolledFor (suc left) w r w' h =
      let (found, p, q) = continue-eq-returned (reader.read exchange_id w).0 _ _ h in
      let read = pair_of_outcome (reader.read exchange_id w) p in
      elim (Bool-cases (is_retryable_verify_result (verify_exchange_snapshot found expected))) [
        | inl e ↦
            let next =
              attempt-PolledFor left
                (pause reader exchange_id expected ms (reader.read exchange_id w).1) r w'
                (rw e at q) in
            record {
              reads = suc next.reads;
              polled = Polled.again found read e next.polled;
              bounded = omega (arith, next.bounded);
              stopped = ground (arith, next.stopped);
            }
        | inr e ↦
            let q' = rw e at q in
            let result : verify_exchange_snapshot found expected ≡ r = cc in
            let world : (reader.read exchange_id w).1 ≡ w' = cc in
            record {
              reads = 1;
              polled =
                  subst₂ (Polled reader exchange_id expected ms 1 w) result world
                    (Polled.last found read);
              bounded = omega arith;
              stopped = inl (rw (← result) e);
            }
      ]

-- Whenever `verifyExchange` gives a result, the exchange was read at least once and at most as often
-- as the attempts allow, with a pause before each further read; every result but the last was worth a
-- retry (not found, or in another state); and it stopped because the last result was final, or
-- because the attempts were used up.
pub verify_exchange-PolledFor :
    {W : Type 0} (reader : ExchangeReader W) (exchange_id : String)
    (expected : VerifyExchangeExpected) (options : VerifyExchangeOptions) (w : W)
    (r : VerifyExchangeResult) (w' : W)
    → verify_exchange reader exchange_id expected options w ≡ (returned r, w')
    → PolledFor reader exchange_id expected
        (delay_of options.delay_ms)
        (suc (further_attempts options.attempts))
        w
        r
        w'
unfolding verify_exchange
verify_exchange-PolledFor reader exchange_id expected options w r w' h =
    attempt-PolledFor reader exchange_id expected (delay_of options.delay_ms)
      (further_attempts options.attempts) w r w' h

Polled-ok :
    {W : Type 0} {reader : ExchangeReader W} {exchange_id : String}
    {expected : VerifyExchangeExpected} {ms n : ℕ} {w w' : W} {r : VerifyExchangeResult}
    → Polled reader exchange_id expected ms n w r w'
    → r ≡ ok
    → (u : W) × (snapshot : ExchangeSnapshot) × (reader.read exchange_id u
        ≡ (returned (some snapshot), w'))
      × Agrees snapshot expected
Polled-ok {expected} (Polled.last {w} found read) h =
    let (snapshot, p, a) = (verify_exchange_snapshot_iff found expected).0 h in
    (w, snapshot, rw (← p) read, a)
Polled-ok (Polled.again found read e next) h = Polled-ok next h

-- A success is never reported without evidence: the last read of the exchange gave a snapshot that
-- agrees with what is expected, and nothing has happened since.
pub verify_exchange_sound :
    {W : Type 0} (reader : ExchangeReader W) (exchange_id : String)
    (expected : VerifyExchangeExpected) (options : VerifyExchangeOptions) (w w' : W)
    → verify_exchange reader exchange_id expected options w ≡ (returned ok, w')
    → (u : W) × (snapshot : ExchangeSnapshot) × (reader.read exchange_id u
        ≡ (returned (some snapshot), w'))
      × Agrees snapshot expected
verify_exchange_sound reader exchange_id expected options w w' h =
    Polled-ok (verify_exchange-PolledFor reader exchange_id expected options w ok w' h).polled refl

module _ {W : Type 0} (reader : ExchangeReader W) (exchange_id : String)
    (expected : VerifyExchangeExpected) (ms : ℕ)
    (reads : (w : W)
      → (found : Option ExchangeSnapshot) × ((reader.read exchange_id w).0 ≡ returned found)) where
  attempt_total :
      (left : ℕ) (w : W)
      → (r : VerifyExchangeResult) × ((attempt reader exchange_id expected left ms w).0
          ≡ returned r)
  unfolding attempt
  attempt_total zero w = let (found, p) = reads w in (verify_exchange_snapshot found expected, rw p)
  attempt_total (suc left) w =
      let (found, p) = reads w in
      elim (Bool-cases (is_retryable_verify_result (verify_exchange_snapshot found expected))) [
        | inl e ↦
            let (r, q) =
              attempt_total left
                (pause reader exchange_id expected ms (reader.read exchange_id w).1) in
            (r, rw (p, e) q)
        | inr e ↦ (verify_exchange_snapshot found expected, rw (p, e))
      ]

pub verify_exchange_total :
    {W : Type 0} (reader : ExchangeReader W) (exchange_id : String)
    (expected : VerifyExchangeExpected) (options : VerifyExchangeOptions) (w : W)
    → ((u : W)
        → (found : Option ExchangeSnapshot) × ((reader.read exchange_id u).0 ≡ returned found))
    → (r : VerifyExchangeResult) × (w' : W) × (verify_exchange reader exchange_id expected options w
        ≡ (returned r, w'))
      × PolledFor reader exchange_id expected
          (delay_of options.delay_ms)
          (suc (further_attempts options.attempts))
          w
          r
          w'
unfolding verify_exchange
verify_exchange_total reader exchange_id expected options w reads =
    let (r, p) =
      attempt_total reader exchange_id expected (delay_of options.delay_ms) reads
        (further_attempts options.attempts) w in
    let run =
      pair_of_outcome
        (attempt reader exchange_id expected (further_attempts options.attempts)
          (delay_of options.delay_ms) w)
        p in
    (r, _, run, verify_exchange-PolledFor reader exchange_id expected options w r _ run)
