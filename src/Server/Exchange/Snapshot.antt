-- ===== src/Server/Exchange/Snapshot.antt =====
-- When a snapshot passes.
use x402b.Prelude.{
  refl, ◌↔◌, Option, none, some, ◌≡◌, SameText, same_text_iff, arith, string_eq, option_eq, eq_iff,
}
use x402b.Machine.{ExchangeState, state_beq_iff, dispute_eq}
use x402b.Server.Exchange.{ExchangeSnapshot, VerifyExchangeExpected, ok, verify_exchange_snapshot}

-- The exchange is there, in the expected state and, if that is DISPUTED, dispute state, with the
-- expected seller and token up to letter case, at the expected price.
pub record Agrees (snapshot : ExchangeSnapshot) (expected : VerifyExchangeExpected) : Type 0 where
  pub state : snapshot.state ≡ expected.state
  pub dispute :
      expected.state ≡ ExchangeState.disputed → snapshot.dispute_state ≡ expected.dispute_state
  pub seller : SameText snapshot.seller expected.seller
  pub token : SameText snapshot.exchange_token expected.exchange_token
  pub price : snapshot.price ≡ expected.price

module _ (snapshot : ExchangeSnapshot) (expected : VerifyExchangeExpected) where
  Agrees-of_ok : verify_exchange_snapshot (some snapshot) expected ≡ ok → Agrees snapshot expected
  unfolding verify_exchange_snapshot
  Agrees-of_ok h = ground (
    arith,
    state_beq_iff snapshot.state expected.state,
    state_beq_iff expected.state ExchangeState.disputed,
    option_eq.beq_iff snapshot.dispute_state expected.dispute_state,
    same_text_iff snapshot.seller expected.seller,
    same_text_iff snapshot.exchange_token expected.exchange_token,
    eq_iff snapshot.price expected.price,
  )

  ok_of_Agrees : Agrees snapshot expected → verify_exchange_snapshot (some snapshot) expected ≡ ok
  unfolding verify_exchange_snapshot
  ok_of_Agrees a = ground (
    arith,
    state_beq_iff snapshot.state expected.state,
    state_beq_iff expected.state ExchangeState.disputed,
    option_eq.beq_iff snapshot.dispute_state expected.dispute_state,
    same_text_iff snapshot.seller expected.seller,
    same_text_iff snapshot.exchange_token expected.exchange_token,
    eq_iff snapshot.price expected.price,
  )

-- The comparison succeeds exactly when there is a snapshot and it agrees with what is expected.
pub verify_exchange_snapshot_iff :
    (found : Option ExchangeSnapshot) (expected : VerifyExchangeExpected)
    → (verify_exchange_snapshot found expected ≡ ok)
      ↔ ((snapshot : ExchangeSnapshot) × (found ≡ some snapshot) × Agrees snapshot expected)
unfolding verify_exchange_snapshot
verify_exchange_snapshot_iff none expected = (λ h. cc, λ a. cc (a.1))
verify_exchange_snapshot_iff (some snapshot) expected = (
  λ h. (snapshot, refl, Agrees-of_ok snapshot expected h),
  λ (s, p, a). let same : snapshot ≡ s = cc in ok_of_Agrees snapshot expected (rw same a),
)
