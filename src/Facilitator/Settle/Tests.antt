-- ===== src/Facilitator/Settle/Tests.antt =====
-- A settlement, and the theorem there.
use x402b.Prelude.{◌≡◌}
use x402b.Facilitator.{settled}
use x402b.Facilitator.Structural.{parse_chain_id}
use x402b.Facilitator.Verify.Tests.{verified}
use x402b.Facilitator.Verify.Samples.{facilitator, settling}
use x402b.Facilitator.Settle.{settle}
use x402b.Facilitator.Settle.Settled.{Settled, settle-Settled}

settles : settle facilitator (settling 1300) 0 ≡ (settled "12" "0x77", 1)
unfolding settle parse_chain_id
settles = rw verified.0

settle-Settled_example : Settled facilitator (settling 1300) 0 "12" "0x77" 1
settle-Settled_example = settle-Settled facilitator (settling 1300) 0 "12" "0x77" 1 settles
