-- ===== src/Facilitator/Structural/Tests.antt =====
-- Runs of the structural checks.
use x402b.Prelude.{some, none, ◌≡◌, refl}
use x402b.Facilitator.Structural.{parse_chain_id}

chain_ids :
    (parse_chain_id "eip155:8453" ≡ some 8453)
    × (parse_chain_id "eip155:" ≡ none)
    × (parse_chain_id "eip155:8x" ≡ none)
    × (parse_chain_id "solana:1" ≡ none)
unfolding parse_chain_id
chain_ids = (refl, refl, refl, refl)
