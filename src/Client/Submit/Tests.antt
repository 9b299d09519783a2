-- ===== src/Client/Submit/Tests.antt =====
-- A redeem that the server fails with the status 503 and the facilitator accepts.
use x402b.Prelude.{
  ℕ, suc, String, [], ◌∷◌, none, some, true, false, ◌≡◌, refl, ◌==◌, string_eq, if◌then◌else◌,
}
use x402b.Json.{Json, Fields}
use x402b.Machine.{ExchangeState}
use x402b.Wire.{ActionChannel}
use x402b.Wire.Patterns.{is_hex32}
use x402b.Client.Submit.{
  SubmitArgs, SubmitResult, SubmitReply, response, States, submit_action, submitted, accepted,
  refused, server, facilitator, server_error,
}

abbrev hash : String
hash = "0x0100000000000000000000000000000000000000000000000000000000000000"

abbrev states : States
states = record {
  exchange_state_of = λ s. if s == "REDEEMED" then some ExchangeState.redeemed else none;
  dispute_state_of = λ s. none;
}

abbrev post : String → Json → ℕ → SubmitReply × ℕ
post endpoint body n =
    if endpoint == "https://seller" then (response false 503 Json.null, suc n) else (
      response true 200 (
          Json.obj (
            Fields.field "ok" (Json.bool true) (
              Fields.field "txHash" (Json.str hash)
                (Fields.field "newExchangeState" (Json.str "REDEEMED") Fields.end)))),
      suc n,
    )

abbrev args : SubmitArgs
args = record {
  action = record {
    id = "boson-redeem";
    channels =
        ActionChannel.onchain ∷ ActionChannel.server ∷ ActionChannel.facilitator
        ∷ ActionChannel.server ∷ [];
    endpoints = some (("facilitator", "https://relay") ∷ ("server", "https://seller") ∷ []);
    deadline = none;
  };
  signed_payload = "0x00";
  exchange_id = "12";
  network = "eip155:1";
  escrow_address = "0xD1";
  fulfillment = none;
}

abbrev redeemed : SubmitResult
redeemed =
    submitted
      (record {
        tx_hash = hash;
        new_exchange_state = ExchangeState.redeemed;
        new_dispute_state = none;
        next_actions = none;
      })
      facilitator (refused server server_error (some 503) ∷ accepted facilitator 200 ∷ [])

submits : submit_action states post args 0 ≡ (redeemed, 2)
unfolding submit_action is_hex32
submits = refl
