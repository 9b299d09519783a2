-- ===== src/Server/Endpoints/Tests.antt =====
-- Endpoint URLs at concrete inputs, and the theorems there.
use x402b.Prelude.{put, String, List, [], ◌∷◌, Option, none, some, ◌≡◌, refl, string_eq, All}
use x402b.Machine.{PlainState, client_legal_actions}
use x402b.Wire.{ActionChannel, channel_eq, NextAction, EnvelopeState, EscrowNextActions}
use x402b.Actions.{
  ChannelRegistry, build_fallback, to_client_state, derive_next_actions, build_entry, channels_for,
}
use x402b.Server.Endpoints.{
  stamp_facilitator_endpoints, facilitator_endpoint_for, emit_next_actions,
}
use x402b.Server.Endpoints.Emit.{IsReachable, emit_next_actions-IsReachable}

urls :
    (facilitator_endpoint_for "boson-createOfferAndCommit" "https://f.example//"
      ≡ "https://f.example/settle")
    × (facilitator_endpoint_for "boson-redeem" "https://f.example"
        ≡ "https://f.example/perform-action?action=boson-redeem")
unfolding facilitator_endpoint_for
urls = (refl, refl)

abbrev redeem_entry : NextAction
redeem_entry = record {
  id = "boson-redeem";
  channels = ActionChannel.facilitator ∷ ActionChannel.onchain ∷ [];
  endpoints = none;
  deadline = none;
}

abbrev seller : ChannelRegistry
seller = record {
  channels = ActionChannel.facilitator ∷ ActionChannel.server ∷ [];
  endpoints = ("boson-redeem", "https://s/redeem") ∷ [];
  xmtp = none;
  mcp = none;
  escrow = "0xD1";
}

abbrev emitted_entry : String → List ActionChannel → Option (List (String × String)) → NextAction
emitted_entry id channels endpoints = record {
  id = id;
  channels = channels;
  endpoints = endpoints;
  deadline = none;
}

abbrev committed : EscrowNextActions
committed = record {
  exchange_id = "7";
  state = EnvelopeState.plain PlainState.committed;
  next =
      emitted_entry "boson-redeem"
        (ActionChannel.facilitator ∷ ActionChannel.server ∷ ActionChannel.onchain ∷ [])
        (some (
          ("server", "https://s/redeem")
          ∷ ("facilitator", "https://f/perform-action?action=boson-redeem")
          ∷ []))
      ∷ emitted_entry "boson-cancelVoucher" (ActionChannel.facilitator ∷ ActionChannel.onchain ∷ [])
          (some (("facilitator", "https://f/perform-action?action=boson-cancelVoucher") ∷ []))
      ∷ [];
  fallback = some (
      build_fallback seller
        (client_legal_actions (to_client_state (EnvelopeState.plain PlainState.committed))));
}

emit_committed :
    emit_next_actions "7" (EnvelopeState.plain PlainState.committed) seller (some "https://f/")
    ≡ some committed
unfolding emit_next_actions derive_next_actions client_legal_actions build_entry channels_for
    stamp_facilitator_endpoints facilitator_endpoint_for put
emit_committed = refl

emit_next_actions-IsReachable_example : All IsReachable committed.next
emit_next_actions-IsReachable_example =
    emit_next_actions-IsReachable "7" (EnvelopeState.plain PlainState.committed) seller "https://f/"
      committed emit_committed
