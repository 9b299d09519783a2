-- ===== src/Server/Commit/Tests.antt =====
-- A commit that is answered 200 and ones that are refused, and the theorem there.
use x402b.Prelude.{
  ℕ, zero, suc, String, Option, none, some, true, List, [], ◌∷◌, ◌≡◌, refl, get, map, string_eq,
}
use x402b.Json.{null, end}
use x402b.Machine.{ExchangeActionId, ExchangeState, PlainState}
use x402b.Wire.{
  EnvelopeState, EscrowNextActions, ActionChannel, EscrowPaymentPayload, EscrowPaymentRequirements,
}
use x402b.Effects.{Outcome, error, returned, thrown}
use x402b.Facilitator.{exchange_ok, settled}
use x402b.Server.Exchange.{ExchangeSnapshot}
use x402b.Server.Payload.{valid, advertised_options}
use x402b.Server.Payload.Samples.{test_chain, terms, paying}
use x402b.Server.State.{
  HandlerContext, HandlerResult, ok, err, HandlerCode, ServerState, RedeemFulfillmentChannel,
}
use x402b.Server.Decode.{Platform, base64_url_to_base64, decode_x_payment_header, decoded}
use x402b.Server.Delivery.{pending_entry}
use x402b.Server.Commit.{
  CommitHandlerInput, CommitOk, flow_a, handle_commit_impl, handle_commit, handle_commit_and_redeem,
  carried_by,
}
use x402b.Server.Commit.Committed.{Committed, handle_commit_impl-Committed}
use x402b.Server.Commit.Recorded.{Handed, handle_commit_and_redeem-Handed}

-- Every header but the empty one carries the sample payment.
abbrev reading : Platform
reading = record {
  text_of_base64 = λ text. returned text;
  parse_json = λ text. returned null;
  parse_payload = λ json. returned (paying "0xd1" 1300 "0x51");
}

abbrev committed_at : ℕ → Option ExchangeSnapshot
committed_at zero = none
committed_at (suc n) = some (record {
  state = ExchangeState.committed;
  dispute_state = none;
  seller = "0x5E";
  exchange_token = "0xA5";
  price = "100";
})

-- The world counts the settlements.
abbrev shop : HandlerContext ℕ
shop = record {
  config = record {
    network = "eip155:1";
    chain_id = 1;
    escrow = "0xD1";
    facilitator_url = "https://f";
    channel_registry = record {
      channels = ActionChannel.facilitator ∷ [];
      endpoints = [];
      xmtp = none;
      mcp = none;
      escrow = "0xD1";
    };
    fulfillment_channels = none;
  };
  facilitator = record {
    settle = λ input n. (returned (settled "12" "0x77"), suc n);
    perform_action = λ input n. (returned (exchange_ok "0x77" ExchangeState.redeemed none), suc n);
  };
  exchange_reader = record {
    read = λ exchange_id n. (returned (committed_at n), n);
    delay = λ ms n. n;
  };
  chain = test_chain;
  now = λ n. n;
  now_seconds = λ n. 1000;
  base64 = λ bytes. "";
  signer_of_payload = λ payload. thrown (error "not here");
}

abbrev start : ServerState ℕ
start = record { outside = 0; recovery = []; options = [] }

abbrev paid : CommitHandlerInput
paid = record { payment_header = some "eA"; requirements = terms }

abbrev nothing : EscrowNextActions
nothing = record {
  exchange_id = "";
  state = EnvelopeState.plain PlainState.committed;
  next = [];
  fallback = none;
}

-- The body of an answer 200.
abbrev answered : Outcome (HandlerResult CommitOk) → CommitOk
answered (returned (ok body)) = body
answered _ = record {
  exchange_id = "";
  tx_hash = "";
  next_actions = nothing;
  warnings = [];
  fulfillment = none;
}

padded : (base64_url_to_base64 "ab-_" ≡ "ab+/") × (base64_url_to_base64 "eA" ≡ "eA==")
unfolding base64_url_to_base64
padded = (refl, refl)

committed : handle_commit_impl reading shop paid flow_a start ≡ (
  returned (ok (answered (handle_commit_impl reading shop paid flow_a start).0)),
  record { outside = 1; recovery = []; options = ("12", []) ∷ [] },
)
unfolding handle_commit_impl x402b.Server.Exchange.is_retryable_verify_result
    x402b.Server.Exchange.verify_exchange_snapshot x402b.Prelude.same_text
    x402b.Actions.derive_next_actions x402b.Machine.client_legal_actions x402b.Actions.build_entry
    x402b.Actions.channels_for x402b.Prelude.put x402b.Server.Payload.Offer.deep_equal
    x402b.Server.State.set_options
committed = refl

refused_commits :
    (handle_commit reading shop (record { payment_header = none; requirements = terms }) start
      ≡ (returned (err 402 HandlerCode.missing_header), start))
    × (handle_commit_and_redeem reading shop paid start
        ≡ (returned (err 400 HandlerCode.action_route_mismatch), start))
unfolding handle_commit handle_commit_and_redeem
refused_commits = (refl, refl)

handle_commit_impl-Committed_example :
    Committed reading shop paid flow_a start
      (answered (handle_commit_impl reading shop paid flow_a start).0)
      (record { outside = 1; recovery = []; options = ("12", []) ∷ [] })
handle_commit_impl-Committed_example =
    handle_commit_impl-Committed reading shop paid flow_a start
      (record { outside = 1; recovery = []; options = ("12", []) ∷ [] })
      (answered (handle_commit_impl reading shop paid flow_a start).0) committed

deferred_commit : handle_commit reading shop paid start ≡ (
  returned (ok (answered (handle_commit reading shop paid start).0)),
  record { outside = 1; recovery = []; options = ("12", []) ∷ [] },
)
unfolding handle_commit x402b.Server.Exchange.is_retryable_verify_result
    x402b.Server.Exchange.verify_exchange_snapshot x402b.Prelude.same_text
    x402b.Actions.derive_next_actions x402b.Machine.client_legal_actions x402b.Actions.build_entry
    x402b.Actions.channels_for x402b.Prelude.put x402b.Server.Payload.Offer.deep_equal
    x402b.Server.State.set_options
deferred_commit = refl

-- The atomic commit of a delivery by mail, where the mail is down.
abbrev mail : RedeemFulfillmentChannel ℕ
mail = record {
  id = "mail";
  validate = λ d. returned valid;
  on_commit = λ exchange_id d n. (thrown (error "down"), n);
  on_fulfill = none;
}

abbrev atomic_payment : EscrowPaymentPayload
atomic_payment = record (paying "0xd1" 1300 "0x51") {
  payload = record (paying "0xd1" 1300 "0x51").payload {
    action = "boson-createOfferCommitAndRedeem";
  };
  fulfillment = some (record { option = "mail"; carried_data = some (some end) });
}

abbrev atomic_terms : EscrowPaymentRequirements
atomic_terms = record terms {
  fulfillment = some (record {
    required = true;
    options = (record { id = "mail"; schema = none; metadata = none }) ∷ [];
  });
  actions = record {
    next =
        (record {
          id = "boson-createOfferCommitAndRedeem";
          channels = ActionChannel.server ∷ [];
          endpoints = none;
          deadline = none;
        })
        ∷ [];
    fallback = none;
  };
}

abbrev redeemed_at : ℕ → Option ExchangeSnapshot
redeemed_at n = some (record {
  state = ExchangeState.redeemed;
  dispute_state = none;
  seller = "0x5E";
  exchange_token = "0xA5";
  price = "100";
})

abbrev mail_shop : HandlerContext ℕ
mail_shop = record shop {
  config = record shop.config { fulfillment_channels = some (mail ∷ []) };
  exchange_reader = record {
    read = λ exchange_id n. (returned (redeemed_at n), n);
    delay = λ ms n. n;
  };
}

abbrev atomic_reading : Platform
atomic_reading = record reading { parse_payload = λ json. returned atomic_payment }

abbrev atomic : CommitHandlerInput
atomic = record { payment_header = some "eA"; requirements = atomic_terms }

abbrev owing : ServerState ℕ
owing = record start {
  outside = 1;
  recovery =
      ("12", record (pending_entry "12" "mail" (some end) "0xB1" 1) { error = some "down" }) ∷ [];
}

atomic_commit : handle_commit_and_redeem atomic_reading mail_shop atomic start ≡ (
  returned (ok (answered (handle_commit_and_redeem atomic_reading mail_shop atomic start).0)),
  owing,
)
unfolding handle_commit_and_redeem x402b.Server.Exchange.is_retryable_verify_result
    x402b.Server.Exchange.verify_exchange_snapshot x402b.Prelude.same_text
    x402b.Actions.derive_next_actions x402b.Machine.client_legal_actions x402b.Actions.build_entry
    x402b.Actions.channels_for x402b.Prelude.put x402b.Server.Payload.Offer.deep_equal
    x402b.Server.State.set_options
atomic_commit = refl

handle_commit_and_redeem-Handed_example :
    (payload : EscrowPaymentPayload) × (decode_x_payment_header atomic_reading atomic.payment_header
      ≡ decoded payload)
    × Handed mail_shop
        (answered (handle_commit_and_redeem atomic_reading mail_shop atomic start).0).exchange_id
        payload.payload.buyer
        (carried_by payload.fulfillment)
        start
        (record {
          warnings =
              (answered
                (handle_commit_and_redeem atomic_reading mail_shop atomic start).0).warnings;
          delivery =
              (answered
                (handle_commit_and_redeem atomic_reading mail_shop atomic start).0).fulfillment;
        })
        owing
handle_commit_and_redeem-Handed_example =
    handle_commit_and_redeem-Handed atomic_reading mail_shop atomic start owing
      (answered (handle_commit_and_redeem atomic_reading mail_shop atomic start).0) atomic_commit
