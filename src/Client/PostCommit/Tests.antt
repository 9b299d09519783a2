-- ===== src/Client/PostCommit/Tests.antt =====
-- A buyer who redeems the exchange 12.
use mathlib.Core.Path.{subst}
use x402b.Prelude.{
  none, List, ◌∷◌, ℕ, suc, String, [], ◌≡◌, refl, ap, some, false, Memᴰ, leb, if◌then◌else◌,
}
use x402b.Effects.{thrown, returned, pure, throw, error, Eff, pure-eq}
use x402b.Facilitator.{ok}
use x402b.Facilitator.Calldata.{parse_uint256}
use x402b.Facilitator.Perform.{check_request}
use x402b.Facilitator.Structural.{parse_chain_id as parse_network}
use x402b.Facilitator.Verify.Samples.{facilitator, libraries, redeem_12, buyer, diamond}
use x402b.Client.{SignedMetaTx}
use x402b.Client.Signed.{bigint}
use x402b.Client.PostCommit.{
  redeem, SignActionArgs, SignedPostCommitAction, ActionCoreSdk, SignPostCommitActionDeps,
  sign_post_commit_action, sign_and_submit_action,
}
use x402b.Json.{Json}
use x402b.Wire.{NextAction, ActionChannel}
use x402b.Client.Submit.{
  SubmitReply, response, States, all_channels_failed, refused, server, server_error,
}
use x402b.Client.PostCommit.Submitted.{Ends, sign_and_submit_action-Ends}
use x402b.Client.PostCommit.Relayed.{
  Encodes, SignsCall, SignsActions, relaying, sign_post_commit_action-check_request,
}

abbrev signed_12 : SignedMetaTx
signed_12 = record {
  function_name = redeem_12.function_name;
  function_signature = redeem_12.function_signature;
  r = redeem_12.sig.r;
  s = redeem_12.sig.s;
  v = 28;
}

abbrev refuses : Eff ℕ SignedMetaTx
refuses = throw (error "Error")

abbrev sdk : ActionCoreSdk ℕ
sdk = record {
  sign_redeem_voucher = λ nonce id. pure signed_12;
  sign_cancel_voucher = λ nonce id. refuses;
  sign_complete_exchange = λ nonce id. refuses;
  sign_raise_dispute = λ nonce id. refuses;
  sign_retract_dispute = λ nonce id. refuses;
  sign_escalate_dispute = λ nonce id. refuses;
  sign_resolve_dispute = λ nonce id percent sig. refuses;
}

abbrev deps : SignPostCommitActionDeps ℕ
deps = record {
  core_sdk = λ escrow chain_id. sdk;
  get_address = pure buyer;
  random_uint256 = λ n. (n, suc n);
  to_text = λ n. if leb n 11 then "7" else "12";
  encode_signed_payload = λ meta_tx. "0xE0";
}

abbrev redeeming : SignActionArgs
redeeming = record {
  action = redeem;
  exchange_id = bigint false 12;
  network = "eip155:1";
  escrow_address = diamond;
}

abbrev signed : SignedPostCommitAction
signed = record { meta_tx = redeem_12; signed_payload = "0xE0" }

redeems : sign_post_commit_action deps redeeming 0 ≡ (returned signed, 1)
unfolding sign_post_commit_action parse_network
redeems = refl

is_12 : parse_uint256 "12" ≡ some 12
unfolding parse_uint256
is_12 = refl

refuses_lem : (name signature : String) → SignsCall libraries name signature 12 refuses
refuses_lem name signature w w' s h = cc (ap (λ z. z.0) h)

signs_12 : SignsActions sdk libraries (bigint false 12) 12
signs_12 = record {
  redeems = λ nonce w w' s h.
      subst (λ x. Encodes libraries "redeemVoucher" "redeemVoucher(uint256)" 12 x)
        (pure-eq signed_12 s w w' h) (refl, [], refl);
  cancels = λ nonce. refuses_lem _ _;
  completes = λ nonce. refuses_lem _ _;
  raises = λ nonce. refuses_lem _ _;
  retracts = λ nonce. refuses_lem _ _;
  escalates = λ nonce. refuses_lem _ _;
  resolves = λ nonce percent sig. refuses_lem _ _;
}

sign_post_commit_action-check_request_example :
    (libraries.decode_signed_payload "0xE0" ≡ returned redeem_12)
    × (check_request facilitator (relaying "12" redeeming signed) redeem_12 ≡ ok)
    × ((u v : ℕ) × (deps.get_address u ≡ (returned buyer, v)))
sign_post_commit_action-check_request_example =
    sign_post_commit_action-check_request deps facilitator redeeming 12 0 1 signed is_12
      (λ chain_id. signs_12) (Memᴰ.head refl) refl redeems

abbrev states : States
states = record { exchange_state_of = λ s. none; dispute_state_of = λ s. none }

abbrev refusing : String → Json → ℕ → SubmitReply × ℕ
refusing endpoint body n = (response false 503 Json.null, suc n)

abbrev listed : List NextAction
listed =
    (record {
      id = "boson-redeem";
      channels = ActionChannel.server ∷ [];
      endpoints = some (("server", "https://seller") ∷ []);
      deadline = none;
    })
    ∷ []

sign_and_submit_action-Ends_example : Ends deps states refusing redeeming listed none 0
sign_and_submit_action-Ends_example =
    sign_and_submit_action-Ends deps states refusing redeeming listed none 0

fails_everywhere :
    sign_and_submit_action deps states refusing redeeming listed none 0
    ≡ (returned (all_channels_failed (refused server server_error (some 503) ∷ [])), 2)
unfolding sign_and_submit_action parse_network
fails_everywhere = refl

signs_for_nothing :
    sign_and_submit_action deps states refusing redeeming [] none 0 ≡ (thrown (error "Error"), 1)
unfolding sign_and_submit_action parse_network
signs_for_nothing = refl
