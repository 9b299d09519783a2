-- ===== src/Fetch/Origins.antt =====
-- Where the response of a paying `fetch` comes from.
use mathlib.Core.Path.{subst}
use x402b.Prelude.{
  String, Option, none, some, Bool, true, false, ◌≡◌, refl, ap, sym, ◌∙◌, ◌≤◌, get, put, arith, ltb,
  ◌==◌, nat_eq, if◌then◌else◌,
}
use x402b.Json.{Json}
use x402b.Wire.{EscrowPaymentPayload}
use x402b.Effects.{
  Outcome, returned, thrown, Raised, pure, handle, continue, bind-eq-returned, pure-eq,
}
use x402b.Fetch.{
  Request, Response, CommitFallback, off, auto, WrapFetchOptions, Platform, X402bClient,
  recover_payload, settle_request, settle_at, settle_with, read_answer, give_up,
  try_facilitator_fallback, surface, fall_back, after_retry, with_payment, retry, pay_challenge,
  after_initial, with_session, fetch_with_payment, extract_escrow_entry, network_failure,
  network_marker, synthesize_commit_fallback_response, exchange_action,
}
use x402b.Fetch.Read.{CommitTarget, Fallback, fallback_target}
use x402b.Fetch.Read.Targets.{FallsBack, fallback_target_iff}
use x402b.Fetch.Answers.{
  Challenges, extract_escrow_entry-Challenges, Confirms, read_settle_answer-Confirms,
}
use x402b.Server.Payload.{CommitAction}
use x402b.Machine.{action_post_state}

module _ {W : Type 0} (platform : Platform W) (client : X402bClient W)
    (options : WrapFetchOptions) where
  -- A header that the client signed for the entry of a server's challenge.
  pub record Signed (entry : Json) (header : String) (after : W) : Type 0 where
    pub asking : Request
    pub start : W
    pub challenged : W
    pub challenge : Response
    pub received : platform.fetch asking none start ≡ (returned challenge, challenged)
    pub challenges : Challenges challenge entry
    pub signs : client.handle_402 entry challenged ≡ (returned header, after)

  -- A request that threw, or that a server failed.
  abbrev pub IsFailure : Outcome Response → Type 0
  IsFailure (thrown e) = Unit
  IsFailure (returned answer) = 500 ≤ answer.status

  -- The request was made again with the header, and failed, and the options allow the fallback.
  pub record Unpaid (entry : Json) (header : String) (after : W) : Type 0 where
    pub allowed : options.commit_fallback ≡ auto
    pub retried : W
    pub signed : Signed entry header retried
    pub outcome : Outcome Response
    pub sent :
        platform.fetch (with_payment platform client options signed.asking header) none retried
        ≡ (outcome, after)
    pub failure : IsFailure outcome

  -- A settlement of the payload of a header, from a world on, that the facilitator confirmed.
  pub record Confirmed (entry : Json) (header : String) (before : W) (found : Fallback)
      : Type 0 where
    pub network : String
    pub action : CommitAction
    pub url : String
    pub falls_back : FallsBack entry network action url
    pub payload : EscrowPaymentPayload
    pub is_payload : recover_payload platform header ≡ returned payload
    pub after : W
    pub answer : Response
    pub settled :
        platform.fetch
          (settle_request platform client options url
            (record { network = network; payload = payload; requirements = entry }))
          (some options.facilitator_timeout_ms)
          before
        ≡ (returned answer, after)
    pub is_action : found.action_id ≡ action
    pub confirms : Confirms answer found.exchange_id found.tx_hash

  -- A 200 that reports the exchange and the transaction of a confirmed settlement, which was asked
  -- for after the paid request had failed, and the state after the action of the challenge's first
  -- commit entry for the facilitator.
  pub record MadeUp (r : Response) : Type 0 where
    pub entry : Json
    pub header : String
    pub before : W
    pub unpaid : Unpaid entry header before
    pub found : Fallback
    pub confirmed : Confirmed entry header before found
    pub is_200 : r.status ≡ 200
    pub reports :
        get r.headers "x-payment-response"
        ≡ some (
            platform.encode_base64 (
              platform.stringify_response (record {
                exchange_id = found.exchange_id;
                tx_hash = found.tx_hash;
                exchange_state = (action_post_state (exchange_action confirmed.action)).exchange;
              })))

  -- A server's answer to a request, the placeholder for a request that failed, or a response that is
  -- made up.
  pub data Origin (r : Response) : Type 0 where
    answered : (q : Request) (w w' : W) → platform.fetch q none w ≡ (returned r, w') → Origin r
    failed :
        (q : Request) (w w' : W) (e : Raised)
        → options.commit_fallback ≡ auto
        → platform.fetch q none w ≡ (thrown e, w')
        → network_failure platform (network_marker platform client options e) ≡ r
        → Origin r
    made_up : MadeUp r → Origin r

  try_facilitator_fallback-Confirmed :
      (entry : Json) (header : String) (w w' : W) (found : Fallback)
      → try_facilitator_fallback platform client options entry header w
        ≡ (returned (some found), w')
      → Confirmed entry header w found
  unfolding try_facilitator_fallback
  try_facilitator_fallback-Confirmed entry header w w' found h = at (fallback_target entry) refl h
    where
      nothing : (u : W) → pure {A = Option Fallback} none u ≡ (returned (some found), w') → ⊥
      nothing u k = cc (ap (λ z. z.0) k)

      answer_of :
          (network : String) (target : CommitTarget) (payload : EscrowPaymentPayload)
          → fallback_target entry ≡ some (network, target)
          → recover_payload platform header ≡ returned payload
          → (o : Outcome Response × W)
          → platform.fetch
              (settle_request platform client options target.1
                (record { network = network; payload = payload; requirements = entry }))
              (some options.facilitator_timeout_ms)
              w
            ≡ o
          → handle
              (continue o.0 o.1 (read_answer platform client options target.0)).0
              (continue o.0 o.1 (read_answer platform client options target.0)).1
              (give_up platform client options)
            ≡ (returned (some found), w')
          → Confirmed entry header w found
      answer_of network target payload p q (thrown e, u) s k = absurd (nothing u k)
      answer_of network target payload p q (returned answer, u) s k =
          let (same, confirms) =
            read_settle_answer-Confirms target.0 answer found (pure-eq _ _ u w' k) in
          record {
            network = network;
            action = target.0;
            url = target.1;
            falls_back = (fallback_target_iff entry network target.0 target.1).0 p;
            payload = payload;
            is_payload = q;
            after = u;
            answer = answer;
            settled = s;
            is_action = same;
            confirms = confirms;
          }

      recovered :
          (network : String) (target : CommitTarget) (o : Outcome EscrowPaymentPayload)
          → fallback_target entry ≡ some (network, target)
          → recover_payload platform header ≡ o
          → settle_with platform client options entry (network, target) o w
            ≡ (returned (some found), w')
          → Confirmed entry header w found
      recovered network target (thrown e) p q k = absurd (nothing w k)
      recovered network target (returned payload) p q k =
          answer_of network target payload p q _ refl k

      at :
          (o : Option (String × CommitTarget))
          → fallback_target entry ≡ o
          → settle_at platform client options entry header o w ≡ (returned (some found), w')
          → Confirmed entry header w found
      at none p k = absurd (nothing w k)
      at (some (network, target)) p k = recovered network target _ p refl k

  synthesize-MadeUp :
      (entry : Json) (header marker : String) (w : W) (found : Fallback) (r : Response)
      → Unpaid entry header w
      → Confirmed entry header w found
      → synthesize_commit_fallback_response platform found marker ≡ r
      → MadeUp r
  unfolding synthesize_commit_fallback_response put
  synthesize-MadeUp entry header marker w found r unpaid confirmed same = record {
    entry = entry;
    header = header;
    before = w;
    unpaid = unpaid;
    found = found;
    confirmed = confirmed;
    is_200 = ap (λ x. x.status) (sym same);
    reports =
        ap (λ x. get x.headers "x-payment-response") (sym same)
        ∙ ap
            (λ a. some (
              platform.encode_base64 (
                platform.stringify_response (record {
                  exchange_id = found.exchange_id;
                  tx_hash = found.tx_hash;
                  exchange_state = (action_post_state (exchange_action a)).exchange;
                }))))
            confirmed.is_action;
  }

  fall_back-Origin :
      (entry : Json) (header marker : String) (upstream r : Response) (w w' : W)
      → Unpaid entry header w
      → Origin upstream
      → fall_back platform client options entry header upstream marker w ≡ (returned r, w')
      → Origin r
  fall_back-Origin entry header marker upstream r w w' unpaid of_upstream h =
      let (found, u, p, k) =
        bind-eq-returned (try_facilitator_fallback platform client options entry header)
          (surface platform client options upstream marker) w h in
      surfaced found u p k
    where
      surfaced :
          (found : Option Fallback) (u : W)
          → try_facilitator_fallback platform client options entry header w ≡ (returned found, u)
          → surface platform client options upstream marker found u ≡ (returned r, w')
          → Origin r
      surfaced none u p k = subst Origin (pure-eq upstream r u w' k) of_upstream
      surfaced (some found) u p k = Origin.made_up (
          synthesize-MadeUp entry header marker w found r unpaid
            (try_facilitator_fallback-Confirmed entry header w u found p) (pure-eq _ r u w' k))

  after_retry-Origin :
      (mode : CommitFallback) (entry : Json) (header : String) (o : Outcome Response) (r : Response)
      (u w w' : W)
      → options.commit_fallback ≡ mode
      → (signed : Signed entry header u)
      → platform.fetch (with_payment platform client options signed.asking header) none u ≡ (o, w)
      → after_retry platform client options mode entry header o w ≡ (returned r, w')
      → Origin r
  after_retry-Origin off entry header o r u w w' mode signed sent h =
      Origin.answered (with_payment platform client options signed.asking header) u w
        (sent ∙ ap (λ x. (x, w)) (ap (λ z. z.0) h))
  after_retry-Origin auto entry header (thrown e) r u w w' mode signed sent h =
      fall_back-Origin entry header _ _ r w w'
        (record {
          allowed = mode;
          retried = u;
          signed = signed;
          outcome = thrown e;
          sent = sent;
          failure = tt;
        })
        (Origin.failed (with_payment platform client options signed.asking header) u w e mode sent
          refl)
        h
  after_retry-Origin auto entry header (returned response) r u w w' mode signed sent h =
      of_test (ltb response.status 500) refl h
    where
      of_test :
          (b : Bool)
          → ltb response.status 500 ≡ b
          → (if b
              then (returned response, w)
              else fall_back platform client options entry header response
                  (platform.to_text response.status)
                  w)
            ≡ (returned r, w')
          → Origin r
      of_test true p k =
          subst Origin (pure-eq response r w w' k)
            (Origin.answered (with_payment platform client options signed.asking header) u w sent)
      of_test false p k =
          fall_back-Origin entry header _ response r w w'
            (record {
              allowed = mode;
              retried = u;
              signed = signed;
              outcome = returned response;
              sent = sent;
              failure = ground arith;
            })
            (Origin.answered (with_payment platform client options signed.asking header) u w sent) k

  after_initial-Origin :
      (first : Request) (initial r : Response) (u w w' : W)
      → platform.fetch first none u ≡ (returned initial, w)
      → after_initial platform client options first initial w ≡ (returned r, w')
      → Origin r
  after_initial-Origin first initial r u w w' sent h = of_test (initial.status == 402) refl h
    where
      as_is : pure initial w ≡ (returned r, w') → Origin r
      as_is k = subst Origin (pure-eq initial r w w' k) (Origin.answered first u w sent)

      challenged :
          (entry : Option Json)
          → initial.status ≡ 402
          → extract_escrow_entry initial ≡ entry
          → pay_challenge platform client options first initial entry w ≡ (returned r, w')
          → Origin r
      challenged none p q k = as_is k
      challenged (some entry) p q k =
          let (header, w1, signs, k1) =
            bind-eq-returned (client.handle_402 entry) (retry platform client options first entry) w
              k in
          after_retry-Origin options.commit_fallback entry header _ r w1 _ w' refl
            (record {
              asking = first;
              start = u;
              challenged = w;
              challenge = initial;
              received = sent;
              challenges = extract_escrow_entry-Challenges initial entry p q;
              signs = signs;
            })
            refl k1

      of_test :
          (b : Bool)
          → initial.status == 402 ≡ b
          → (if b
              then pay_challenge platform client options first initial
                  (extract_escrow_entry initial)
                  w
              else (returned initial, w))
            ≡ (returned r, w')
          → Origin r
      of_test true p k =
          challenged (extract_escrow_entry initial) ((nat_eq.beq_iff initial.status 402).0 p) refl k
      of_test false p k = as_is k

  -- A response that the wrapped `fetch` gives back is a server's answer to a request; or, where the
  -- options allow the fallback, a placeholder for a request that threw, or a made-up 200. Then a
  -- server's 402 had an escrow entry, the first of its `accepts`; the client signed a payment for it;
  -- the request with that payment threw or was answered with 500 or more; the facilitator of the first
  -- commit entry for it was sent the payload of that payment, and answered with success, `ok`, an
  -- exchange and a transaction; and the 200 reports these, and the state after that entry's action.
  pub fetch_with_payment-Origin :
      (input : Request) (w w' : W) (r : Response)
      → fetch_with_payment platform client options input w ≡ (returned r, w')
      → Origin r
  unfolding fetch_with_payment
  fetch_with_payment-Origin input w w' r h =
      let (id, u) = platform.random_uuid w in
      let first = with_session platform client options input id in
      let (initial, u1, sent, k) =
        bind-eq-returned (platform.fetch first none) (after_initial platform client options first) u
          h in
      after_initial-Origin first initial r u u1 w' sent k
