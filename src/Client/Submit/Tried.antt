-- ===== src/Client/Submit/Tried.antt =====
-- The submission is the walk that the replies make.
use mathlib.Core.Path.{subst}
use x402b.Prelude.{
  ℕ, ◌<◌, String, List, [], ◌∷◌, Option, none, some, Bool, true, false, ◌≡◌, refl, leb,
  if◌then◌else◌, arith,
}
use x402b.Json.{Json}
use x402b.Client.Submit.{
  SubmitChannel, ChannelAttempt, SubmitArgs, SubmitResult, ChannelResult, no_compatible_channel,
  SubmitReply, failed, response, States, AttemptOutcome, success, failure, ordered_channels, judge,
  attempt_at, attempt_channel, decide, submit_over, submit_ordered, submit_action, is_object,
  parsed_or_invalid, parse_result, endpoint_of, body_for, client_error, server_error, network,
  timeout, no_endpoint, invalid_response,
}
use x402b.Client.Submit.Replies.{
  Asked, Accepts, Refuses, Walk, parse_result-Reads, Reads-parse_result, Reads-is_object,
}

abbrev outcome_channel : AttemptOutcome → SubmitChannel
outcome_channel (success channel status r) = channel
outcome_channel (failure channel reason status) = channel

module _ {W : Type 0} (states : States) (post : (endpoint : String) → Json → W → SubmitReply × W)
    (args : SubmitArgs) where
  parsed_or_invalid-channel :
      (channel : SubmitChannel) (status : ℕ) (o : Option ChannelResult)
      → outcome_channel (parsed_or_invalid states post args channel status o) ≡ channel
  parsed_or_invalid-channel channel status none = refl
  parsed_or_invalid-channel channel status (some r) = refl

  judge-channel :
      (channel : SubmitChannel) (reply : SubmitReply)
      → outcome_channel (judge states post args channel reply) ≡ channel
  judge-channel channel (failed true) = refl
  judge-channel channel (failed false) = refl
  judge-channel channel (response is_ok status body) =
      of_tests (leb 500 status) is_ok (is_object states post args body)
    where
      of_tests :
          (a b c : Bool)
          → outcome_channel (
              if a
              then failure channel server_error (some status)
              else if b
              then if c
                then parsed_or_invalid states post args channel status
                    (parse_result states post args channel body)
                else failure channel invalid_response (some status)
              else failure channel client_error (some status))
            ≡ channel
      of_tests true b c = refl
      of_tests false false c = refl
      of_tests false true false = refl
      of_tests false true true = parsed_or_invalid-channel channel status _

  attempt_at-channel :
      (channel : SubmitChannel) (o : Option String) (w : W)
      → outcome_channel (attempt_at states post args channel o w).0 ≡ channel
  attempt_at-channel channel none w = refl
  attempt_at-channel channel (some endpoint) w =
      judge-channel channel (post endpoint (body_for channel args) w).0

  -- The outcome of an attempt is the one that the replies call for.
  abbrev Judged : AttemptOutcome → W → W → Type 0
  Judged (success channel status r) w w' = Accepts states post args channel status r w w'
  Judged (failure channel reason status) w w' = Refuses states post args channel reason status w w'

  module _ (channel : SubmitChannel) (w w' : W) where
    parsed-Judged :
        (status : ℕ) (body : Json) (o : Option ChannelResult)
        → status < 500
        → Asked states post args channel (response true status body) w w'
        → parse_result states post args channel body ≡ o
        → Judged (parsed_or_invalid states post args channel status o) w w'
    parsed-Judged status body none h a p =
        Refuses.malformed w w' status body h a
          (λ r x. cc (p, Reads-parse_result states post args channel body r x))
    parsed-Judged status body (some r) h a p = record {
      body = body;
      below = h;
      asked = a;
      reads = parse_result-Reads states post args channel body r p;
    }

    judge-Judged :
        (reply : SubmitReply)
        → Asked states post args channel reply w w'
        → Judged (judge states post args channel reply) w w'
    judge-Judged (failed true) a = Refuses.timed_out w w' a
    judge-Judged (failed false) a = Refuses.unreachable w w' a
    judge-Judged (response is_ok status body) a =
        of_status (leb 500 status) is_ok (is_object states post args body) refl refl a
      where
        of_status :
            (b ok c : Bool)
            → leb 500 status ≡ b
            → is_object states post args body ≡ c
            → Asked states post args channel (response ok status body) w w'
            → Judged
                (if b
                  then failure channel server_error (some status)
                  else if ok
                  then if c
                    then parsed_or_invalid states post args channel status
                        (parse_result states post args channel body)
                    else failure channel invalid_response (some status)
                  else failure channel client_error (some status))
                w
                w'
        of_status true ok c p q t = Refuses.fails w w' ok status body (ground arith) t
        of_status false false c p q t = Refuses.declines w w' status body (ground arith) t
        of_status false true false p q t =
            Refuses.malformed w w' status body (ground arith) t
              (λ r x. cc (q, Reads-is_object states post args channel body r x))
        of_status false true true p q t = parsed-Judged status body _ (ground arith) t refl

  attempt_at-Judged :
      (channel : SubmitChannel) (o : Option String) (w : W)
      → endpoint_of args.action channel ≡ o
      → Judged
          (attempt_at states post args channel o w).0
          w
          (attempt_at states post args channel o w).1
  attempt_at-Judged channel none w p = Refuses.unlisted w p
  attempt_at-Judged channel (some endpoint) w p =
      judge-Judged channel w _ (post endpoint (body_for channel args) w).0
        (record { endpoint = endpoint; listed = p; replied = refl })

  decide-Walk :
      (channels : List SubmitChannel) (before : List ChannelAttempt) (o : AttemptOutcome) (w u : W)
      (rest : List ChannelAttempt → W → SubmitResult × W)
      → ((b : List ChannelAttempt) (v : W)
          → Walk states post args channels b v (rest b v).0 (rest b v).1)
      → Judged o w u
      → Walk states post args
          (outcome_channel o ∷ channels)
          before
          w
          (decide states post args before (o, u) rest).0
          (decide states post args before (o, u) rest).1
  decide-Walk channels before (success c status r) w u rest later j =
      Walk.ends c channels before status r w u j
  decide-Walk channels before (failure c client_error status) w u rest later j =
      Walk.stops c channels before status w u j
  decide-Walk channels before (failure c server_error status) w u rest later j =
      Walk.passes c channels before server_error status w u _ _ (λ e. cc e) j (later _ u)
  decide-Walk channels before (failure c network status) w u rest later j =
      Walk.passes c channels before network status w u _ _ (λ e. cc e) j (later _ u)
  decide-Walk channels before (failure c timeout status) w u rest later j =
      Walk.passes c channels before timeout status w u _ _ (λ e. cc e) j (later _ u)
  decide-Walk channels before (failure c no_endpoint status) w u rest later j =
      Walk.passes c channels before no_endpoint status w u _ _ (λ e. cc e) j (later _ u)
  decide-Walk channels before (failure c invalid_response status) w u rest later j =
      Walk.passes c channels before invalid_response status w u _ _ (λ e. cc e) j (later _ u)

  submit_over-Walk :
      (channels : List SubmitChannel) (before : List ChannelAttempt) (w : W)
      → Walk states post args channels before w
          (submit_over states post args channels before w).0
          (submit_over states post args channels before w).1
  unfolding submit_over attempt_channel
  submit_over-Walk [] before w = Walk.exhausted before w
  submit_over-Walk (channel ∷ channels) before w =
      let (o, u) = attempt_at states post args channel (endpoint_of args.action channel) w in
      let result = decide states post args before (o, u) (submit_over states post args channels) in
      subst (λ c. Walk states post args (c ∷ channels) before w result.0 result.1)
        (attempt_at-channel channel (endpoint_of args.action channel) w)
        (decide-Walk channels before o w u (submit_over states post args channels)
          (submit_over-Walk channels)
          (attempt_at-Judged channel (endpoint_of args.action channel) w refl))

  -- Without a channel nothing is done; else the submission is the walk over the channels.
  abbrev pub Tried : List SubmitChannel → W → SubmitResult → W → Type 0
  Tried [] w result w' = (result ≡ no_compatible_channel) × (w' ≡ w)
  Tried (channel ∷ channels) w result w' = Walk states post args (channel ∷ channels) [] w result w'

  submit_ordered-Tried :
      (channels : List SubmitChannel) (w : W)
      → Tried channels w
          (submit_ordered states post args channels w).0
          (submit_ordered states post args channels w).1
  submit_ordered-Tried [] w = (refl, refl)
  submit_ordered-Tried (channel ∷ channels) w = submit_over-Walk (channel ∷ channels) [] w

  pub submit_action-Tried :
      (w : W)
      → Tried
          (ordered_channels args.action)
          w
          (submit_action states post args w).0
          (submit_action states post args w).1
  unfolding submit_action
  submit_action-Tried w = submit_ordered-Tried (ordered_channels args.action) w
