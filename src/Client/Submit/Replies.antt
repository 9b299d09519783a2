-- ===== src/Client/Submit/Replies.antt =====
-- A submission as a walk over its channels, told by the replies that they give.
use x402b.Prelude.{
  ℕ, ◌≤◌, ◌<◌, String, List, [], ◌∷◌, ◌++◌, Option, none, some, Bool, true, false, ◌≡◌, ◌≢◌, refl,
  ap, sym, ◌∙◌, if◌then◌else◌,
}
use x402b.Json.{Json}
use x402b.Machine.{ExchangeState, DisputeState}
use x402b.Wire.Patterns.{is_hex32}
use x402b.Client.Submit.{
  SubmitChannel, server, facilitator, ChannelAttempt, accepted, refused, ChannelFailureReason,
  SubmitArgs, SubmitResult, ChannelResult, submitted, all_channels_failed, SubmitReply, failed,
  response, States, is_object, parse_result, parse_server_result, parse_facilitator_result,
  endpoint_of, body_for, client_error, server_error, network, timeout, no_endpoint,
  invalid_response, hash_in, text_in, fields_or_none, result_of,
}
use x402b.Server.HttpClient.{field_of, is_bool}

hash_in-text :
    (o : Option Json) (h : String)
    → hash_in o ≡ some h
    → (o ≡ some (Json.str h)) × (is_hex32 h ≡ true)
hash_in-text (some (Json.str s)) h p = of_test (is_hex32 s) refl p
  where
    of_test :
        (b : Bool)
        → is_hex32 s ≡ b
        → ◌≡◌ {A = Option String} (if b then some s else none) (some h)
        → (◌≡◌ {A = Option Json} (some (Json.str s)) (some (Json.str h))) × (is_hex32 h ≡ true)
    of_test true q k =
        let same : s ≡ h = cc in (ap (λ x. some (Json.str x)) same, ap is_hex32 (sym same) ∙ q)
    of_test false q k = cc
hash_in-text _ h p = cc

text_in-text :
    {A : Type 0} (f : String → Option A) (o : Option Json) (a : A)
    → text_in f o ≡ some a
    → (t : String) × (o ≡ some (Json.str t)) × (f t ≡ some a)
text_in-text f (some (Json.str s)) a p = (s, refl, p)
text_in-text f _ a p = cc

result_of-parts :
    (hash : Option String) (state : Option ExchangeState) (dispute : Option DisputeState)
    (next : Option Json) (r : ChannelResult)
    → result_of hash state dispute next ≡ some r
    → (hash ≡ some r.tx_hash)
      × (state ≡ some r.new_exchange_state)
      × (dispute ≡ r.new_dispute_state)
      × (next ≡ r.next_actions)
result_of-parts (some hash) (some state) dispute next r h =
    let same : record {
      tx_hash = hash;
      new_exchange_state = state;
      new_dispute_state = dispute;
      next_actions = next;
    }
        ≡ r =
      cc in
    (
      ap (λ x. some x.tx_hash) same,
      ap (λ x. some x.new_exchange_state) same,
      ap (λ x. x.new_dispute_state) same,
      ap (λ x. x.next_actions) same,
    )
result_of-parts none state dispute next r h = cc
result_of-parts (some hash) none dispute next r h = cc

module _ {W : Type 0} (states : States) (post : (endpoint : String) → Json → W → SubmitReply × W)
    (args : SubmitArgs) where
  -- The text of a 32-byte hash, and the names of states, as a body has them.
  pub record HasParts (body place : Json) (state dispute : String) (r : ChannelResult)
      : Type 0 where
    pub has_hash : field_of body "txHash" ≡ some (Json.str r.tx_hash)
    pub is_hash : is_hex32 r.tx_hash ≡ true
    pub name : String
    pub has_state : field_of place state ≡ some (Json.str name)
    pub is_state : states.exchange_state_of name ≡ some r.new_exchange_state
    pub has_dispute : text_in states.dispute_state_of (field_of place dispute) ≡ r.new_dispute_state

  -- What a body says: the server's has the states in the next actions, which it hands on; the
  -- facilitator's has them at its top, where it is `ok`.
  abbrev pub Reads : SubmitChannel → Json → ChannelResult → Type 0
  Reads server body r =
      HasParts body (fields_or_none (field_of body "nextActions")) "exchangeState" "disputeState" r
      × (r.next_actions ≡ field_of body "nextActions")
  Reads facilitator body r =
      HasParts body body "newExchangeState" "newDisputeState" r
      × (is_bool true (field_of body "ok") ≡ true)
      × (r.next_actions ≡ none)

  has_parts :
      (body place : Json) (state dispute : String) (next : Option Json) (r : ChannelResult)
      → result_of
          (hash_in (field_of body "txHash"))
          (text_in states.exchange_state_of (field_of place state))
          (text_in states.dispute_state_of (field_of place dispute))
          next
        ≡ some r
      → HasParts body place state dispute r × (r.next_actions ≡ next)
  has_parts body place state dispute next r h =
      let (p, q, d, n) = result_of-parts _ _ _ _ r h in
      let (has_hash, is_hash) = hash_in-text _ r.tx_hash p in
      let (name, has_state, is_state) = text_in-text _ _ r.new_exchange_state q in
      (
        record {
          has_hash = has_hash;
          is_hash = is_hash;
          name = name;
          has_state = has_state;
          is_state = is_state;
          has_dispute = d;
        },
        sym n,
      )

  pub parse_result-Reads :
      (channel : SubmitChannel) (body : Json) (r : ChannelResult)
      → parse_result states post args channel body ≡ some r
      → Reads channel body r
  unfolding parse_server_result parse_facilitator_result
  parse_result-Reads server body r h = has_parts body _ _ _ _ r h
  parse_result-Reads facilitator body r h = of_test (is_bool true (field_of body "ok")) refl h
    where
      of_test :
          (b : Bool)
          → is_bool true (field_of body "ok") ≡ b
          → (if b
              then result_of
                  (hash_in (field_of body "txHash"))
                  (text_in states.exchange_state_of (field_of body "newExchangeState"))
                  (text_in states.dispute_state_of (field_of body "newDisputeState"))
                  none
              else none)
            ≡ some r
          → Reads facilitator body r
      of_test true q k = let (parts, n) = has_parts body _ _ _ _ r k in (parts, q, n)
      of_test false q k = cc

  parts-result_of :
      (body place : Json) (state dispute : String) (next : Option Json) (r : ChannelResult)
      → HasParts body place state dispute r
      → r.next_actions ≡ next
      → result_of
          (hash_in (field_of body "txHash"))
          (text_in states.exchange_state_of (field_of place state))
          (text_in states.dispute_state_of (field_of place dispute))
          next
        ≡ some r
  parts-result_of body place state dispute next r p n =
      rw (p.has_hash, p.is_hash, p.has_state, p.is_state, p.has_dispute, sym n) refl

  pub Reads-parse_result :
      (channel : SubmitChannel) (body : Json) (r : ChannelResult)
      → Reads channel body r
      → parse_result states post args channel body ≡ some r
  unfolding parse_server_result parse_facilitator_result
  Reads-parse_result server body r (p, n) = parts-result_of body _ _ _ _ r p n
  Reads-parse_result facilitator body r (p, ok, n) = rw ok (parts-result_of body body _ _ _ r p n)

  -- What is no object says no result.
  pub Reads-is_object :
      (channel : SubmitChannel) (body : Json) (r : ChannelResult)
      → Reads channel body r
      → is_object states post args body ≡ true
  Reads-is_object channel (Json.obj f) r x = refl
  Reads-is_object channel (Json.arr f) r x = refl
  Reads-is_object server Json.null r x = cc (x.0.has_hash)
  Reads-is_object server (Json.bool b) r x = cc (x.0.has_hash)
  Reads-is_object server (Json.num b) r x = cc (x.0.has_hash)
  Reads-is_object server (Json.str b) r x = cc (x.0.has_hash)
  Reads-is_object facilitator Json.null r x = cc
  Reads-is_object facilitator (Json.bool b) r x = cc
  Reads-is_object facilitator (Json.num b) r x = cc
  Reads-is_object facilitator (Json.str b) r x = cc

  -- The channel's endpoint was asked, and replied.
  pub record Asked (channel : SubmitChannel) (reply : SubmitReply) (w w' : W) : Type 0 where
    pub endpoint : String
    pub listed : endpoint_of args.action channel ≡ some endpoint
    pub replied : post endpoint (body_for channel args) w ≡ (reply, w')

  -- A reply of success, whose body says the result.
  pub record Accepts (channel : SubmitChannel) (status : ℕ) (r : ChannelResult) (w w' : W)
      : Type 0 where
    pub body : Json
    pub below : status < 500
    pub asked : Asked channel (response true status body) w w'
    pub reads : Reads channel body r

  -- What a failure is recorded for.
  pub data Refuses (channel : SubmitChannel)
      : ChannelFailureReason → Option ℕ → W → W → Type 0 where
    unlisted :
        (w : W) → endpoint_of args.action channel ≡ none → Refuses channel no_endpoint none w w
    timed_out : (w w' : W) → Asked channel (failed true) w w' → Refuses channel timeout none w w'
    unreachable : (w w' : W) → Asked channel (failed false) w w' → Refuses channel network none w w'
    fails :
        (w w' : W) (is_ok : Bool) (status : ℕ) (body : Json)
        → 500 ≤ status
        → Asked channel (response is_ok status body) w w'
        → Refuses channel server_error (some status) w w'
    declines :
        (w w' : W) (status : ℕ) (body : Json)
        → status < 500
        → Asked channel (response false status body) w w'
        → Refuses channel client_error (some status) w w'
    malformed :
        (w w' : W) (status : ℕ) (body : Json)
        → status < 500
        → Asked channel (response true status body) w w'
        → ((r : ChannelResult) → ¬ (Reads channel body r))
        → Refuses channel invalid_response (some status) w w'

  -- A walk over channels after some attempts: it ends with the first reply of success that says a
  -- result, or the first of neither success nor a server's failure, and passes any other.
  pub data Walk : List SubmitChannel → List ChannelAttempt → W → SubmitResult → W → Type 0 where
    exhausted :
        (before : List ChannelAttempt) (w : W) → Walk [] before w (all_channels_failed before) w
    ends :
        (channel : SubmitChannel) (channels : List SubmitChannel) (before : List ChannelAttempt)
        (status : ℕ) (r : ChannelResult) (w w' : W)
        → Accepts channel status r w w'
        → Walk
            (channel ∷ channels)
            before
            w
            (submitted r channel (before ++ (accepted channel status ∷ [])))
            w'
    stops :
        (channel : SubmitChannel) (channels : List SubmitChannel) (before : List ChannelAttempt)
        (status : Option ℕ) (w w' : W)
        → Refuses channel client_error status w w'
        → Walk
            (channel ∷ channels)
            before
            w
            (all_channels_failed (before ++ (refused channel client_error status ∷ [])))
            w'
    passes :
        (channel : SubmitChannel) (channels : List SubmitChannel) (before : List ChannelAttempt)
        (reason : ChannelFailureReason) (status : Option ℕ) (w u w' : W) (result : SubmitResult)
        → reason ≢ client_error
        → Refuses channel reason status w u
        → Walk channels (before ++ (refused channel reason status ∷ [])) u result w'
        → Walk (channel ∷ channels) before w result w'
