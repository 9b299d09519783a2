-- ===== src/Client/PostCommit/Submitted.antt =====
-- What comes of an action that the client signs and submits.
use x402b.Prelude.{
  String, List, [], Option, none, some, find?, find?-sound, ◌==◌, string_eq, Memᴰ, ◌≡◌, refl, ap,
  ◌⊎◌, inl, inr,
}
use x402b.Json.{Json}
use x402b.Wire.{NextAction}
use x402b.Machine.{on_exchange, action_name}
use x402b.Effects.{Outcome, Raised, returned, thrown, error}
use x402b.Client.{FulfillmentConfig}
use x402b.Client.Submit.{SubmitResult, SubmitReply, States, ordered_channels, submit_action}
use x402b.Client.Submit.Order.{InOrder, ordered_channels-InOrder}
use x402b.Client.Submit.Tried.{Tried, submit_action-Tried}
use x402b.Client.PostCommit.{
  action_id, SignActionArgs, SignedPostCommitAction, SignPostCommitActionDeps, submit_args,
  sign_post_commit_action, sign_and_submit_action,
}

module _ {W : Type 0} (deps : SignPostCommitActionDeps W) (states : States)
    (post : (endpoint : String) → Json → W → SubmitReply × W) (args : SignActionArgs)
    (next : List NextAction) (fulfillment : Option FulfillmentConfig) where
  -- The action was signed once, then submitted for an entry that the server listed for it.
  pub record Submitted (w w' : W) (result : SubmitResult) : Type 0 where
    pub signed : SignedPostCommitAction
    pub after : W
    pub is_signed : sign_post_commit_action deps args w ≡ (returned signed, after)
    pub entry : NextAction
    pub listed : Memᴰ entry next
    pub is_action : entry.id ≡ action_name (on_exchange (action_id args.action))
    pub submitted :
        submit_action states post
          (submit_args deps states post args next fulfillment entry signed)
          after
        ≡ (result, w')
    pub in_order : InOrder entry.channels [] (ordered_channels entry)
    pub tried :
        Tried states post
          (submit_args deps states post args next fulfillment entry signed)
          (ordered_channels entry)
          after
          result
          w'

  abbrev pub signing : W → Outcome SignedPostCommitAction × W
  signing = sign_post_commit_action deps args

  abbrev pub run : W → Outcome SubmitResult × W
  run = sign_and_submit_action deps states post args next fulfillment

  -- The first entry of the action.
  abbrev pub listing : Option NextAction
  listing = find? (λ entry. entry.id == action_name (on_exchange (action_id args.action))) next

  -- How `submitAction` ends: the signing fails, or no entry of the action is listed, or it returns.
  abbrev pub Ends : W → Type 0
  Ends w =
      ((e : Raised) × ((signing w).0 ≡ thrown e) × ((run w).0 ≡ thrown e))
      ⊎ (((signed : SignedPostCommitAction) × ((signing w).0 ≡ returned signed)
            × (listing ≡ none)
            × ((run w).0 ≡ thrown (error "Error")))
          ⊎ ((result : SubmitResult) × (w' : W) × (run w ≡ (returned result, w'))
              × Submitted w w' result))

  of_entry :
      (found : Option NextAction) (signed : SignedPostCommitAction) (w u : W)
      → listing ≡ found
      → signing w ≡ (returned signed, u)
      → Ends w
  unfolding sign_and_submit_action
  of_entry none signed w u f s = inr (inl (signed, ap (λ z. z.0) s, f, rw (s, f) refl))
  of_entry (some entry) signed w u f s =
      let submitting = submit_args deps states post args next fulfillment entry signed in
      let (result, w') = submit_action states post submitting u in
      let name = action_name (on_exchange (action_id args.action)) in
      let (named, listed) = find?-sound (λ e. e.id == name) next entry f in
      let submitted : Submitted w w' result = record {
        signed = signed;
        after = u;
        is_signed = s;
        entry = entry;
        listed = listed;
        is_action = (string_eq.beq_iff entry.id name).0 named;
        submitted = refl;
        in_order = ordered_channels-InOrder entry;
        tried = submit_action-Tried states post submitting u;
      } in
      inr (inr (result, w', rw (s, f) refl, submitted))

  of_signed : (o : Outcome SignedPostCommitAction) (w u : W) → signing w ≡ (o, u) → Ends w
  unfolding sign_and_submit_action
  of_signed (thrown e) w u s = inl (e, ap (λ z. z.0) s, rw s refl)
  of_signed (returned signed) w u s = of_entry listing signed w u refl s

  pub sign_and_submit_action-Ends : (w : W) → Ends w
  sign_and_submit_action-Ends w = of_signed (signing w).0 w (signing w).1 refl
