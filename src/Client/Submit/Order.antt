-- ===== src/Client/Submit/Order.antt =====
-- The order in which a submission tries the channels of an action.
use mathlib.Core.Path.{subst}
use mathlib.Core.List.{append_assoc, append-nil}
use x402b.Prelude.{
  List, [], ◌∷◌, ◌++◌, Bool, true, false, ◌≡◌, refl, sym, ◌∙◌, Memᴰ, includes, includes_iff_left,
  includes_of_mem, if◌then◌else◌,
}
use x402b.Wire.{ActionChannel, NextAction}
use x402b.Client.Submit.{
  SubmitChannel, server, facilitator, submit_channel_eq, ordered_after, ordered_channels,
}

-- The name in a list.
abbrev pub as_listed : SubmitChannel → ActionChannel
as_listed server = ActionChannel.server
as_listed facilitator = ActionChannel.facilitator

-- The HTTP channels of a list, each where it first stands, less those that were seen.
pub data InOrder : List ActionChannel → List SubmitChannel → List SubmitChannel → Type 0 where
  nil : (seen : List SubmitChannel) → InOrder [] seen []
  other :
      (c : ActionChannel) (cs : List ActionChannel) (seen out : List SubmitChannel)
      → ¬ (c ≡ ActionChannel.server)
      → ¬ (c ≡ ActionChannel.facilitator)
      → InOrder cs seen out
      → InOrder (c ∷ cs) seen out
  again :
      (c : ActionChannel) (s : SubmitChannel) (cs : List ActionChannel)
      (seen out : List SubmitChannel)
      → c ≡ as_listed s
      → Memᴰ s seen
      → InOrder cs seen out
      → InOrder (c ∷ cs) seen out
  first :
      (c : ActionChannel) (s : SubmitChannel) (cs : List ActionChannel)
      (seen out : List SubmitChannel)
      → c ≡ as_listed s
      → ¬ (Memᴰ s seen)
      → InOrder cs (seen ++ (s ∷ [])) out
      → InOrder (c ∷ cs) seen (s ∷ out)

abbrev Orders : List ActionChannel → List SubmitChannel → List SubmitChannel → Type 0
Orders cs seen result = (out : List SubmitChannel) × (result ≡ seen ++ out) × InOrder cs seen out

of_test :
    (c : ActionChannel) (s : SubmitChannel) (seen : List SubmitChannel) (cs : List ActionChannel)
    → c ≡ as_listed s
    → ((before : List SubmitChannel) → Orders cs before (ordered_after before cs))
    → (b : Bool) → includes seen s ≡ b
    → Orders (c ∷ cs) seen (ordered_after (if b then seen else seen ++ (s ∷ [])) cs)
of_test c s seen cs is later true p =
    let (out, q, o) = later seen in
    (out, q, InOrder.again c s cs seen out is (includes_iff_left seen s p) o)
of_test c s seen cs is later false p =
    let (out, q, o) = later (seen ++ (s ∷ [])) in
    let fresh : ¬ (Memᴰ s seen) = λ m. cc (includes_of_mem seen s m, p) in
    (s ∷ out, q ∙ append_assoc seen (s ∷ []) out, InOrder.first c s cs seen out is fresh o)

not_http :
    (c : ActionChannel) (cs : List ActionChannel) (seen : List SubmitChannel)
    → ¬ (c ≡ ActionChannel.server)
    → ¬ (c ≡ ActionChannel.facilitator)
    → Orders cs seen (ordered_after seen cs)
    → Orders (c ∷ cs) seen (ordered_after seen cs)
not_http c cs seen p q (out, r, o) = (out, r, InOrder.other c cs seen out p q o)

ordered_after-InOrder :
    (cs : List ActionChannel) (seen : List SubmitChannel) → Orders cs seen (ordered_after seen cs)
ordered_after-InOrder [] seen = ([], sym (append-nil seen), InOrder.nil seen)
ordered_after-InOrder (ActionChannel.server ∷ cs) seen =
    of_test ActionChannel.server server seen cs refl (ordered_after-InOrder cs)
      (includes seen server) refl
ordered_after-InOrder (ActionChannel.facilitator ∷ cs) seen =
    of_test ActionChannel.facilitator facilitator seen cs refl (ordered_after-InOrder cs)
      (includes seen facilitator) refl
ordered_after-InOrder (ActionChannel.onchain ∷ cs) seen =
    not_http ActionChannel.onchain cs seen (λ e. cc e) (λ e. cc e) (ordered_after-InOrder cs seen)
ordered_after-InOrder (ActionChannel.mcp ∷ cs) seen =
    not_http ActionChannel.mcp cs seen (λ e. cc e) (λ e. cc e) (ordered_after-InOrder cs seen)
ordered_after-InOrder (ActionChannel.xmtp ∷ cs) seen =
    not_http ActionChannel.xmtp cs seen (λ e. cc e) (λ e. cc e) (ordered_after-InOrder cs seen)

pub ordered_channels-InOrder :
    (action : NextAction) → InOrder action.channels [] (ordered_channels action)
unfolding ordered_channels
ordered_channels-InOrder action =
    let (out, p, o) = ordered_after-InOrder action.channels [] in
    subst (InOrder action.channels []) (sym p) o
