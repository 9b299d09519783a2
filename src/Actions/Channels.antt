-- ===== src/Actions/Channels.antt =====
-- Which channels an entry advertises.
use x402b.Prelude.{
  sym, string_eq, beq_refl, List, [], ◌∷◌, Bool, true, false, not, ◌&&◌, ◌||◌, ◌≡◌, refl, ◌==◌,
  includes, IsUnique, get, arith, Bool-cases, inl, inr, includes-append,
}
use mathlib.Core.List.{Sublistᴰ}
use x402b.Machine.{ActionId, action_name}
use x402b.Wire.{ActionChannel, channel_eq, channel_beq_iff}
use x402b.Actions.{
  ChannelRegistry, effective_channels, is_usable_channel, filter_channels, channels_for,
}

and-false : (b : Bool) → (b && false) ≡ false
and-false true = refl
and-false false = refl

skip_law :
    (b i u s : Bool)
    → (b ≡ true → (u && not s) ≡ false)
    → ((i && u) && not s) ≡ (((b || i) && u) && not s)
skip_law true i u s h = ground (arith, h refl)
skip_law false i u s h = refl

keep_law :
    (b i u s : Bool)
    → (b ≡ true → (u && not s) ≡ true)
    → (b || ((i && u) && not (b || s))) ≡ (((b || i) && u) && not s)
keep_law true i u s h = sym (h refl)
keep_law false i u s h = refl

module _ (usable : ActionChannel → Bool) where
  includes-filter_channels :
      (seen cs : List ActionChannel) (c : ActionChannel)
      → includes (filter_channels usable seen cs) c
        ≡ ((includes cs c && usable c) && not (includes seen c))
  unfolding filter_channels
  includes-filter_channels seen [] c = refl
  includes-filter_channels seen (d ∷ ds) c = elim (Bool-cases (includes seen d)) [
    | inl e ↦
        let skip : (d == c) ≡ true → (usable c && not (includes seen c)) ≡ false =
          λ b. rw (← (channel_beq_iff d c).0 b, e) (and-false (usable d)) in
        rw (e, includes-filter_channels seen ds c)
          (skip_law (d == c) (includes ds c) (usable c) (includes seen c) skip)
    | inr e ↦ elim (Bool-cases (usable d)) [
      | inr u ↦
          let skip : (d == c) ≡ true → (usable c && not (includes seen c)) ≡ false =
            λ b. rw (← (channel_beq_iff d c).0 b, u) in
          rw (e, u, includes-filter_channels seen ds c)
            (skip_law (d == c) (includes ds c) (usable c) (includes seen c) skip)
      | inl u ↦
          let keep : (d == c) ≡ true → (usable c && not (includes seen c)) ≡ true =
            λ b. rw (← (channel_beq_iff d c).0 b, u, e) in
          rw (e, u, includes-filter_channels (d ∷ seen) ds c)
            (keep_law (d == c) (includes ds c) (usable c) (includes seen c) keep)
    ]
  ]

  filter_channels-IsUnique :
      (seen cs : List ActionChannel) → IsUnique (filter_channels usable seen cs)
  unfolding filter_channels
  filter_channels-IsUnique seen [] = tt
  filter_channels-IsUnique seen (d ∷ ds) = elim (Bool-cases (includes seen d)) [
    | inl e ↦ rw e (filter_channels-IsUnique seen ds)
    | inr e ↦ elim (Bool-cases (usable d)) [
      | inr u ↦ rw (e, u) (filter_channels-IsUnique seen ds)
      | inl u ↦
          rw (e, u)
            (
              rw (includes-filter_channels (d ∷ seen) ds d, beq_refl d)
                  (and-false (includes ds d && usable d)),
              filter_channels-IsUnique (d ∷ seen) ds,
            )
    ]
  ]

  filter_channels-Sublistᴰ :
      (seen cs : List ActionChannel) → Sublistᴰ (filter_channels usable seen cs) cs
  unfolding filter_channels
  filter_channels-Sublistᴰ seen [] = Sublistᴰ.slnil
  filter_channels-Sublistᴰ seen (d ∷ ds) = elim (Bool-cases (includes seen d)) [
    | inl e ↦ rw e (Sublistᴰ.cons (filter_channels-Sublistᴰ seen ds))
    | inr e ↦ elim (Bool-cases (usable d)) [
      | inl u ↦ rw (e, u) (Sublistᴰ.cons-cons refl (filter_channels-Sublistᴰ (d ∷ seen) ds))
      | inr u ↦ rw (e, u) (Sublistᴰ.cons (filter_channels-Sublistᴰ seen ds))
    ]
  ]

-- A channel is advertised for an action exactly when it is one of the effective channels and usable
-- for the action; no channel is advertised twice; and they stand in the seller's order.
pub channels_for_lem :
    (registry : ChannelRegistry) (id : ActionId)
    → ((c : ActionChannel)
        → includes (channels_for registry id) c ≡ (
            includes (effective_channels registry) c
            && is_usable_channel c id registry (get registry.endpoints (action_name id))))
      × IsUnique (channels_for registry id)
      × Sublistᴰ (channels_for registry id) (effective_channels registry)
unfolding channels_for
channels_for_lem registry id =
    let usable = λ (c : ActionChannel).
      is_usable_channel c id registry (get registry.endpoints (action_name id)) in
    (
      λ c. ground (arith, includes-filter_channels usable [] (effective_channels registry) c),
      filter_channels-IsUnique usable [] (effective_channels registry),
      filter_channels-Sublistᴰ usable [] (effective_channels registry),
    )

-- `onchain` is always among the effective channels.
pub effective_channels-onchain :
    (registry : ChannelRegistry)
    → includes (effective_channels registry) ActionChannel.onchain ≡ true
unfolding effective_channels
effective_channels-onchain registry =
    ground
      (arith, includes-append registry.channels (ActionChannel.onchain ∷ []) ActionChannel.onchain)

-- With an escrow address every action is advertised on-chain.
pub channels_for-onchain :
    (registry : ChannelRegistry) (id : ActionId)
    → (registry.escrow == "") ≡ false
    → includes (channels_for registry id) ActionChannel.onchain ≡ true
unfolding is_usable_channel
channels_for-onchain registry id h = ground (
  arith,
  (channels_for_lem registry id).0 ActionChannel.onchain,
  effective_channels-onchain registry,
)
