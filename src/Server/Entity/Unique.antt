-- ===== src/Server/Entity/Unique.antt =====
-- An address stands for an entity only when it is the one match.
use x402b.Prelude.{
  String, Option, none, some, List, [], ◌∷◌, ◌++◌, map, ◌≡◌, ◌↔◌, refl, to_lower_case,
}
use x402b.Effects.{Outcome, returned, thrown}
use x402b.Server.Entity.{
  Role, buyer, seller, found, resolve_ids, CoreSdkReadAdapter, sellers_for, buyers_for, join,
  resolve_entity_id,
}

-- The entities that match, each with its role; a role rules the other side out.
abbrev pub matches : Option Role → List String → List String → List (String × Role)
matches (some seller) sellers buyers = map (λ id. (id, seller)) sellers
matches (some buyer) sellers buyers = map (λ id. (id, buyer)) buyers
matches none sellers buyers = map (λ id. (id, seller)) sellers ++ map (λ id. (id, buyer)) buyers

resolve_ids_iff :
    (role : Option Role) (sellers buyers : List String) (id : String) (r : Role)
    → (resolve_ids role sellers buyers ≡ found id r) ↔ (matches role sellers buyers ≡ (id, r) ∷ [])
unfolding resolve_ids
resolve_ids_iff (some seller) [] buyers id r = (λ h. cc, λ h. cc)
resolve_ids_iff (some seller) (a ∷ []) buyers id r = (λ h. cc, λ h. cc)
resolve_ids_iff (some seller) (a ∷ (b ∷ ss)) buyers id r = (λ h. cc, λ h. cc)
resolve_ids_iff (some buyer) sellers [] id r = (λ h. cc, λ h. cc)
resolve_ids_iff (some buyer) sellers (a ∷ []) id r = (λ h. cc, λ h. cc)
resolve_ids_iff (some buyer) sellers (a ∷ (b ∷ bs)) id r = (λ h. cc, λ h. cc)
resolve_ids_iff none [] [] id r = (λ h. cc, λ h. cc)
resolve_ids_iff none (a ∷ []) [] id r = (λ h. cc, λ h. cc)
resolve_ids_iff none [] (a ∷ []) id r = (λ h. cc, λ h. cc)
resolve_ids_iff none (a ∷ (b ∷ ss)) buyers id r = (λ h. cc, λ h. cc)
resolve_ids_iff none (a ∷ []) (b ∷ bs) id r = (λ h. cc, λ h. cc)
resolve_ids_iff none [] (a ∷ (b ∷ bs)) id r = (λ h. cc, λ h. cc)

module _ {W : Type 0} (core_sdk : CoreSdkReadAdapter W) (address : String) (role : Option Role)
    (w : W) where
  -- Both reads succeeded, and they found this entity alone.
  abbrev pub FoundAlone : String → Role → Type 0
  FoundAlone id r =
      (sellers : List String) × (buyers : List String) × ((sellers_for core_sdk role
          (to_lower_case address) w).0
        ≡ returned sellers)
      × ((buyers_for core_sdk role (to_lower_case address)
            (sellers_for core_sdk role (to_lower_case address) w).1).0
          ≡ returned buyers)
      × (matches role sellers buyers ≡ (id, r) ∷ [])

  joined :
      (o p : Outcome (List String)) (id : String) (r : Role)
      → (join core_sdk role o p ≡ found id r) ↔ (
          (sellers : List String) × (buyers : List String) × (o ≡ returned sellers)
          × (p ≡ returned buyers)
          × (matches role sellers buyers ≡ (id, r) ∷ []))
  joined (returned sellers) (returned buyers) id r = (
    λ h. (sellers, buyers, refl, refl, (resolve_ids_iff role sellers buyers id r).0 h),
    λ (ss, bs, p, q, m).
        let same : ss ≡ sellers = cc in
        let also : bs ≡ buyers = cc in
        (resolve_ids_iff role sellers buyers id r).1 (rw (same, also) at m),
  )
  joined (returned sellers) (thrown e) id r = (λ h. cc, λ (ss, bs, p, q, m). cc)
  joined (thrown e) p id r = (λ h. cc, λ (ss, bs, q, t, m). cc)

  -- An address is resolved to an entity exactly when the reads of the sides that the role allows
  -- succeed and find that entity alone: no match, two matches and a match on both sides are refused.
  pub resolve_entity_id_iff :
      (id : String) (r : Role)
      → ((resolve_entity_id core_sdk address role w).0 ≡ found id r) ↔ FoundAlone id r
  unfolding resolve_entity_id
  resolve_entity_id_iff id r = joined _ _ id r
