-- ===== src/Client/Withdraw/Resolved.antt =====
-- The client and the server resolve an address alike.
use x402b.Prelude.{String, List, [], ◌∷◌, Option, none, some, ◌≡◌, ◌↔◌, refl}
use x402b.Effects.{Outcome, returned, thrown}
use x402b.Server.Entity.{
  Role, buyer, seller, found, resolve_ids, CoreSdkReadAdapter, join, resolve_entity_id,
}
use x402b.Client.Withdraw.{
  WithdrawDeps, by_address, choose_entity, choose_read, resolve_entity_id_client_side,
}

abbrev Finds : Option Role → List String → List String → String → Type 0
Finds role sellers buyers id = (r : Role) × (resolve_ids role sellers buyers ≡ found id r)

choose_entity_iff :
    (role : Option Role) (sellers buyers : List String) (id : String)
    → (choose_entity role sellers buyers ≡ returned id) ↔ Finds role sellers buyers id
unfolding choose_entity resolve_ids
choose_entity_iff (some seller) [] buyers id = (λ h. cc, λ (r, h). cc)
choose_entity_iff (some seller) (a ∷ []) buyers id = (λ h. (seller, cc), λ (r, h). cc)
choose_entity_iff (some seller) (a ∷ (b ∷ ss)) buyers id = (λ h. cc, λ (r, h). cc)
choose_entity_iff (some buyer) sellers [] id = (λ h. cc, λ (r, h). cc)
choose_entity_iff (some buyer) sellers (a ∷ []) id = (λ h. (buyer, cc), λ (r, h). cc)
choose_entity_iff (some buyer) sellers (a ∷ (b ∷ bs)) id = (λ h. cc, λ (r, h). cc)
choose_entity_iff none [] [] id = (λ h. cc, λ (r, h). cc)
choose_entity_iff none (a ∷ []) [] id = (λ h. (seller, cc), λ (r, h). cc)
choose_entity_iff none [] (a ∷ []) id = (λ h. (buyer, cc), λ (r, h). cc)
choose_entity_iff none (a ∷ (b ∷ ss)) buyers id = (λ h. cc, λ (r, h). cc)
choose_entity_iff none (a ∷ []) (b ∷ bs) id = (λ h. cc, λ (r, h). cc)
choose_entity_iff none [] (a ∷ (b ∷ bs)) id = (λ h. cc, λ (r, h). cc)

module _ {W : Type 0} (deps : WithdrawDeps W) (core_sdk : CoreSdkReadAdapter W) where
  choose_read_iff :
      (role : Option Role) (o p : Outcome (List String)) (id : String)
      → (choose_read role o p ≡ returned id) ↔ ((r : Role) × (join core_sdk role o p ≡ found id r))
  choose_read_iff role (returned sellers) (returned buyers) id =
      choose_entity_iff role sellers buyers id
  choose_read_iff role (returned sellers) (thrown e) id = (λ h. cc, λ (r, h). cc)
  choose_read_iff role (thrown e) p id = (λ h. cc, λ (r, h). cc)

  -- The client resolves an address, with a role or without, to an entity exactly when the server
  -- resolves it to that entity, in some role; and they make the same reads.
  pub resolve_entity_id_client_side_iff :
      (address : String) (role : Option Role) (w : W) (id : String)
      → (((resolve_entity_id_client_side deps core_sdk (by_address address role) w).0 ≡ returned id)
          ↔ ((r : Role) × ((resolve_entity_id core_sdk address role w).0 ≡ found id r)))
        × ((resolve_entity_id_client_side deps core_sdk (by_address address role) w).1
            ≡ (resolve_entity_id core_sdk address role w).1)
  unfolding resolve_entity_id_client_side resolve_entity_id
  resolve_entity_id_client_side_iff address role w id = (choose_read_iff role _ _ id, refl)
