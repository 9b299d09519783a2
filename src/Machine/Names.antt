-- ===== src/Machine/Names.antt =====
-- The action ids as strings.
use x402b.Prelude.{
  String, Option, some, true, ◌≡◌, refl, sym, ap, ◌∙◌, ◌==◌, string_eq, eq_iff, find?,
}
use x402b.Machine.{ExchangeActionId, ActionId, on_exchange, withdraw_funds, action_name, action_ids}

-- The action of a name.
abbrev action_of : String → Option ActionId
action_of s = find? (λ a. action_name a == s) action_ids

action_of-action_name : (a : ActionId) → action_of (action_name a) ≡ some a
action_of-action_name withdraw_funds = refl
action_of-action_name (on_exchange ExchangeActionId.redeem) = refl
action_of-action_name (on_exchange a) = refl

-- No two actions have one name.
pub action_name_injective : (a b : ActionId) → (action_name a == action_name b) ≡ true → a ≡ b
action_name_injective a b h =
    let same : ◌≡◌ {A = Option ActionId} (some a) (some b) =
      sym (action_of-action_name a)
      ∙ (ap action_of ((eq_iff (action_name a) (action_name b)).0 h) ∙ action_of-action_name b) in
    cc
