-- ===== src/Server/Entity/Funds.antt =====
-- handlers/available-funds.ts: the funds of an entity. `Number` on a token's decimals is a parameter.
use x402b.Prelude.{ℕ, String, Option, List, map}
use x402b.Effects.{Eff, Outcome, returned, thrown, pure}
use x402b.Server.State.{HandlerCode, HandlerResult, ok, err}
use x402b.Server.Entity.{
  Role, CoreSdkReadAdapter, CoreSdkFundsEntity, FundsTarget, Target, refused, entity,
  resolve_target,
}

pub record AvailableFundsEntry : Type 0 where
  pub token_address : String
  pub token_symbol : String
  pub token_name : String
  pub decimals : ℕ
  pub available_amount : String

pub record AvailableFundsBody : Type 0 where
  pub entity_id : String
  pub role : Option Role
  pub funds : List AvailableFundsEntry

module _ {W : Type 0} (number : String → ℕ) (core_sdk : CoreSdkReadAdapter W) where
  abbrev entry_of : CoreSdkFundsEntity → AvailableFundsEntry
  entry_of entry = record {
    token_address = entry.token_address;
    token_symbol = entry.symbol;
    token_name = entry.name;
    decimals = number entry.decimals;
    available_amount = entry.available_amount;
  }

  abbrev body_of : String → Option Role → List CoreSdkFundsEntity → AvailableFundsBody
  body_of entity_id role raw = record {
    entity_id = entity_id;
    role = role;
    funds = map entry_of raw;
  }

  -- The `try` around the read, with what follows it.
  abbrev after_funds :
      String → Option Role → Outcome (List CoreSdkFundsEntity) → HandlerResult AvailableFundsBody
  after_funds entity_id role (thrown e) = err 502 HandlerCode.subgraph_failure
  after_funds entity_id role (returned raw) = ok (body_of entity_id role raw)

  abbrev funds_of : Target → Eff W (HandlerResult AvailableFundsBody)
  funds_of (refused status code) w = pure (err status code) w
  funds_of (entity entity_id role) w =
      let (raw, w') = core_sdk.get_funds entity_id w in pure (after_funds entity_id role raw) w'

  unfoldable pub handle_get_available_funds : FundsTarget → Eff W (HandlerResult AvailableFundsBody)
  unfolding resolve_target
  handle_get_available_funds query w =
      let (target, w') = resolve_target core_sdk query w in funds_of target w'
