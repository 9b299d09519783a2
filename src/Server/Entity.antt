-- ===== src/Server/Entity.antt =====
-- handlers/resolve-entity.ts and handlers/withdraw-funds.ts: from an address to a Boson entity, and
-- the withdrawal of an entity's funds; Funds lists them. The subgraph reader is a parameter.
pub mod Unique
pub mod Withdrawn
pub mod Funds
mod Tests
use Prim.Native.Char.{Char, code}
use x402b.Prelude.{
  ℕ, zero, suc, ◌+◌, String, Option, none, some, Bool, true, false, ◌&&◌, ◌||◌, List, [], ◌∷◌, map,
  length, ◌==◌, nat_eq, string_eq, leb, ltb, if◌then◌else◌, to_lower_case,
}
use x402b.Machine.{ActionId, withdraw_funds}
use x402b.Effects.{Raised, Eff, Outcome, returned, thrown, pure, throw}
use x402b.Facilitator.{FacilitatorPerformActionInput, FacilitatorPerformActionResult}
use x402b.Server.State.{HandlerContext, HandlerCode, HandlerResult, ok, err}
use x402b.Wire.Patterns.{is_decimal_uint, is_address}
use x402b.Server.Perform.{tx_of, unreachable}

pub data Role : Type 0 where
  buyer seller : Role

pub data ResolveEntityResult : Type 0 where
  found : (entity_id : String) → Role → ResolveEntityResult
  missing : ResolveEntityResult
  ambiguous : (seller_ids buyer_ids : Option (List String)) → ResolveEntityResult
  subgraph_failure : ResolveEntityResult

-- The fields of a token's funds that the handler reads.
pub record CoreSdkFundsEntity : Type 0 where
  pub token_address : String
  pub symbol : String
  pub name : String
  pub decimals : String
  pub available_amount : String

-- The reader: the funds of an account, and the ids of the entities of a lowered address.
pub record CoreSdkReadAdapter (W : Type 0) : Type 0 where
  pub get_funds : (account_id : String) → Eff W (List CoreSdkFundsEntity)
  pub get_sellers_by_address : List ℕ → Eff W (List String)
  pub get_buyers : List ℕ → Eff W (List String)

-- `...(ids.length > 0 ? { ids } : {})`
abbrev pub if_any : List String → Option (List String)
if_any [] = none
if_any (x ∷ xs) = some (x ∷ xs)

-- With a role: the one match on its side.
abbrev resolve_side : Role → (List String → ResolveEntityResult) → List String → ResolveEntityResult
resolve_side role many [] = missing
resolve_side role many (id ∷ []) = found id role
resolve_side role many (id ∷ (other ∷ ids)) = many (id ∷ (other ∷ ids))

-- Without one: the one match on both sides together.
abbrev resolve_both : List String → List String → ResolveEntityResult
resolve_both [] [] = missing
resolve_both (id ∷ []) [] = found id seller
resolve_both [] (id ∷ []) = found id buyer
resolve_both sellers buyers = ambiguous (if_any sellers) (if_any buyers)

unfoldable pub resolve_ids : Option Role → List String → List String → ResolveEntityResult
resolve_ids (some seller) sellers buyers =
    resolve_side seller (λ ids. ambiguous (some ids) none) sellers
resolve_ids (some buyer) sellers buyers =
    resolve_side buyer (λ ids. ambiguous none (some ids)) buyers
resolve_ids none sellers buyers = resolve_both sellers buyers

module _ {W : Type 0} (core_sdk : CoreSdkReadAdapter W) where
  -- `Promise.resolve([])` on the side that the role rules out.
  abbrev pub sellers_for : Option Role → List ℕ → Eff W (List String)
  sellers_for (some buyer) address = pure []
  sellers_for _ address = core_sdk.get_sellers_by_address address

  abbrev pub buyers_for : Option Role → List ℕ → Eff W (List String)
  buyers_for (some seller) address = pure []
  buyers_for _ address = core_sdk.get_buyers address

  -- `Promise.all`: both reads are made, and either failure is one.
  abbrev pub join :
      Option Role → Outcome (List String) → Outcome (List String) → ResolveEntityResult
  join role (returned sellers) (returned buyers) = resolve_ids role sellers buyers
  join role _ _ = subgraph_failure

  unfoldable pub resolve_entity_id : String → Option Role → W → ResolveEntityResult × W
  unfolding to_lower_case resolve_ids
  resolve_entity_id address role w =
      let (sellers, w') = sellers_for role (to_lower_case address) w in
      let (buyers, w'') = buyers_for role (to_lower_case address) w' in
      (join role sellers buyers, w'')

-- The keying of `WithdrawFundsInput`: an entity id, or an address with a role or none.
pub data FundsTarget : Type 0 where
  by_entity_id : (entity_id : String) → FundsTarget
  by_address : (address : String) → Option Role → FundsTarget

pub record WithdrawFundsInput : Type 0 where
  pub target : FundsTarget
  pub signed_payload : String

pub record WithdrawFundsOk : Type 0 where
  pub tx_hash : String
  pub entity_id : String
  pub role : Option Role

-- A refusal, or the entity and the role that it was resolved with.
pub data Target : Type 0 where
  refused : (status : ℕ) → HandlerCode → Target
  entity : (entity_id : String) → Option Role → Target

unfoldable pub target_of : ResolveEntityResult → Target
target_of (found entity_id role) = entity entity_id (some role)
target_of missing = refused 404 HandlerCode.not_found
target_of (ambiguous sellers buyers) = refused 409 HandlerCode.ambiguous
target_of subgraph_failure = refused 502 HandlerCode.subgraph_failure

module _ {W : Type 0} (core_sdk : CoreSdkReadAdapter W) where
  unfoldable pub resolve_target : FundsTarget → W → Target × W
  unfolding is_decimal_uint is_address resolve_entity_id target_of
  resolve_target (by_entity_id entity_id) w =
      if is_decimal_uint entity_id
      then (entity entity_id none, w)
      else (refused 400 HandlerCode.invalid_entity_id, w)
  resolve_target (by_address address role) w =
      let (result, w') = resolve_entity_id core_sdk address role w in
      if is_address address
      then (target_of result, w')
      else (refused 400 HandlerCode.invalid_address, w)

module _ {W : Type 0} (ctx : HandlerContext W) (core_sdk : CoreSdkReadAdapter W) where
  abbrev pub withdraw_request : String → String → FacilitatorPerformActionInput
  withdraw_request entity_id signed_payload = record {
    network = ctx.config.network;
    escrow_address = ctx.config.escrow;
    action = withdraw_funds;
    key = entity_id;
    signed_payload = signed_payload;
    token_auth_strategy = none;
    token_auth = none;
    asset = none;
    amount = none;
    max_timeout_seconds = none;
  }

  abbrev pub answer_withdrawn :
      String → Option Role → Option String → Eff W (HandlerResult WithdrawFundsOk)
  answer_withdrawn entity_id role none = pure (err 502 HandlerCode.facilitator_rejected)
  answer_withdrawn entity_id role (some tx_hash) =
      pure (ok (record { tx_hash = tx_hash; entity_id = entity_id; role = role }))

  -- The `try` around the facilitator's call, with what follows it.
  abbrev pub after_withdraw :
      String
      → Option Role
      → Outcome FacilitatorPerformActionResult
      → Eff W (HandlerResult WithdrawFundsOk)
  after_withdraw entity_id role (thrown e) = unreachable e
  after_withdraw entity_id role (returned result) = answer_withdrawn entity_id role (tx_of result)

  unfoldable pub withdraw_from : String → Target → Eff W (HandlerResult WithdrawFundsOk)
  withdraw_from signed_payload (refused status code) w = pure (err status code) w
  withdraw_from signed_payload (entity entity_id role) w =
      let (o, w') = ctx.facilitator.perform_action (withdraw_request entity_id signed_payload) w in
      after_withdraw entity_id role o w'

  unfoldable pub handle_withdraw_funds : WithdrawFundsInput → Eff W (HandlerResult WithdrawFundsOk)
  unfolding resolve_target withdraw_from
  handle_withdraw_funds input w =
      let (target, w') = resolve_target core_sdk input.target w in
      withdraw_from input.signed_payload target w'
