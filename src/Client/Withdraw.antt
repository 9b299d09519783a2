-- ===== src/Client/Withdraw.antt =====
-- withdraw.ts: the signing of a withdrawal. core-sdk's reads and signature, `trim`, the text of numbers
-- and the encoding of the signed payload are parameters. The reads that `Promise.all` joins are made
-- one after the other; an error is given by its class.
pub mod Resolved
pub mod Emptied
mod Tests
use Prim.Native.String.{◌++◌ as append}
use x402b.Prelude.{
  ℕ, String, List, [], ◌∷◌, map, length, Option, none, some, Bool, true, false, not, ◌==◌,
  string_eq, nat_eq, ltb, if◌then◌else◌, to_lower_case, ◌!=◌,
}
use x402b.Wire.{BosonMetaTx}
use x402b.Wire.Patterns.{is_decimal_uint}
use x402b.Effects.{Outcome, returned, thrown, error, Eff, pure, throw, ◌>>=◌}
use x402b.Server.Entity.{
  Role, buyer, seller, CoreSdkReadAdapter, CoreSdkFundsEntity, sellers_for, buyers_for,
}
use x402b.Client.{SignedMetaTx, parse_chain_id}
use x402b.Client.Payment.{lift}
use x402b.Client.Signed.{BigNumberish, text, bigint, number, string_of, meta_tx_of}

pub data WithdrawEntitySelector : Type 0 where
  by_entity_id : BigNumberish → WithdrawEntitySelector
  by_address : String → Option Role → WithdrawEntitySelector

pub record SignWithdrawFundsArgs : Type 0 where
  pub entity_id : BigNumberish
  pub network : String
  pub escrow_address : String
  pub token_list : List String
  pub token_amounts : List BigNumberish

pub record SignWithdrawAllArgs : Type 0 where
  pub selector : WithdrawEntitySelector
  pub network : String
  pub escrow_address : String

pub record SignedWithdrawFunds : Type 0 where
  pub meta_tx : BosonMetaTx
  pub signed_payload : String
  pub entity_id : String
  pub token_list : List String
  pub token_amounts : List String

pub record WithdrawCoreSdk (W : Type 0) : Type 0 where
  pub reader : CoreSdkReadAdapter W
  pub sign_withdraw_funds :
      (nonce : String)
      → BigNumberish
      → (token_list : List String) → (token_amounts : List BigNumberish) → Eff W SignedMetaTx

pub record WithdrawDeps (W : Type 0) : Type 0 where
  pub core_sdk : (escrow : String) → (chain_id : ℕ) → WithdrawCoreSdk W
  pub get_address : Eff W String
  pub random_uint256 : W → ℕ × W
  pub to_text : ℕ → String  -- `n.toString()`
  pub trim : String → String
  pub big_int : String → Outcome ℕ
  pub encode_signed_payload : BosonMetaTx → String

-- One match on a side.
abbrev pub the_one : List String → Outcome String
the_one [] = thrown (error "Error")
the_one (id ∷ []) = returned id
the_one (id ∷ (other ∷ ids)) = thrown (error "Error")

-- One match on both sides together.
abbrev pub the_one_of : List String → List String → Outcome String
the_one_of [] [] = thrown (error "Error")
the_one_of (id ∷ []) [] = returned id
the_one_of [] (id ∷ []) = returned id
the_one_of sellers buyers = thrown (error "Error")

unfoldable pub choose_entity : Option Role → List String → List String → Outcome String
choose_entity (some seller) sellers buyers = the_one sellers
choose_entity (some buyer) sellers buyers = the_one buyers
choose_entity none sellers buyers = the_one_of sellers buyers

-- `Promise.all`, with what follows it.
abbrev pub choose_read :
    Option Role → Outcome (List String) → Outcome (List String) → Outcome String
choose_read role (returned sellers) (returned buyers) = choose_entity role sellers buyers
choose_read role (thrown e) buyers = thrown e
choose_read role (returned sellers) (thrown e) = thrown e

module _ {W : Type 0} (deps : WithdrawDeps W) where
  abbrev canonical : String → Outcome String
  canonical trimmed = if is_decimal_uint trimmed then returned trimmed else thrown (error "Error")

  unfoldable pub normalize_entity_id : BigNumberish → Outcome String
  unfolding is_decimal_uint
  normalize_entity_id (text value) = canonical (deps.trim value)
  normalize_entity_id (bigint false size) = returned (deps.to_text size)
  normalize_entity_id (number true false size) = returned (deps.to_text size)
  normalize_entity_id _ = thrown (error "Error")

  unfoldable pub resolve_entity_id_client_side :
      CoreSdkReadAdapter W → WithdrawEntitySelector → Eff W String
  unfolding normalize_entity_id to_lower_case choose_entity
  resolve_entity_id_client_side core_sdk (by_entity_id id) w = (normalize_entity_id id, w)
  resolve_entity_id_client_side core_sdk (by_address address role) w =
      let (sellers, w') = sellers_for core_sdk role (to_lower_case address) w in
      let (buyers, w'') = buyers_for core_sdk role (to_lower_case address) w' in
      (choose_read role sellers buyers, w'')

  abbrev pub signed_withdrawal : SignWithdrawFundsArgs → BosonMetaTx → String → SignedWithdrawFunds
  signed_withdrawal args meta_tx entity_id = record {
    meta_tx = meta_tx;
    signed_payload = deps.encode_signed_payload meta_tx;
    entity_id = entity_id;
    token_list = args.token_list;
    token_amounts = map (string_of deps.to_text) args.token_amounts;
  }

  -- What follows the signature; the id is normalised again.
  abbrev pub after_sign :
      SignWithdrawFundsArgs → String → ℕ → SignedMetaTx → Eff W SignedWithdrawFunds
  after_sign args from nonce signed = lift (normalize_entity_id args.entity_id) >>= λ entity_id.
      pure (signed_withdrawal args (meta_tx_of deps.to_text from nonce signed) entity_id)

  unfoldable pub sign_withdraw_funds_internal :
      SignWithdrawFundsArgs → WithdrawCoreSdk W → String → Eff W SignedWithdrawFunds
  unfolding normalize_entity_id
  sign_withdraw_funds_internal args core_sdk from w =
      let (nonce, w') = deps.random_uint256 w in
      if length args.token_list == length args.token_amounts
      then (core_sdk.sign_withdraw_funds (deps.to_text nonce) args.entity_id args.token_list
              args.token_amounts
            >>= after_sign args from nonce)
          w'
      else throw (error "Error") w

  unfoldable pub sign_withdraw_funds : SignWithdrawFundsArgs → Eff W SignedWithdrawFunds
  unfolding normalize_entity_id parse_chain_id sign_withdraw_funds_internal
  sign_withdraw_funds args = lift (normalize_entity_id args.entity_id) >>= λ entity_id.
      lift (parse_chain_id args.network) >>= λ chain_id. deps.get_address >>= λ from.
      sign_withdraw_funds_internal (record args { entity_id = text entity_id })
        (deps.core_sdk args.escrow_address chain_id) from

  -- `f.availableAmount !== "0" && BigInt(f.availableAmount) > 0n`
  abbrev pub is_available : String → Outcome Bool
  is_available amount = elim (deps.big_int amount) [
    | thrown e ↦ if amount == "0" then returned false else thrown e
    | returned n ↦ returned (if amount == "0" then false else ltb 0 n)
  ]

  abbrev pub keep_if :
      CoreSdkFundsEntity
      → Outcome Bool
      → Outcome (List CoreSdkFundsEntity)
      → Outcome (List CoreSdkFundsEntity)
  keep_if f (thrown e) rest = thrown e
  keep_if f (returned b) (thrown e) = thrown e
  keep_if f (returned true) (returned fs) = returned (f ∷ fs)
  keep_if f (returned false) (returned fs) = returned fs

  -- `funds.filter(…)`
  abbrev pub non_zero : List CoreSdkFundsEntity → Outcome (List CoreSdkFundsEntity)
  non_zero [] = returned []
  non_zero (f ∷ fs) = keep_if f (is_available f.available_amount) (non_zero fs)

  abbrev pub args_for :
      SignWithdrawAllArgs → String → List CoreSdkFundsEntity → SignWithdrawFundsArgs
  args_for args entity_id funds = record {
    entity_id = text entity_id;
    network = args.network;
    escrow_address = args.escrow_address;
    token_list = map (λ f. f.token_address) funds;
    token_amounts = map (λ f. text f.available_amount) funds;
  }

  abbrev pub sign_funds :
      SignWithdrawAllArgs
      → WithdrawCoreSdk W
      → String
      → String
      → List CoreSdkFundsEntity
      → Eff W SignedWithdrawFunds
  sign_funds args sdk from entity_id [] = throw (error "Error")
  sign_funds args sdk from entity_id (f ∷ fs) =
      sign_withdraw_funds_internal (args_for args entity_id (f ∷ fs)) sdk from

  abbrev pub sign_all : SignWithdrawAllArgs → WithdrawCoreSdk W → String → Eff W SignedWithdrawFunds
  sign_all args sdk from = resolve_entity_id_client_side sdk.reader args.selector >>= λ entity_id.
      sdk.reader.get_funds entity_id >>= λ raw.
      lift (non_zero raw) >>= λ funds. sign_funds args sdk from entity_id funds

  unfoldable pub sign_withdraw_all_available_funds : SignWithdrawAllArgs → Eff W SignedWithdrawFunds
  unfolding parse_chain_id resolve_entity_id_client_side sign_withdraw_funds_internal
  sign_withdraw_all_available_funds args = lift (parse_chain_id args.network) >>= λ chain_id.
      deps.get_address >>= λ from. sign_all args (deps.core_sdk args.escrow_address chain_id) from
