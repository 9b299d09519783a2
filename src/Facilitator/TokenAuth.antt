-- ===== src/Facilitator/TokenAuth.antt =====
-- verify/token-auth-signature.ts, and fetchTokenDomain of core/src/eip712/token-auth: whether a token
-- authorisation is the buyer's, for the escrow and the amount, and within its window.
pub mod Signed
pub mod Window
use Prim.Native.Nat.{◌/◌, ◌%◌}
use x402b.Prelude.{
  ℕ, ◌-◌, String, Option, none, some, Bool, true, false, not, ◌==◌, ◌!=◌, nat_eq, string_eq,
  same_text, leb, ltb, if◌then◌else◌,
}
use x402b.Wire.{BosonTokenAuth, Erc3009AuthData, PermitAuthData, Permit2AuthData}
use x402b.Effects.{Eff, Outcome, returned, thrown, pure, throw, continue}
use x402b.Facilitator.{FacilitatorErrorCode, bad_token_auth_signature, StepResult, ok, rejected}
use x402b.Facilitator.Config.{
  Libraries, PublicClient, ReadResult, Eip5267Domain, TokenEip712Domain, TokenMessage, read,
  contract_function_error, transport_error, ◌followed_by◌, reject_if, ◌then_step◌, after_step,
}
use x402b.Facilitator.Hex.{pack_rsv}
use x402b.Facilitator.MetaTx.{is_legacy_v}

module _ {W : Type 0} (client : PublicClient W) (token : String) (chain_id : ℕ) where
  -- A salt is there if its bit of the domain's field mask is set.
  abbrev pub domain_of : Eip5267Domain → TokenEip712Domain
  domain_of d = record {
    name = d.name;
    version = d.version;
    chain_id = d.chain_id;
    verifying_contract = d.verifying_contract;
    salt = if d.fields / 16 % 2 == 0 then none else some d.salt;
  }

  abbrev legacy_domain : String → String → TokenEip712Domain
  legacy_domain name version = record {
    name = name;
    version = version;
    chain_id = chain_id;
    verifying_contract = token;
    salt = none;
  }

  abbrev with_version : String → ReadResult String → Eff W TokenEip712Domain
  with_version name (read version) = pure (legacy_domain name version)
  with_version name (contract_function_error e) = pure (legacy_domain name "1")
  with_version name (transport_error e) = throw e

  -- A failure to read the name is thrown on, whichever it is.
  abbrev with_name : ReadResult String → Eff W TokenEip712Domain
  with_name (read name) w = with_version name (client.version token w).0 (client.version token w).1
  with_name (contract_function_error e) w = (thrown e, w)
  with_name (transport_error e) w = (thrown e, w)

  abbrev with_domain : ReadResult Eip5267Domain → Eff W TokenEip712Domain
  with_domain (read d) w = (returned (domain_of d), w)
  with_domain (contract_function_error e) w =
      with_name (client.name token w).0 (client.name token w).1
  with_domain (transport_error e) w = (thrown e, w)

  unfoldable pub fetch_token_domain : Eff W TokenEip712Domain
  fetch_token_domain w =
      with_domain (client.eip712_domain token w).0 (client.eip712_domain token w).1

-- `validateDeadlineWindow` at a time.
unfoldable pub validate_deadline_window : (deadline max_timeout now : ℕ) → StepResult
validate_deadline_window deadline max_timeout now =
    reject_if (leb deadline now) bad_token_auth_signature
    followed_by reject_if (ltb max_timeout (deadline - now)) bad_token_auth_signature

pub record VerifyTokenAuthSignatureArgs : Type 0 where
  pub chain_id : ℕ
  pub asset : String
  pub amount : String
  pub max_timeout_seconds : ℕ
  pub buyer : String
  pub escrow_address : String

module _ (args : VerifyTokenAuthSignatureArgs) where
  -- The terms of an authorisation at a time, before its signature is looked at.
  unfoldable pub check_terms : BosonTokenAuth → ℕ → StepResult
  unfolding validate_deadline_window
  check_terms (BosonTokenAuth.erc3009 d) now =
      reject_if (not (is_legacy_v d.v)) bad_token_auth_signature
      followed_by reject_if (not (same_text d.from args.buyer)) bad_token_auth_signature
      followed_by reject_if (not (same_text d.to args.escrow_address)) bad_token_auth_signature
      followed_by reject_if (d.value != args.amount) bad_token_auth_signature
      followed_by reject_if (leb now d.valid_after) bad_token_auth_signature
      followed_by validate_deadline_window d.valid_before args.max_timeout_seconds now
  check_terms (BosonTokenAuth.permit d) now =
      reject_if (not (is_legacy_v d.v)) bad_token_auth_signature
      followed_by reject_if (not (same_text d.owner args.buyer)) bad_token_auth_signature
      followed_by reject_if (not (same_text d.spender args.escrow_address)) bad_token_auth_signature
      followed_by reject_if (d.value != args.amount) bad_token_auth_signature
      followed_by validate_deadline_window d.deadline args.max_timeout_seconds now
  check_terms (BosonTokenAuth.permit2 d) now =
      reject_if (not (same_text d.permitted.token args.asset)) bad_token_auth_signature
      followed_by reject_if (not (same_text d.spender args.escrow_address)) bad_token_auth_signature
      followed_by reject_if (d.permitted.amount != args.amount) bad_token_auth_signature
      followed_by validate_deadline_window d.deadline args.max_timeout_seconds now

  -- The recovered signer is to be the buyer.
  abbrev pub is_buyer : Outcome String → StepResult
  is_buyer (thrown e) = rejected bad_token_auth_signature
  is_buyer (returned recovered) =
      reject_if (not (same_text recovered args.buyer)) bad_token_auth_signature

  -- What was signed, given the token's domain.
  abbrev pub erc3009_message : Erc3009AuthData → TokenEip712Domain → TokenMessage
  erc3009_message d domain =
      TokenMessage.receive_with_authorization domain d.from d.to d.value d.valid_after
        d.valid_before d.nonce

  abbrev pub permit_message : PermitAuthData → TokenEip712Domain → TokenMessage
  permit_message d domain = TokenMessage.permit domain d.owner d.spender d.value d.nonce d.deadline

  abbrev pub permit2_message : Permit2AuthData → TokenMessage
  permit2_message d =
      TokenMessage.permit_transfer_from args.chain_id d.permitted.token d.permitted.amount d.spender
        d.nonce d.deadline

module _ {W : Type 0} (lib : Libraries) (client : PublicClient W)
    (args : VerifyTokenAuthSignatureArgs) where
  -- With the domain fetched, or not.
  abbrev pub check_signer :
      (TokenEip712Domain → TokenMessage) → String → Outcome TokenEip712Domain → StepResult
  check_signer message signature (thrown e) = rejected FacilitatorErrorCode.internal_error
  check_signer message signature (returned domain) =
      is_buyer args (lib.recover_token_signer (message domain) signature)

  abbrev pub fetched : Eff W TokenEip712Domain
  fetched = fetch_token_domain client args.asset args.chain_id

  -- The signature, after the terms.
  abbrev pub check_signature : BosonTokenAuth → Eff W StepResult
  check_signature (BosonTokenAuth.erc3009 d) w = (
    returned (check_signer (erc3009_message args d) (pack_rsv d.r d.s d.v) (fetched w).0),
    (fetched w).1,
  )
  check_signature (BosonTokenAuth.permit d) w = (
    returned (check_signer (permit_message args d) (pack_rsv d.r d.s d.v) (fetched w).0),
    (fetched w).1,
  )
  check_signature (BosonTokenAuth.permit2 d) w =
      (returned (is_buyer args (lib.recover_token_signer (permit2_message args d) d.signature)), w)

  unfoldable pub verify_token_auth_signature : BosonTokenAuth → Eff W StepResult
  unfolding check_terms fetch_token_domain
  verify_token_auth_signature auth w =
      after_step (returned (check_terms args auth (client.now_seconds w))) (check_signature auth) w
