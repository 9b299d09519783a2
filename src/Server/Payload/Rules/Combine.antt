-- ===== src/Server/Payload/Rules/Combine.antt =====
-- When a check goes on.
use x402b.Prelude.{
  ℕ, ◌≤◌, String, eq_iff, string_eq, same_text, SameText, same_text_iff, ltb, ltb-false_iff, ◌==◌,
  ◌!=◌, Option, none, some, Bool, true, false, not, ◌≡◌, ◌↔◌, refl,
}
use x402b.Server.Payload.{Failure, refuse, ◌otherwise◌}

pub otherwise_iff : (a b : Option Failure) → (a otherwise b ≡ none) ↔ ((a ≡ none) × (b ≡ none))
otherwise_iff none b = (λ h. (refl, h), λ (_, h). h)
otherwise_iff (some f) b = (λ h. cc, λ (h, _). cc)

pub refuse_iff : (b : Bool) (f : Failure) → (refuse b f ≡ none) ↔ (b ≡ false)
refuse_iff true f = (λ h. cc, λ h. cc)
refuse_iff false f = (λ h. refl, λ h. refl)

pub refuse-not_iff : (b : Bool) (f : Failure) → (refuse (not b) f ≡ none) ↔ (b ≡ true)
refuse-not_iff true f = (λ h. refl, λ h. refl)
refuse-not_iff false f = (λ h. cc, λ h. cc)

pub both_iff :
    {P Q : Type 0} (a b : Option Failure)
    → (a ≡ none) ↔ P
    → (b ≡ none) ↔ Q
    → (a otherwise b ≡ none) ↔ (P × Q)
both_iff none b h k = (λ q. (h.0 refl, k.0 q), λ (p, q). k.1 q)
both_iff (some f) b h k = (λ q. cc, λ (p, q). cc (h.1 p))

pub check_same_iff : (a b : String) (f : Failure) → (refuse (a != b) f ≡ none) ↔ (a ≡ b)
check_same_iff a b f =
    let (go, back) = refuse-not_iff (a == b) f in
    let (same, refl_) = eq_iff a b in (λ h. same (go h), λ p. back (refl_ p))

pub check_text_iff :
    (a b : String) (f : Failure) → (refuse (not (same_text a b)) f ≡ none) ↔ SameText a b
check_text_iff a b f =
    let (go, back) = refuse-not_iff (same_text a b) f in
    let (same, refl_) = same_text_iff a b in (λ h. same (go h), λ p. back (refl_ p))

pub check_deadline_iff :
    (horizon deadline : ℕ) (f : Failure)
    → (refuse (ltb horizon deadline) f ≡ none) ↔ (deadline ≤ horizon)
check_deadline_iff horizon deadline f =
    let (go, back) = refuse_iff (ltb horizon deadline) f in
    let (by, at) = ltb-false_iff horizon deadline in (λ h. by (go h), λ p. back (at p))
