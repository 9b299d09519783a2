-- ===== src/Effects.antt =====
-- What asynchronous code does to the world around it. An operation takes the world and gives back the
-- new one, with a value or with what it threw. The programs modelled here await each promise where
-- they make it, so a sequence of operations is the sequence of their effects.
use x402b.Prelude.{ap, String, ℕ, Option, ◌≡◌, refl, ◌⊎◌, inl, inr}

-- A thrown value: the facilitator client's error, another `Error`, or a value that is none.
pub data Raised : Type 0 where
  http_error :
      (code message : String) → (status : Option ℕ) → (facilitator_code : Option String) → Raised
  error : (message : String) → Raised
  value : (text : String) → Raised

-- `e instanceof Error ? e.message : String(e)`
abbrev pub error_message : Raised → String
error_message (http_error code message status facilitator_code) = message
error_message (error message) = message
error_message (value text) = text

pub data Outcome {ℓ} (A : Type ℓ) : Type ℓ where
  returned : A → Outcome A
  thrown : Raised → Outcome A

abbrev pub Eff : Type 0 → Type 0 → Type 0
Eff W A = W → Outcome A × W

module _ {W A : Type 0} where
  abbrev pub pure : A → Eff W A
  pure a w = (returned a, w)

  abbrev pub throw : Raised → Eff W A
  throw e w = (thrown e, w)

  -- `try { … } catch (e) { … }`, whose result is the value that either gives.
  abbrev pub handle : Outcome A → W → (Raised → Eff W A) → Outcome A × W
  handle (returned a) w recover = (returned a, w)
  handle (thrown e) w recover = recover e w

  abbrev pub try_catch : Eff W A → (Raised → Eff W A) → Eff W A
  try_catch m recover w = handle (m w).0 (m w).1 recover

module _ {W A B : Type 0} where
  abbrev pub continue : Outcome A → W → (A → Eff W B) → Outcome B × W
  continue (returned a) w f = f a w
  continue (thrown e) w f = (thrown e, w)

  infixl 5 ◌>>=◌
  abbrev pub ◌>>=◌ : Eff W A → (A → Eff W B) → Eff W B
  ◌>>=◌ m f w = continue (m w).0 (m w).1 f

module _ {W B : Type 0} where
  infixl 5 ◌>>◌
  abbrev pub ◌>>◌ : Eff W (Unit {0}) → Eff W B → Eff W B
  m >> k = m >>= λ _. k

-- An effect on a part of a larger state.
module _ {W S A : Type 0} (part : S → W) (replace : W → S → S) where
  abbrev pub focus : Eff W A → Eff S A
  focus m s = ((m (part s)).0, replace (m (part s)).1 s)

pub Outcome-cases {ℓ} :
    {A : Type ℓ} (o : Outcome A) → ((a : A) × (o ≡ returned a)) ⊎ ((e : Raised) × (o ≡ thrown e))
Outcome-cases (returned a) = inl (a, refl)
Outcome-cases (thrown e) = inr (e, refl)

-- Inversion of a continuation that returned.
pub continue-eq-returned :
    {W A B : Type 0} (o : Outcome A) (w : W) (f : A → Eff W B) {b : B} {w' : W}
    → continue o w f ≡ (returned b, w')
    → (a : A) × (o ≡ returned a) × (f a w ≡ (returned b, w'))
continue-eq-returned (returned a) w f h = (a, refl, h)
continue-eq-returned (thrown e) w f h = cc

-- An outcome with the world that it comes with.
pub pair_of_outcome : {W A : Type 0} (r : Outcome A × W) {o : Outcome A} → r.0 ≡ o → r ≡ (o, r.1)
pair_of_outcome r p = λ i. (p i, r.1)

-- Inversion of a sequence that returned.
pub bind-eq-returned :
    {W A B : Type 0} (m : Eff W A) (f : A → Eff W B) (w : W) {b : B} {w' : W}
    → (m >>= f) w ≡ (returned b, w')
    → (a : A) × (u : W) × (m w ≡ (returned a, u)) × (f a u ≡ (returned b, w'))
bind-eq-returned m f w h =
    let (a, p, q) = continue-eq-returned (m w).0 (m w).1 f h in
    (a, (m w).1, pair_of_outcome (m w) p, q)

pub pure-eq : {W A : Type 0} (a b : A) (w w' : W) → pure a w ≡ (returned b, w') → a ≡ b
pure-eq a b w w' h = go a b (ap (λ z. z.0) h)
  where
    go : {A : Type 0} (a b : A) → ◌≡◌ {A = Outcome A} (returned a) (returned b) → a ≡ b
    go a b h = cc
