-- ===== src/Server/HttpClient/Attempts.antt =====
-- What the loop over the attempts does.
use x402b.Prelude.{
  ℕ, zero, suc, ◌≤◌, ◌<◌, String, Bool, true, false, ◌≡◌, refl, ap, ◌∙◌, ◌⊎◌, inl, inr, arith, Dict,
  Bool-cases, if◌then◌else◌,
}
use x402b.Json.{Json}
use x402b.Effects.{Outcome, returned, thrown}
use x402b.Server.HttpClient.{
  Transport, CreateFacilitatorClientOptions, post_once, wait, or_again, post_from, post, further,
  is_retryable,
}

-- Whether an attempt ended in an error that is worth another one.
abbrev pub is_worth_retry : Outcome Json → Bool
is_worth_retry (returned j) = false
is_worth_retry (thrown e) = is_retryable e

module _ {W : Type 0} (transport : Transport W) (opts : CreateFacilitatorClientOptions)
    (path body : String) (validate : Json → Bool) (extra_headers : Dict String) where
  -- The world in which an attempt is made, `k` attempts after one that is numbered.
  abbrev pub reached : (attempt k : ℕ) → W → W
  reached attempt zero w = wait transport opts path body validate extra_headers attempt w
  reached attempt (suc k) w =
      reached (suc attempt) k
        (post_once transport opts path body validate extra_headers
          (wait transport opts path body validate extra_headers attempt w)).1

  abbrev pub tried : (attempt k : ℕ) → W → Outcome Json × W
  tried attempt k w =
      post_once transport opts path body validate extra_headers (reached attempt k w)

  -- The result is that of a try, after others that were worth a retry; it is worth none itself, or
  -- it is that of the last attempt.
  pub record Tried (attempts attempt : ℕ) (w : W) (r : Outcome Json × W) : Type 0 where
    pub retries : ℕ
    pub bounded : retries < attempts
    pub failed : (k : ℕ) → k < retries → is_worth_retry (tried attempt k w).0 ≡ true
    pub answered : r ≡ tried attempt retries w
    pub stopped : (is_worth_retry r.0 ≡ false) ⊎ (suc retries ≡ attempts)

  or_again_lem :
      (r again : Outcome Json × W)
      → or_again transport opts path body validate extra_headers r again
        ≡ (if is_worth_retry r.0 then again else r)
  or_again_lem (returned j, w) again = refl
  or_again_lem (thrown e, w) again = refl

  after_first :
      (attempt : ℕ) (w : W)
      → is_worth_retry (tried attempt 0 w).0 ≡ true
      → (n : ℕ)
      → ((k : ℕ) → k < n → is_worth_retry (tried (suc attempt) k (tried attempt 0 w).1).0 ≡ true)
      → (k : ℕ) → k < suc n
      → is_worth_retry (tried attempt k w).0 ≡ true
  after_first attempt w e n later zero h = e
  after_first attempt w e n later (suc k) h = later k (omega arith)

  post_from-Tried :
      (left attempt : ℕ) (w : W)
      → Tried
          (suc left)
          attempt
          w
          (post_from transport opts path body validate extra_headers left attempt w)
  unfolding post_from
  post_from-Tried zero attempt w = record {
    retries = 0;
    bounded = omega arith;
    failed = λ k h. ground arith;
    answered = refl;
    stopped = inr refl;
  }
  post_from-Tried (suc left) attempt w =
      let first = tried attempt 0 w in
      let again =
        post_from transport opts path body validate extra_headers left (suc attempt) first.1 in
      elim (Bool-cases (is_worth_retry first.0)) [
        | inl e ↦
            let same : or_again transport opts path body validate extra_headers first again
                ≡ again =
              or_again_lem first again ∙ (rw e) in
            let t = post_from-Tried left (suc attempt) first.1 in
            record {
              retries = suc t.retries;
              bounded = let b = t.bounded in omega arith;
              failed = after_first attempt w e t.retries t.failed;
              answered = same ∙ t.answered;
              stopped = elim t.stopped [
                | inl h ↦ inl (ap (λ z. is_worth_retry z.0) same ∙ h)
                | inr h ↦ inr (omega arith)
              ];
            }
        | inr e ↦
            let same : or_again transport opts path body validate extra_headers first again
                ≡ first =
              or_again_lem first again ∙ (rw e) in
            record {
              retries = 0;
              bounded = omega arith;
              failed = λ k h. ground arith;
              answered = same;
              stopped = inl (ap (λ z. is_worth_retry z.0) same ∙ e);
            }
      ]

  -- The request is made until an attempt gives an answer or an error that is worth no other attempt,
  -- and at most as often as the options allow; the result is that of the last attempt made.
  pub post-Tried :
      (w : W)
      → 1 ≤ opts.retry.attempts
      → Tried opts.retry.attempts 0 w (post transport opts path body validate extra_headers w)
  unfolding post
  post-Tried w h = of_attempts opts.retry.attempts h
    where
      of_attempts :
          (n : ℕ)
          → 1 ≤ n
          → Tried n 0 w (
              post_from transport opts path body validate extra_headers
                (further transport opts path body validate extra_headers n)
                0
                w)
      of_attempts zero h = ground arith
      of_attempts (suc n) h = post_from-Tried n 0 w
