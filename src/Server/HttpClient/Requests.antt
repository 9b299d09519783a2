-- ===== src/Server/HttpClient/Requests.antt =====
-- What a settlement sends and gives back.
use mathlib.Core.List.{append_assoc, append-nil}
use x402b.Prelude.{
  ℕ, zero, suc, ◌≤◌, String, List, [], ◌∷◌, ◌++◌, Bool, true, false, ◌≡◌, refl, ap, sym, ◌∙◌, arith,
  ltb, if◌then◌else◌, ◌*◌, Dict,
}
use x402b.Json.{Json}
use x402b.Facilitator.{FacilitatorSettleInput}
use x402b.Server.HttpClient.{
  FetchRequest, Transport, CreateFacilitatorClientOptions, post_request, post_once, wait, post,
  post_settle, idempotency_key_header, is_settle_result,
}
use x402b.Server.HttpClient.Attempts.{reached, tried, post-Tried}

-- `n` times the same request.
abbrev pub copies : ℕ → FetchRequest → List FetchRequest
copies zero q = []
copies (suc n) q = q ∷ copies n q

copies_snoc : (n : ℕ) (q : FetchRequest) → copies n q ++ (q ∷ []) ≡ copies (suc n) q
copies_snoc zero q = refl
copies_snoc (suc n) q = ap (λ qs. q ∷ qs) (copies_snoc n q)

-- A log of the requests made, which `fetch` alone adds to.
pub record RequestLog {W : Type 0} (transport : Transport W) (log : W → List FetchRequest)
    : Type 0 where
  pub fetch_logged : (q : FetchRequest) (w : W) → log (transport.fetch q w).1 ≡ log w ++ (q ∷ [])
  pub sleep_unlogged : (ms : ℕ) (w : W) → log (transport.sleep ms w) ≡ log w
  pub key_unlogged : (w : W) → log (transport.idempotency_key w).1 ≡ log w

module _ {W : Type 0} (transport : Transport W) (opts : CreateFacilitatorClientOptions) where
  -- The request that settles a payment, under a key.
  abbrev pub settle_request : FacilitatorSettleInput → String → FetchRequest
  settle_request input key =
      post_request transport opts "/settle" (transport.stringify_input input) is_settle_result
        ((idempotency_key_header, key) ∷ [])

module _ {W : Type 0} (transport : Transport W) (opts : CreateFacilitatorClientOptions)
    (log : W → List FetchRequest) (logged : RequestLog transport log) where
  module _ (path body : String) (validate : Json → Bool) (extra_headers : Dict String) where
    abbrev request : FetchRequest
    request = post_request transport opts path body validate extra_headers

    log-post_once :
        (w : W)
        → log (post_once transport opts path body validate extra_headers w).1
          ≡ log w ++ (request ∷ [])
    unfolding post_once
    log-post_once w = logged.fetch_logged _ w

    log-wait :
        (attempt : ℕ) (w : W)
        → log (wait transport opts path body validate extra_headers attempt w) ≡ log w
    log-wait attempt w = of_test (ltb 0 (opts.retry.backoff_ms * attempt))
      where
        of_test :
            (b : Bool)
            → log (if b then transport.sleep (opts.retry.backoff_ms * attempt) w else w) ≡ log w
        of_test true = logged.sleep_unlogged _ w
        of_test false = refl

    log-reached :
        (k attempt : ℕ) (w : W)
        → log (reached transport opts path body validate extra_headers attempt k w)
          ≡ log w ++ copies k request
    log-reached zero attempt w = log-wait attempt w ∙ sym (append-nil (log w))
    log-reached (suc k) attempt w =
        let u = wait transport opts path body validate extra_headers attempt w in
        log-reached k (suc attempt) (post_once transport opts path body validate extra_headers u).1
        ∙ ap (λ qs. qs ++ copies k request)
            (log-post_once u ∙ ap (λ qs. qs ++ (request ∷ [])) (log-wait attempt w))
        ∙ append_assoc (log w) (request ∷ []) (copies k request)

    log-tried :
        (k attempt : ℕ) (w : W)
        → log (tried transport opts path body validate extra_headers attempt k w).1
          ≡ log w ++ copies (suc k) request
    log-tried k attempt w =
        log-post_once _
        ∙ ap (λ qs. qs ++ (request ∷ [])) (log-reached k attempt w)
        ∙ append_assoc (log w) (copies k request) (request ∷ [])
        ∙ ap (λ qs. log w ++ qs) (copies_snoc k request)

    -- The requests of one `post`.
    log-post :
        (w : W)
        → 1 ≤ opts.retry.attempts
        → (n : ℕ) × (1 ≤ n)
          × (n ≤ opts.retry.attempts)
          × (log (post transport opts path body validate extra_headers w).1
              ≡ log w ++ copies n request)
    log-post w h =
        let t = post-Tried transport opts path body validate extra_headers w h in
        (
          suc t.retries,
          omega arith,
          t.bounded,
          ap (λ r. log r.1) t.answered ∙ log-tried t.retries 0 w,
        )

  -- However often a settlement is retried, the requests that it makes are copies of one, under one
  -- idempotency key; there is at least one, and at most as many as the options allow.
  pub post_settle-log :
      (input : FacilitatorSettleInput) (w : W)
      → 1 ≤ opts.retry.attempts
      → (n : ℕ) × (1 ≤ n)
        × (n ≤ opts.retry.attempts)
        × (log (post_settle transport opts input w).1
            ≡ log w
              ++ copies n (settle_request transport opts input (transport.idempotency_key w).0))
  unfolding post_settle
  post_settle-log input w h =
      let (n, least, most, sent) =
        log-post "/settle" (transport.stringify_input input) is_settle_result
          ((idempotency_key_header, (transport.idempotency_key w).0) ∷ [])
          (transport.idempotency_key w).1 h in
      (
        n,
        least,
        most,
        sent
            ∙ ap
                (λ qs.
                  qs
                  ++ copies n (settle_request transport opts input (transport.idempotency_key w).0))
                (logged.key_unlogged w),
      )
