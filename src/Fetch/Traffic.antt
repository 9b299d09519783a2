-- ===== src/Fetch/Traffic.antt =====
-- The requests that a paying `fetch` makes.
use mathlib.Core.List.{append_assoc, append-nil}
use x402b.Prelude.{
  ℕ, String, List, [], ◌∷◌, ◌++◌, Option, none, some, Bool, true, false, ◌≡◌, refl, ap, sym, ◌∙◌,
  ltb, ◌==◌, nat_eq, if◌then◌else◌,
}
use x402b.Json.{Json}
use x402b.Wire.{EscrowPaymentPayload}
use x402b.Effects.{Outcome, returned, thrown, Raised, Eff, handle, try_catch, continue, ◌>>=◌}
use x402b.Fetch.{
  Request, Response, CommitFallback, off, auto, WrapFetchOptions, Platform, X402bClient,
  recover_payload, settle_request, settle_at, settle_with, read_answer, give_up,
  try_facilitator_fallback, surface, fall_back, after_retry, with_payment, retry, pay_challenge,
  after_initial, with_session, fetch_with_payment, extract_escrow_entry, network_failure,
  network_marker,
}
use x402b.Fetch.Read.{CommitTarget, Fallback, fallback_target}

-- A log of the requests made, which `fetch` alone adds to.
pub record RequestLog {W : Type 0} (platform : Platform W) (client : X402bClient W)
    (log : W → List Request) : Type 0 where
  pub fetch_logged :
      (q : Request) (t : Option ℕ) (w : W) → log (platform.fetch q t w).1 ≡ log w ++ (q ∷ [])
  pub uuid_unlogged : (w : W) → log (platform.random_uuid w).1 ≡ log w
  pub client_unlogged : (entry : Json) (w : W) → log (client.handle_402 entry w).1 ≡ log w

module _ {W : Type 0} (platform : Platform W) (client : X402bClient W)
    (options : WrapFetchOptions) where
  -- A POST to the facilitator of the challenge's first commit entry that names one, with the payload
  -- of the header, where the options allow it; or no request.
  pub data Settles (header : String) : List Request → Type 0 where
    nothing : Settles header []
    posted :
        (entry : Json) (network : String) (target : CommitTarget) (payload : EscrowPaymentPayload)
        → options.commit_fallback ≡ auto
        → fallback_target entry ≡ some (network, target)
        → recover_payload platform header ≡ returned payload
        → Settles header (
            settle_request platform client options target.1
              (record { network = network; payload = payload; requirements = entry })
            ∷ [])

  -- The request alone, or a second one with a payment, with what follows it.
  pub data Traffic (first : Request) : List Request → Type 0 where
    unpaid : Traffic first (first ∷ [])
    paid :
        (header : String) (after : List Request)
        → Settles header after
        → Traffic first (first ∷ with_payment platform client options first header ∷ after)

module _ {W : Type 0} (platform : Platform W) (client : X402bClient W) (options : WrapFetchOptions)
    (log : W → List Request) (logged : RequestLog platform client log) where
  log-bind :
      {A B : Type 0} (m : Eff W A) (f : A → Eff W B) (w : W)
      → ((a : A) (u : W) → log (f a u).1 ≡ log u)
      → log ((m >>= f) w).1 ≡ log (m w).1
  log-bind {A = A} m f w quiet = go (m w).0 (m w).1
    where
      go : (o : Outcome A) (u : W) → log (continue o u f).1 ≡ log u
      go (returned a) u = quiet a u
      go (thrown e) u = refl

  log-try :
      {A : Type 0} (m : Eff W A) (recover : Raised → Eff W A) (w : W)
      → ((e : Raised) (u : W) → log (recover e u).1 ≡ log u)
      → log (try_catch m recover w).1 ≡ log (m w).1
  log-try {A = A} m recover w quiet = go (m w).0 (m w).1
    where
      go : (o : Outcome A) (u : W) → log (handle o u recover).1 ≡ log u
      go (returned a) u = refl
      go (thrown e) u = quiet e u

  -- The requests of a state after another.
  abbrev Adds : (List Request → Type 0) → W → W → Type 0
  Adds P w u = (qs : List Request) × (log u ≡ log w ++ qs) × P qs

  abbrev MaySettle : String → W → W → Type 0
  MaySettle header w u = Adds (Settles platform client options header) w u

  settle_at-MaySettle :
      (entry : Json) (header : String) (target : Option (String × CommitTarget)) (w : W)
      → options.commit_fallback ≡ auto
      → fallback_target entry ≡ target
      → MaySettle header w (settle_at platform client options entry header target w).1
  settle_at-MaySettle entry header none w allowed p =
      ([], sym (append-nil (log w)), Settles.nothing)
  settle_at-MaySettle entry header (some (network, (action, url))) w allowed p =
      parsed (recover_payload platform header) refl
    where
      parsed :
          (o : Outcome EscrowPaymentPayload)
          → recover_payload platform header ≡ o
          → MaySettle header w
              (settle_with platform client options entry (network, (action, url)) o w).1
      parsed (thrown e) q = ([], sym (append-nil (log w)), Settles.nothing)
      parsed (returned payload) q =
          let request =
            settle_request platform client options url
              (record { network = network; payload = payload; requirements = entry }) in
          let send = platform.fetch request (some options.facilitator_timeout_ms) in
          let read = read_answer platform client options action in
          (
            request ∷ [],
            log-try (send >>= read) (give_up platform client options) w (λ e u. refl)
                ∙ log-bind send read w (λ a u. refl)
                ∙ logged.fetch_logged request _ w,
            Settles.posted entry network (action, url) payload allowed p q,
          )

  fall_back-MaySettle :
      (entry : Json) (header : String) (upstream : Response) (marker : String) (w : W)
      → options.commit_fallback ≡ auto
      → MaySettle header w (fall_back platform client options entry header upstream marker w).1
  unfolding try_facilitator_fallback
  fall_back-MaySettle entry header upstream marker w allowed =
      let (qs, p, s) = settle_at-MaySettle entry header (fallback_target entry) w allowed refl in
      (
        qs,
        log-bind (try_facilitator_fallback platform client options entry header)
              (surface platform client options upstream marker) w (surfaced upstream marker)
            ∙ p,
        s,
      )
    where
      surfaced :
          (upstream : Response) (marker : String) (found : Option Fallback) (u : W)
          → log (surface platform client options upstream marker found u).1 ≡ log u
      surfaced upstream marker none u = refl
      surfaced upstream marker (some found) u = refl

  after_retry-MaySettle :
      (mode : CommitFallback) (entry : Json) (header : String) (o : Outcome Response) (w : W)
      → options.commit_fallback ≡ mode
      → MaySettle header w (after_retry platform client options mode entry header o w).1
  after_retry-MaySettle off entry header o w p = ([], sym (append-nil (log w)), Settles.nothing)
  after_retry-MaySettle auto entry header (thrown e) w p =
      fall_back-MaySettle entry header
        (network_failure platform (network_marker platform client options e))
        (network_marker platform client options e) w p
  after_retry-MaySettle auto entry header (returned response) w p =
      of_test (ltb response.status 500)
    where
      of_test :
          (b : Bool)
          → MaySettle header w
              (if b
                then (returned response, w)
                else fall_back platform client options entry header response
                    (platform.to_text response.status)
                    w).1
      of_test true = ([], sym (append-nil (log w)), Settles.nothing)
      of_test false = fall_back-MaySettle entry header response _ w p

  -- After the first request.
  abbrev Onward : Request → W → W → Type 0
  Onward first w u = Adds (λ qs. Traffic platform client options first (first ∷ qs)) w u

  retry-Onward :
      (first : Request) (entry : Json) (header : String) (w : W)
      → Onward first w (retry platform client options first entry header w).1
  retry-Onward first entry header w =
      let paying = with_payment platform client options first header in
      let (qs, p, s) =
        after_retry-MaySettle options.commit_fallback entry header (platform.fetch paying none w).0
          (platform.fetch paying none w).1 refl in
      (
        paying ∷ qs,
        p
            ∙ ap (λ xs. xs ++ qs) (logged.fetch_logged paying none w)
            ∙ append_assoc (log w) (paying ∷ []) qs,
        Traffic.paid header qs s,
      )

  pay_challenge-Onward :
      (first : Request) (initial : Response) (entry : Option Json) (w : W)
      → Onward first w (pay_challenge platform client options first initial entry w).1
  pay_challenge-Onward first initial none w = ([], sym (append-nil (log w)), Traffic.unpaid)
  pay_challenge-Onward first initial (some entry) w =
      signed (client.handle_402 entry w).0 (client.handle_402 entry w).1
        (logged.client_unlogged entry w)
    where
      signed :
          (o : Outcome String) (u : W)
          → log u ≡ log w
          → Onward first w (continue o u (retry platform client options first entry)).1
      signed (thrown e) u p = ([], p ∙ sym (append-nil (log w)), Traffic.unpaid)
      signed (returned header) u p =
          let (qs, q, t) = retry-Onward first entry header u in (qs, q ∙ ap (λ xs. xs ++ qs) p, t)

  after_initial-Onward :
      (first : Request) (o : Outcome Response) (w : W)
      → Onward first w (continue o w (after_initial platform client options first)).1
  after_initial-Onward first (thrown e) w = ([], sym (append-nil (log w)), Traffic.unpaid)
  after_initial-Onward first (returned initial) w = of_test (initial.status == 402)
    where
      of_test :
          (b : Bool)
          → Onward first w
              (if b
                then pay_challenge platform client options first initial
                    (extract_escrow_entry initial)
                    w
                else (returned initial, w)).1
      of_test true = pay_challenge-Onward first initial (extract_escrow_entry initial) w
      of_test false = ([], sym (append-nil (log w)), Traffic.unpaid)

  -- Whatever the servers answer, the wrapped `fetch` makes the caller's request with a session id, at
  -- most one more, which differs from it in the payment header alone, and at most one POST to a
  -- facilitator, only where the options allow the fallback: with the payload of that header.
  pub fetch_with_payment-Traffic :
      (input : Request) (w : W)
      → (qs : List Request) × (log (fetch_with_payment platform client options input w).1
          ≡ log w ++ qs)
        × Traffic platform client options
            (with_session platform client options input (platform.random_uuid w).0)
            qs
  unfolding fetch_with_payment
  fetch_with_payment-Traffic input w =
      let (id, u) = platform.random_uuid w in
      let first = with_session platform client options input id in
      let (qs, p, t) =
        after_initial-Onward first (platform.fetch first none u).0
          (platform.fetch first none u).1 in
      (
        first ∷ qs,
        p
            ∙ ap (λ xs. xs ++ qs) (logged.fetch_logged first none u)
            ∙ append_assoc (log u) (first ∷ []) qs
            ∙ ap (λ xs. xs ++ (first ∷ qs)) (logged.uuid_unlogged w),
        t,
      )
