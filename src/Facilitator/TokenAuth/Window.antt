-- ===== src/Facilitator/TokenAuth/Window.antt =====
-- The window of a token authorisation.
use x402b.Prelude.{ℕ, ◌+◌, ◌≤◌, ◌<◌, ◌≡◌, ◌↔◌, arith}
use x402b.Facilitator.{ok}
use x402b.Facilitator.TokenAuth.{validate_deadline_window}

-- A deadline passes exactly when it lies ahead, by no more than the longest timeout.
pub validate_deadline_window_iff :
    (deadline max_timeout now : ℕ)
    → (validate_deadline_window deadline max_timeout now ≡ ok)
      ↔ ((now < deadline) × (deadline ≤ now + max_timeout))
unfolding validate_deadline_window
validate_deadline_window_iff deadline max_timeout now = ground arith
