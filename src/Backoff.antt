-- ===== src/Backoff.antt =====
-- The retry policy of the `backoff` crate, which is not part of the repository: when to wait and
-- for how long, and when to give up.
use ghactions_rust_test.Prelude.{ℕ, Option, Text}

pub record Backoff (B : Type 0) : Type 0 where
  pub next_backoff : B → Option ℕ × B
  pub reset : B → B
  -- `format!("{:?}", backoff.get_elapsed_time())`, and the elapsed time in seconds.
  pub elapsed_text : B → Text
  pub elapsed : B → ℕ
