-- ===== src/K8s/Watcher/Termination.antt =====
-- The loop of `step` ends, if the server does not stay silent for ever.
use ghactions_rust_test.Prelude.{
  ℕ, zero, suc, ◌+◌, ◌*◌, ◌≤◌, ◌<◌, ◌≡◌, ◌≢◌, refl, Bool, true, false, List, Option, none, some,
  Text, Result, ok, err, returns, panics, arith,
}
use ghactions_rust_test.K8s.Failures.{KubeError}
use ghactions_rust_test.K8s.Watcher.{
  State, empty, init_listed, watching, WatchEvent, bookmark, Api, Round, on_list, on_watch,
  on_object, on_next, step_trampolined, Poll, resume, step,
}

-- The answers of an open stream that give its reader nothing: its end, and a bookmark.
abbrev pub is_silent : {K : Type 0} → Option (Result KubeError (WatchEvent K)) → Bool
is_silent none = true
is_silent (some (ok (bookmark _))) = true
is_silent (some _) = false

-- A bound on how many silent answers are still to come, which each of them lowers and the start
-- of a watch does not raise.
pub record CalmsDown {K W : Type 0} (api : Api K W) (quiet : W → ℕ) : Type 0 where
  pub next : (w : W) → is_silent (api.next w).0 ≡ true → quiet (api.next w).1 < quiet w
  pub watch : (v : Text) (w : W) → quiet (api.watch v w).1 ≤ quiet w

module _ {K W : Type 0} (api : Api K W) (quiet : W → ℕ) (calm : CalmsDown api quiet) where
  -- Two rounds for each silent answer.
  abbrev pub rounds : State → W → ℕ
  rounds empty w = 1
  rounds (watching _) w = 2 * quiet w + 1
  rounds (init_listed _) w = 2 * quiet w + 2

  -- A round that gives nothing lowers the rounds to come below `n`.
  abbrev Lowers : ℕ → Round api → Type 0
  Lowers n (returns (none, s, w)) = rounds s w < n
  Lowers n _ = Unit

  on_list-Lowers :
      (n : ℕ) (a : Result KubeError (List K × Option Text)) (w : W) → Lowers n (on_list api a w)
  unfolding on_list
  on_list-Lowers n (ok (l, none)) w = tt
  on_list-Lowers n (ok (l, some v)) w = tt
  on_list-Lowers n (err e) w = tt

  on_watch-Lowers :
      (n : ℕ) (v : Text) (a : Result KubeError (Unit {0})) (w : W)
      → 2 * quiet w + 1 < n
      → Lowers n (on_watch api v a w)
  unfolding on_watch
  on_watch-Lowers n v (ok _) w h = h
  on_watch-Lowers n v (err e) w h = tt

  on_next-Lowers :
      (n : ℕ) (v : Text) (a : Option (Result KubeError (WatchEvent K))) (w : W)
      → (is_silent a ≡ true → 2 * quiet w + 2 < n)
      → Lowers n (on_next api v a w)
  unfolding on_next on_object
  on_next-Lowers n v none w h = h refl
  on_next-Lowers n v (some (ok (bookmark _))) w h = omega (arith, h refl)
  on_next-Lowers n v (some (ok (WatchEvent.error e))) w h = tt
  on_next-Lowers n v a w h = ground arith

  round-Lowers : (s : State) (w : W) → Lowers (rounds s w) (step_trampolined api s w)
  unfolding step_trampolined
  round-Lowers empty w = on_list-Lowers 1 _ _
  round-Lowers (init_listed v) w = on_watch-Lowers _ v _ _ (omega (arith, calm.watch v w))
  round-Lowers (watching v) w = on_next-Lowers _ v _ _ (λ e. omega (arith, calm.next w e))

  resume-ne-none :
      (n : ℕ) (again : State → W → Poll api)
      → ((s : State) (w : W) → rounds s w < n → again s w ≢ none)
      → (round : Round api) → Lowers n round
      → resume api again round ≢ none
  unfolding resume
  resume-ne-none n again ih panics h = cc
  resume-ne-none n again ih (returns (none, s, w)) h = ih s w h
  resume-ne-none n again ih (returns (some r, s, w)) h = cc

  -- With a bound on the silent answers to come, `step` ends within two rounds for each of them
  -- and two more: it gives a result or panics on an object without a version.
  pub step-ne-none : (fuel : ℕ) (s : State) (w : W) → rounds s w ≤ fuel → step api fuel s w ≢ none
  unfolding step
  step-ne-none zero empty w h = absurd (omega arith)
  step-ne-none zero (init_listed v) w h = absurd (omega arith)
  step-ne-none zero (watching v) w h = absurd (omega arith)
  step-ne-none (suc fuel) s w h =
      resume-ne-none (rounds s w) (step api fuel) (λ s' w' k. step-ne-none fuel s' w' (omega arith))
        (step_trampolined api s w) (round-Lowers s w)
