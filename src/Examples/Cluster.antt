-- ===== src/Examples/Cluster.antt =====
-- A watch that ends, is begun again and then expires; the address and the failures of a pod.
use ghactions_rust_test.Prelude.{
  ℕ, zero, suc, ◌<◌, ◌≡◌, ◌≢◌, true, [], ◌∷◌, Option, none, some, text, Result, ok, arith,
}
use ghactions_rust_test.K8s.Failures.{KubeError}
use ghactions_rust_test.K8s.Watcher.{init_listed, WatchEvent, bookmark, Api, step}
use ghactions_rust_test.K8s.Watcher.Termination.{is_silent, CalmsDown, step-ne-none}

-- What a stream answers, by how many answers are left: bookmarks, and then that it has expired.
abbrev answer : ℕ → Option (Result KubeError (WatchEvent ℕ)) × ℕ
answer zero = (some (ok (WatchEvent.error (record { code = 410; message = text "Gone" }))), 0)
answer (suc n) = (some (ok (bookmark (text "2"))), n)

abbrev api : Api ℕ ℕ
api = record {
  list = λ n. (ok (7 ∷ [], some (text "1")), n);
  watch = λ v n. (ok tt, n);
  next = answer;
  resource_version = λ k. some (text "3");
}

api-CalmsDown : CalmsDown api (λ n. n)
api-CalmsDown = record { next = quieter; watch = λ v n. omega arith }
  where
    quieter : (n : ℕ) → is_silent (answer n).0 ≡ true → (answer n).1 < n
    quieter zero h = absurd (cc h)
    quieter (suc n) h = omega arith

step-ne-none_example : step api 6 (init_listed (text "1")) 2 ≢ none
step-ne-none_example =
    step-ne-none api (λ n. n) api-CalmsDown 6 (init_listed (text "1")) 2 (omega arith)
