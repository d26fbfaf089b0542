-- ===== src/Examples/Fixtures.antt =====
-- The inputs of the examples.
use ghactions_rust_test.Prelude.{
  Run, returns, panics, ◌+◌, ℕ, zero, suc, Bool, true, List, [], ◌∷◌, Option, none, some, Text,
  text, Result, ok,
}
use ghactions_rust_test.Backoff.{Backoff}
use ghactions_rust_test.K8s.Objects.{ContainerState, ContainerStateWaiting, Pod}
use ghactions_rust_test.K8s.Watcher.{added, applied, deleted}
use ghactions_rust_test.Acm.EventWatcher.{k8s, health_check, Tick}
use ghactions_rust_test.Names.{is_lower}
use ghactions_rust_test.Acm.GarbageCollector.{ℤ, pos, negsuc, Clocks}

-- A policy that waits a second, this many times.
abbrev pub count_down : ℕ → Option ℕ × ℕ
count_down zero = (none, 0)
count_down (suc n) = (some 1, n)

abbrev pub policy : Backoff ℕ
policy = record {
  next_backoff = count_down;
  reset = λ _. 3;
  elapsed_text = λ _. text "3s";
  elapsed = λ n. n;
}

-- A parser that takes every URI.
abbrev pub parse_uri : Text → Result Text (Unit {0})
parse_uri _ = ok tt

abbrev pub running_state : ContainerState
running_state = record { running = some tt; waiting = none; terminated = none }

abbrev pub pod_of : ContainerState → Pod
pod_of state = record {
  metadata = record { name = some (text "pod"); namespace = some (text "ocf"); labels = none };
  spec = some (record {
    containers = record { ports = some (record { container_port = 8980 } ∷ []) } ∷ [];
  });
  status = some (record {
    pod_ip = some (text "10.0.0.7");
    container_statuses = some (record { state = some state } ∷ []);
  });
}

abbrev pub running_pod : Pod
running_pod = pod_of running_state

-- A pull that failed, and says no more than that.
abbrev pub silent_failure : ContainerStateWaiting
silent_failure = record { reason = some (text "ErrImagePull"); message = none }

abbrev pub unpulled_state : ContainerState
unpulled_state = record { running = none; waiting = some silent_failure; terminated = none }

abbrev pub unpulled_pod : Pod
unpulled_pod = pod_of unpulled_state

-- The pod is added, runs, passes its health check and is deleted.
abbrev pub life : List Tick
life =
    record {
      input = k8s (ok (some (added running_pod)));
      gc_open = true;
      upstream_open = true;
      client_ok = true;
    }
    ∷ record {
      input = k8s (ok (some (applied running_pod)));
      gc_open = true;
      upstream_open = true;
      client_ok = true;
    }
    ∷ record {
      input = health_check (ok (ok tt));
      gc_open = true;
      upstream_open = true;
      client_ok = true;
    }
    ∷ record {
      input = k8s (ok (some (deleted running_pod)));
      gc_open = true;
      upstream_open = true;
      client_ok = true;
    }
    ∷ []

abbrev pub uuid : Text
uuid = text "0a1b2c3d4e5f60718293a4b5c6d7e8f9"

abbrev pub is_alphabetic : ℕ → Bool
is_alphabetic c = is_lower c

-- Clocks that add, and panic before their origin.
abbrev pub add : ℕ → ℤ → Run ℤ
add now (pos n) = returns (pos (now + n))
add now (negsuc _) = panics

abbrev pub clocks : Clocks
clocks = record { utc_add = add; instant_add = λ i s. returns (i + s) }
