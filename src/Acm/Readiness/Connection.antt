-- ===== src/Acm/Readiness/Connection.antt =====
-- What the health check tells the event watcher, and what the event watcher makes of it.
use ghactions_rust_test.Prelude.{
  ◌≤◌, ◌≡◌, ◌≢◌, true, false, List, [], ◌∷◌, ◌++◌, none, Text, Result, ok, err, any, All, arith,
  inl, inr, Bool-cases,
}
use ghactions_rust_test.Backoff.{Backoff}
use ghactions_rust_test.Acm.ServerCheck.{Round, killed, panicked, polling, check}
use ghactions_rust_test.Acm.ServerCheck.Signal.{is_interrupted, is_connected, check-sent_ok}
use ghactions_rust_test.Acm.EventWatcher
use ghactions_rust_test.Acm.EventWatcher.{k8s, health_check, broken}
use ghactions_rust_test.Acm.EventWatcher.Protocol.{calls}
use ghactions_rust_test.Acm.EventWatcher.Safety.{is_passed_check, no_new_result}
use ghactions_rust_test.Acm.Readiness.{
  Pair, spawned, Tells, outcome, Step, poll, watch, init, Reach, here, later,
}

any_kept :
    (rs : List Round) (r : Round)
    → any is_connected rs ≡ true
    → any is_connected (rs ++ r ∷ []) ≡ true
any_kept [] r h = absurd (cc)
any_kept (q ∷ rs) r h = ground (arith, any_kept rs r)

All-more :
    (rs : List Round) (r : Round)
    → All (λ r. is_interrupted r ≡ false) rs
    → is_interrupted r ≡ false
    → All (λ r. is_interrupted r ≡ false) (rs ++ r ∷ [])
All-more [] r h k = (k, tt)
All-more (q ∷ rs) r (h, hs) k = (h, All-more rs r hs k)

-- Results that were told come with a connection.
record IsEarned {B : Type 0} (s : Pair B) : Type 0 where
  pub earned : 1 ≤ (calls s.watcher.log).ok_results → any is_connected s.rounds ≡ true
  pub calm : All (λ r. is_interrupted r ≡ false) s.rounds

module _ {B : Type 0} (policy : Backoff B) (parse_uri : Text → Result Text (Unit {0}))
    (pod_id : Text) (start : B) where
  passed_connected :
      (s : Pair B) (input : EventWatcher.Input)
      → Tells input (outcome policy parse_uri pod_id start s)
      → is_passed_check input ≡ true
      → any is_connected s.rounds ≡ true
  passed_connected s (k8s _) h p = absurd (cc)
  passed_connected s broken h p = absurd (cc)
  passed_connected s (health_check (err _)) h p = absurd (cc)
  passed_connected s (health_check (ok (err _))) h p = absurd (cc)
  passed_connected s (health_check (ok (ok u))) h p =
      check-sent_ok policy (spawned s.watcher.log) start none s.rounds u h

  Step-IsEarned : {s t : Pair B} → Step policy parse_uri pod_id start s t → IsEarned s → IsEarned t
  Step-IsEarned {s} (poll r p e o n) h = record {
    earned = λ k. any_kept s.rounds r (h.earned k);
    calm = All-more s.rounds r h.calm n;
  }
  Step-IsEarned {s} (watch t told) h = record {
    earned = λ k. elim (Bool-cases (is_passed_check t.input)) [
      | inl p ↦ passed_connected s t.input told p
      | inr p ↦ h.earned (omega (arith, no_new_result policy parse_uri pod_id s.watcher t p))
    ];
    calm = h.calm;
  }

  Reach-IsEarned :
      {s t : Pair B} → Reach policy parse_uri pod_id start s t → IsEarned s → IsEarned t
  Reach-IsEarned here h = h
  Reach-IsEarned (later r st) h = Step-IsEarned st (Reach-IsEarned r h)

  init-IsEarned : (b : B) → IsEarned (init policy parse_uri pod_id start b)
  init-IsEarned b = record { earned = λ h. absurd (omega arith); calm = tt }

  -- Whatever the order of the moves: if the event watcher has reported that the pod is ready, its
  -- health check has made a connection to the server.
  pub Reach-connected :
      (b : B) (s : Pair B)
      → Reach policy parse_uri pod_id start (init policy parse_uri pod_id start b) s
      → 1 ≤ (calls s.watcher.log).ok_results
      → any is_connected s.rounds ≡ true
  Reach-connected b s r h = (Reach-IsEarned r (init-IsEarned b)).earned h

  -- The health check ends with a result, and ends when it is told to.
  pub record IsDependable (s : Pair B) : Type 0 where
    pub alive : outcome policy parse_uri pod_id start s ≢ killed
    pub safe : outcome policy parse_uri pod_id start s ≢ panicked
    pub obeys :
        (r : Round)
        → is_interrupted r ≡ true
        → check policy (spawned s.watcher.log) start none (s.rounds ++ r ∷ []) ≢ polling
