-- ===== src/Acm/System/Ending.antt =====
-- How the coroutines of one pod end.
use ghactions_rust_test.Prelude.{
  ℕ, ◌≡◌, refl, true, false, Option, none, some, Text, Result, ◌∙◌, Option-cases, inl, inr,
}
use ghactions_rust_test.Errors.{AcmResult}
use ghactions_rust_test.Backoff.{Backoff}
use ghactions_rust_test.K8s.Objects.{Pod}
use ghactions_rust_test.Acm.GarbageCollector.{Clocks}
use ghactions_rust_test.Acm.Handle.Results.{first_result}
use ghactions_rust_test.Acm.System.{
  System, Shim, receiving, holding, ended, has_ended, is_listening, is_open, Moment, Step, receive,
  dropped, release, init, Reach, here, later, AllUnaided, IsUnaided,
}
use ghactions_rust_test.Acm.System.Joint.{Reach-init-IsJoint}
use ghactions_rust_test.Acm.System.Quiet.{Quiet, Reach-trans, Reach-trans-AllUnaided, ended-Quiet}

module _ {B : Type 0} (policy : Backoff B) (parse_uri : Text → Result Text (Unit {0}))
    (pod_id : Text) (clocks : Clocks) (ttl : ℕ) where
  -- The three coroutines have ended, and the event watcher made no more step.
  pub record WoundDown (s : System B) : Type 0 where
    pub last : System B
    pub reach : Reach policy parse_uri pod_id clocks ttl s last
    pub unaided : AllUnaided policy parse_uri pod_id clocks ttl reach
    pub watcher : last.watcher ≡ s.watcher
    pub collector : is_listening last.collector.phase ≡ false
    pub shim : is_open last.shim ≡ false

  WoundDown-later :
      {s t : System B} (st : Step policy parse_uri pod_id clocks ttl s t)
      → IsUnaided policy parse_uri pod_id clocks ttl st
      → t.watcher ≡ s.watcher
      → WoundDown t
      → WoundDown s
  WoundDown-later st a w q = record {
    last = q.last;
    reach = Reach-trans policy parse_uri pod_id clocks ttl (later here st) q.reach;
    unaided =
        Reach-trans-AllUnaided policy parse_uri pod_id clocks ttl (later here st) q.reach (tt, a)
          q.unaided;
    watcher = q.watcher ∙ w;
    collector = q.collector;
    shim = q.shim;
  }

  -- The patience of the shim runs out.
  released :
      (s : System B) (received : Option (AcmResult Pod))
      → is_listening s.collector.phase ≡ false
      → s.shim ≡ holding received
      → WoundDown s
  released s received c i = record {
    last = _;
    reach = later here (release received false i);
    unaided = (tt, refl);
    watcher = refl;
    collector = c;
    shim = refl;
  }

  shim_ends :
      (s : System B) (shim : Shim)
      → has_ended s.watcher.phase ≡ true
      → is_listening s.collector.phase ≡ false
      → s.shim ≡ shim
      → WoundDown s
  shim_ends s (ended r) o c i = record {
    last = s;
    reach = here;
    unaided = tt;
    watcher = refl;
    collector = c;
    shim = rw i refl;
  }
  shim_ends s (holding r) o c i = released s r c i
  shim_ends s receiving o c i = elim (Option-cases (first_result s.watcher.log)) [
    | inl n ↦
        WoundDown-later (dropped i o n) tt refl
          (released (record s { shim = holding none }) none c refl)
    | inr (r, e) ↦
        WoundDown-later (receive r i e) tt refl
          (released (record s { shim = holding (some r) }) (some r) c refl)
  ]

  Quiet-WoundDown :
      (s : System B)
      → has_ended s.watcher.phase ≡ true
      → Quiet policy parse_uri pod_id clocks ttl s
      → WoundDown s
  Quiet-WoundDown s o q =
      let e : has_ended q.last.watcher.phase ≡ true = rw q.watcher o in
      let w = shim_ends q.last q.last.shim e q.quiet refl in
      record {
        last = w.last;
        reach = Reach-trans policy parse_uri pod_id clocks ttl q.reach w.reach;
        unaided =
            Reach-trans-AllUnaided policy parse_uri pod_id clocks ttl q.reach w.reach q.unaided
              w.unaided;
        watcher = w.watcher ∙ q.watcher;
        collector = w.collector;
        shim = w.shim;
      }

  -- Whatever the order of steps has been: once the event watcher has returned or panicked, the other
  -- two coroutines can end without it and without the client, so that the task that waits for all
  -- three can go on to the removal of the manager.
  pub Reach-WoundDown :
      (b : B) (s : System B) (m : Moment)
      → Reach policy parse_uri pod_id clocks ttl (init policy parse_uri pod_id clocks ttl b) s
      → has_ended s.watcher.phase ≡ true
      → WoundDown s
  Reach-WoundDown b s m r o = Quiet-WoundDown s o (
      ended-Quiet policy parse_uri pod_id clocks ttl s m o
        (Reach-init-IsJoint policy parse_uri pod_id clocks ttl r))
