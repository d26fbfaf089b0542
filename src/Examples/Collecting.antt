-- ===== src/Examples/Collecting.antt =====
-- A pod that is kept while it is refreshed, and deleted when it is not; and the cache of managers.
use ghactions_rust_test.Prelude.{◌≡◌, refl, true, List, [], ◌∷◌, some, text, count, arith}
use ghactions_rust_test.Examples.Fixtures.{clocks, running_pod}
use ghactions_rust_test.Acm.EventWatcher.{running}
use ghactions_rust_test.Acm.GarbageCollector.{
  pos, KeepAliveTicket, status, refresh, timeout, Tick, delete_pod, counting, stopped, gc, init,
}
use ghactions_rust_test.Acm.GarbageCollector.Lifecycle.{is_delete, HasShape, gc-init-HasShape}
use ghactions_rust_test.Acm.GarbageCollector.Lease.{
  KeepsTime, refreshed-InTime-not_deleted, not_refreshed-deleted,
}

clocks-KeepsTime : KeepsTime clocks 10000
clocks-KeepsTime = record { utc = λ now s h. refl; instants = λ i s h. refl }

abbrev ticket : KeepAliveTicket
ticket = record {
  ticket = text "pod";
  execution_date = pos 1060;
  now = 1000;
  then_ = pos 1060;
  execution_instant = 160;
}

-- A refresh at instant 150, and a timer at instant 200.
abbrev refreshed : List Tick
refreshed =
    record { input = refresh (some tt); now = 1050; instant = 150; client_ok = true; api_ok = true }
    ∷ record { input = timeout; now = 1100; instant = 200; client_ok = true; api_ok = true }
    ∷ []

abbrev left_alone : List Tick
left_alone =
    record { input = timeout; now = 1060; instant = 160; client_ok = true; api_ok = true } ∷ []

abbrev started : List Tick
started =
    record {
      input = status (some (running running_pod));
      now = 1000;
      instant = 100;
      client_ok = true;
      api_ok = true;
    }
    ∷ refreshed

gc-init-HasShape_example : HasShape (gc clocks (text "pod") 60 init started)
gc-init-HasShape_example = gc-init-HasShape clocks (text "pod") 60 started

refreshed-InTime-not_deleted_example :
    count is_delete
      (gc clocks (text "pod") 60 (record { phase = counting ticket; log = [] }) refreshed).log
    ≡ 0
refreshed-InTime-not_deleted_example =
    refreshed-InTime-not_deleted clocks (text "pod") 60 10000 clocks-KeepsTime (omega arith) ticket
      [] refreshed refl
      (
        omega arith,
        refl,
        (λ h. h),
        omega arith,
        omega arith,
        (omega arith, refl, (λ h. h), omega arith, omega arith, tt),
      )

not_refreshed-deleted_example :
    gc clocks (text "pod") 60 (record { phase = counting ticket; log = [] }) left_alone
    ≡ record { phase = stopped; log = delete_pod ∷ [] }
not_refreshed-deleted_example =
    not_refreshed-deleted clocks (text "pod") 60 ticket [] left_alone ((refl, refl), tt) refl
