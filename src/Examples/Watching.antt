-- ===== src/Examples/Watching.antt =====
-- A pod from its addition to its deletion, and the client that waits for it.
use ghactions_rust_test.Prelude.{◌+◌, ◌≤◌, ◌≡◌, refl, true, text, All}
use ghactions_rust_test.Examples.Fixtures.{policy, parse_uri, running_pod, life}
use ghactions_rust_test.K8s.Pod.{
  running as is_running, container_statuses, replace_dots, dns, port, address,
}
use ghactions_rust_test.Acm.ServerCheck
use ghactions_rust_test.Acm.EventWatcher.{
  become, emit, on_phase1, on_phase2, on_phase3, on_health, step, watch, init,
}
use ghactions_rust_test.Acm.EventWatcher.Protocol.{calls}
use ghactions_rust_test.Acm.EventWatcher.Safety.{
  ReportsRunning, passed, deleted_events, ok_result_is_earned, returned-deletions,
}
use ghactions_rust_test.Acm.Handle.{shim, wait}
use ghactions_rust_test.Acm.Handle.Results.{first_result, wait-ok-running}

ok_result_is_earned_example :
    All ReportsRunning (watch policy parse_uri (text "pod") (init 3) life).log
    × ((calls (watch policy parse_uri (text "pod") (init 3) life).log).ok_results ≤ passed life)
ok_result_is_earned_example = ok_result_is_earned policy parse_uri (text "pod") 3 life

returned-deletions_example :
    1
    ≤ (calls (watch policy parse_uri (text "pod") (init 3) life).log).deletions
      + deleted_events life
unfolding watch step become emit on_phase1 on_phase2 on_phase3 on_health is_running
    container_statuses ServerCheck.new address dns port replace_dots text
returned-deletions_example = returned-deletions policy parse_uri (text "pod") 3 life refl

wait-ok-running_example : (true ≡ true) × (is_running running_pod ≡ true)
unfolding watch step become emit on_phase1 on_phase2 on_phase3 on_health is_running
    container_statuses ServerCheck.new address dns port replace_dots text wait shim first_result
wait-ok-running_example = wait-ok-running policy parse_uri (text "pod") 3 life true running_pod refl
