-- ===== src/Acm/EventWatcher/Errors.antt =====
-- the errors of k8s/service/acm/src/podmanager/event_watcher.rs, with their codes and messages.
-- A source enters as the text of its `Display`.
use ghactions_rust_test.Prelude.{Text, text, ◌++◌, none}
use ghactions_rust_test.Errors.{AcmError, internal_server_error, service_unavailable}

unfoldable pub send_channel_close : AcmError
send_channel_close = record {
  kind = text "SendChannelClose";
  http_code = internal_server_error;
  message = text "";
  source = none;
}

unfoldable pub pod_crashed : AcmError
pod_crashed = record {
  kind = text "PodCrashed";
  http_code = service_unavailable;
  message =
      text
        "The connector has crashed. Please review its logs for additional debugging information and report any finding to the connector's development team for further analysis.";
  source = none;
}

unfoldable pub pod_terminated_before_start : Text → Text → AcmError
pod_terminated_before_start message reason = record {
  kind = text "PodTerminatedBeforeStart";
  http_code = service_unavailable;
  message =
      text
        "The pod for this job was terminated before it ever entered the running state (perhaps it crashed immediately). The (optional) reason given by Kubernetes was '"
      ++ reason
      ++ text "' and the (optional) message given was '"
      ++ message
      ++ text "'.";
  source = none;
}

unfoldable pub garbage_collector_unresponsive : Text → AcmError
garbage_collector_unresponsive pod = record {
  kind = text "GarbageCollectorUnresponsive";
  http_code = internal_server_error;
  message =
      text "The garbage collector for the requested pod ("
      ++ pod
      ++ text
          ") exited earlier than expected. For the sake of safety, the pod for this job has been deleted. Please try this operation again, but please also report this as a bug to the Alation OCF development and infrastructure team.";
  source = none;
}

unfoldable pub kubernetes_unresponsive : Text → AcmError
kubernetes_unresponsive elapsed = record {
  kind = text "KubernetesUnresponsive";
  http_code = internal_server_error;
  message =
      text "The Kubernetes API server has failed to reconnect for this job's event stream for over "
      ++ elapsed
      ++ text ". The cluster appears to be too unhealthy to reasonably continue at this time.";
  source = none;
}

unfoldable pub unexpected_close_of_event_stream : AcmError
unexpected_close_of_event_stream = record {
  kind = text "UnexpectedCloseOfEventStream";
  http_code = internal_server_error;
  message =
      text
        "The Kubernetes API server has prematurely, and permanently, close the event stream for this job's pod. The job may work if simply re-ran, however this may be indicative of an unhealthy cluster.";
  source = none;
}

unfoldable pub pod_deleted : AcmError
pod_deleted = record {
  kind = text "PodDeleted";
  http_code = service_unavailable;
  message =
      text
        "The pod for this job was deleted. If this not expected, then perhaps Alation timed out and the pod was garbage collected. Or perhaps another component has deleted the pod for some reason.";
  source = none;
}

unfoldable pub pod_rebooted : AcmError
pod_rebooted = record {
  kind = text "PodRebooted";
  http_code = service_unavailable;
  message =
      text
        "The pod for this job appears to have been rebooted. This may occur if the pod crashed and was restarted automatically. However, OCF has no tolerance for \"crashy' connectors, and as such it has been deleted. Please gather logs for this connector and report the issue to the connector's development team.";
  source = none;
}

unfoldable pub health_check_dropped_its_channel : AcmError
health_check_dropped_its_channel = record {
  kind = text "HealthCheckDroppedItsChannel";
  http_code = internal_server_error;
  message =
      text
        "This job's server health check daemon shutdown prematurely, and without ever sending a status signal. This job may succeed if re-attempted, however this bug should be reported to the Alation OCF development and infrastructure team.";
  source = none;
}
