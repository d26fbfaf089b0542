-- ===== src/Acm/Errors.antt =====
-- the errors of the other modules of k8s/service/acm/src/podmanager, with their codes and messages.
-- A source enters as the text of its `Display`.
use ghactions_rust_test.Prelude.{Text, text, ◌++◌, none, some}
use ghactions_rust_test.Errors.{
  AcmError, bad_request, not_found, internal_server_error, service_unavailable,
}

unfoldable pub refresh_channel_closed : AcmError
refresh_channel_closed = record {
  kind = text "RefreshChannelClosed";
  http_code = service_unavailable;
  message = text "This pod appears to have already been shutdown or garbage collected.";
  source = none;
}

unfoldable pub inbound_result_channel_dropped : AcmError
inbound_result_channel_dropped = record {
  kind = text "InboundResultChannelDropped";
  http_code = internal_server_error;
  message =
      text
        "In internal datastructure was deallocated before a result was ever placed into. This is a severe state machine violation from within the ACM (Alation Connector Manager). Please try this operation again, but please also report this as a bug to Alation.";
  source = none;
}

unfoldable pub outbound_result_channel_dropped : AcmError
outbound_result_channel_dropped = record {
  kind = text "OutboundResultChannelDropped";
  http_code = internal_server_error;
  message =
      text
        "In internal datastructure was deallocated before a result was ever placed into. This is a severe state machine violation from within the ACM (Alation Connector Manager). Please try this operation again, but please also report this as a bug to Alation.";
  source = none;
}

unfoldable pub phantom_error : AcmError
phantom_error = record {
  kind = text "PhantomError";
  http_code = bad_request;
  message = text "";
  source = none;
}

unfoldable pub not_ready : AcmError
not_ready = record {
  kind = text "NotReady";
  http_code = service_unavailable;
  message = text "";
  source = none;
}

unfoldable pub too_many_failures : Text → Text → AcmError
too_many_failures uri cause = record {
  kind = text "TooManyFailures";
  http_code = service_unavailable;
  message =
      text "There were too many failures when attempting to connect to the requested pod ("
      ++ uri
      ++ text ") for its server health check";
  source = some cause;
}

unfoldable pub grpc_endpoint_parsde_error : Text → Text → AcmError
grpc_endpoint_parsde_error uri cause = record {
  kind = text "GrpcEndpointParsdeError";
  http_code = service_unavailable;
  message =
      text "There were too many failures when attempting to connect to the requested pod ("
      ++ uri
      ++ text ") for its server health check";
  source = some cause;
}

unfoldable pub pod_manager_not_found : Text → AcmError
pod_manager_not_found id = record {
  kind = text "PodManagerNotFound";
  http_code = not_found;
  message =
      text "The pod manager for "
      ++ id
      ++ text
          " could not be found. If an error occurred in the requested pod then the caller has one hour to consume the message before the record is dropped. This message may also only be consumed once. Alternatively, the calling client may have been configured for the incorrect ACM (Alation Connection Manager) that was not in possession of the requested pod manager.";
  source = none;
}
