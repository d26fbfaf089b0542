-- ===== src/Os/Errors.antt =====
-- the errors of k8s/library/os/src/process.rs, with their codes and messages.
-- A source enters as the text of its `Display`.
use ghactions_rust_test.Prelude.{Text, text, ◌++◌, none, some}
use ghactions_rust_test.Errors.{AcmError, internal_server_error}

unfoldable pub failed_to_spawn : Text → Text → AcmError
failed_to_spawn command cause = record {
  kind = text "FailedToSpawn";
  http_code = internal_server_error;
  message =
      text "Failed to spawn the \""
      ++ command
      ++ text "\" command. Perhaps the ACM is corrupted? Perhaps try destroying its pod?";
  source = some cause;
}

unfoldable pub invalid_utf8 : Text → Text → Text → AcmError
invalid_utf8 command output cause = record {
  kind = text "InvalidUTF8";
  http_code = internal_server_error;
  message =
      text "Stdout for \""
      ++ command
      ++ text "\" was not valid UTF-8, got the following (lossy) "
      ++ output;
  source = some cause;
}

unfoldable pub invalid_utf8_stderr : Text → Text → Text → AcmError
invalid_utf8_stderr command output cause = record {
  kind = text "InvalidUTF8Stderr";
  http_code = internal_server_error;
  message =
      text "Stderr for \""
      ++ command
      ++ text "\" was not valid UTF-8, got the following (lossy) "
      ++ output;
  source = some cause;
}

unfoldable pub failed_to_run : Text → Text → AcmError
failed_to_run command cause = record {
  kind = text "FailedToRun";
  http_code = internal_server_error;
  message =
      text "Failed to execute the \""
      ++ command
      ++ text "\" command. Perhaps the ACM is corrupted? Perhaps try destroying its pod?";
  source = some cause;
}

unfoldable pub command_failed : Text → Text → AcmError
command_failed command stderr = record {
  kind = text "CommandFailed";
  http_code = internal_server_error;
  message = text "Failed to execute \"" ++ command ++ text "\". Stderr was " ++ stderr;
  source = none;
}
