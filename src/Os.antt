-- ===== src/Os.antt =====
-- k8s/library/os/src/process.rs: running commands. A secret argument is one that prints as
-- "<REDACTED>" (`Secret` of k8s/service/aim/src/env/mod.rs), though the command receives it.
pub mod Errors
pub mod Output
use ghactions_rust_test.Prelude.{
  Bool, true, false, List, [], ◌∷◌, map, Option, none, some, Text, text, join, trim_end, Result, ok,
  err, Run, returns, panics, run_bind, if◌then◌else◌,
}
use ghactions_rust_test.Errors.{AcmResult}
use Errors.{failed_to_spawn, failed_to_run, invalid_utf8, invalid_utf8_stderr, command_failed}

pub record Secret : Type 0 where
  pub secret : Text

-- `Display` and `Debug`
unfoldable pub display_secret : Secret → Text
display_secret s = text "<REDACTED>"

-- `raw_secret`
unfoldable pub raw_secret : Secret → Text
raw_secret s = s.secret

pub data Arg : Type 0 where
  plain : Text → Arg
  hidden : Secret → Arg

unfoldable pub display : Arg → Text
unfolding display_secret
display (plain t) = t
display (hidden s) = display_secret s

-- `debug_string` of the macro `cmd!`
unfoldable pub debug_string : Text → List Arg → Text
unfolding display
debug_string command args = join b' ' (command ∷ map display args)

-- The bytes that a process writes: the UTF-8 form of a text, or not, with the lossy reading and
-- the error of the decoder.
pub data Bytes : Type 0 where
  valid : Text → Bytes
  invalid : (lossy error : Text) → Bytes

-- What becomes of a process.
pub data Process : Type 0 where
  not_spawned : (error : Text) → Process
  not_run : (error : Text) → Process
  exited : (success : Bool) → (stdout stderr : Bytes) → Process

-- The answer to the status and the two streams.
collect : Text → (success : Bool) → (stdout stderr : Bytes) → AcmResult Text
collect command false stdout (valid t) = err (command_failed command t)
collect command false stdout (invalid lossy e) = err (invalid_utf8_stderr command lossy e)
collect command true (valid t) stderr = ok (trim_end t)
collect command true (invalid lossy e) stderr = err (invalid_utf8 command lossy e)

-- `write_all(…).await.unwrap()` where there is an input: whether it is written.
feed : Option Bool → Run (Unit {0})
feed none = returns tt
feed (some true) = returns tt
feed (some false) = panics

unfoldable pub exec : Option Bool → Process → Text → Run (AcmResult Text)
unfolding collect feed
exec stdin (not_spawned e) command = returns (err (failed_to_spawn command e))
exec stdin (not_run e) command =
    run_bind (feed stdin) (λ _. returns (err (failed_to_run command e)))
exec stdin (exited success stdout stderr) command =
    run_bind (feed stdin) (λ _. returns (collect command success stdout stderr))

-- `cmd!` without an input.
unfoldable pub cmd : Process → Text → List Arg → Run (AcmResult Text)
cmd process command args = exec none process (debug_string command args)
