-- ===== src/Os/Output.antt =====
-- What a command's result says of the process, and what it does not say of secret arguments.
use ghactions_rust_test.Prelude.{
  ◌≡◌, refl, true, false, List, [], ◌∷◌, map, none, Text, trim_end, IsTrimmed, trim_end-IsTrimmed,
  ok, returns, ◌↔◌,
}
use ghactions_rust_test.Os.{
  display_secret, Arg, plain, hidden, display, debug_string, Bytes, valid, invalid, Process,
  not_spawned, not_run, exited, exec, cmd,
}

-- The process succeeded with a text on its output, of which `out` is the trimmed form.
pub record Succeeded (process : Process) (out : Text) : Type 0 where
  pub stdout : Text
  pub stderr : Bytes
  pub exit : process ≡ exited true (valid stdout) stderr
  pub trimmed : out ≡ trim_end stdout

Succeeded-of_ok :
    (process : Process) (command out : Text)
    → exec none process command ≡ returns (ok out)
    → Succeeded process out
unfolding exec
Succeeded-of_ok (not_spawned e) command out h = cc
Succeeded-of_ok (not_run e) command out h = cc
Succeeded-of_ok (exited true (valid t) stderr) command out h = record {
  stdout = t;
  stderr = stderr;
  exit = refl;
  trimmed = cc;
}
Succeeded-of_ok (exited true (invalid l e) stderr) command out h = cc
Succeeded-of_ok (exited false stdout (valid t)) command out h = cc
Succeeded-of_ok (exited false stdout (invalid l e)) command out h = cc

-- A command gives Ok exactly when the process ran, exited with success and wrote UTF-8, and then
-- the result is its output without the white space at the end.
pub cmd-ok_iff :
    (process : Process) (command : Text) (args : List Arg) (out : Text)
    → (cmd process command args ≡ returns (ok out)) ↔ Succeeded process out
unfolding cmd
cmd-ok_iff process command args out = (
  Succeeded-of_ok process (debug_string command args) out,
  λ h. unfold exec in rw (h.exit, h.trimmed),
)

-- The result of a command ends in no white space, and differs from what the process wrote by white
-- space at the end only.
pub cmd-IsTrimmed :
    (process : Process) (command : Text) (args : List Arg) (out : Text)
    → cmd process command args ≡ returns (ok out)
    → (stdout : Text) × (stderr : Bytes) × (process ≡ exited true (valid stdout) stderr)
      × IsTrimmed stdout out
cmd-IsTrimmed process command args out h =
    let s = (cmd-ok_iff process command args out).0 h in
    (s.stdout, s.stderr, s.exit, rw s.trimmed (trim_end-IsTrimmed s.stdout))

-- Two lists of arguments that differ in secrets only.
abbrev pub Alike : List Arg → List Arg → Type 0
Alike [] [] = Unit
Alike [] (_ ∷ _) = ⊥
Alike (_ ∷ _) [] = ⊥
Alike (plain s ∷ xs) (plain t ∷ ys) = (s ≡ t) × Alike xs ys
Alike (hidden _ ∷ xs) (hidden _ ∷ ys) = Alike xs ys
Alike (plain _ ∷ _) (hidden _ ∷ _) = ⊥
Alike (hidden _ ∷ _) (plain _ ∷ _) = ⊥

display-Alike : (xs ys : List Arg) → Alike xs ys → map display xs ≡ map display ys
unfolding display display_secret
display-Alike [] [] h = refl
display-Alike (plain s ∷ xs) (plain t ∷ ys) (e, h) = cc (display-Alike xs ys h)
display-Alike (hidden s ∷ xs) (hidden t ∷ ys) h = cc (display-Alike xs ys h)
display-Alike [] (_ ∷ _) h = absurd h
display-Alike (_ ∷ _) [] h = absurd h
display-Alike (plain _ ∷ _) (hidden _ ∷ _) h = absurd h
display-Alike (hidden _ ∷ _) (plain _ ∷ _) h = absurd h

-- What a command returns, its errors and their messages included, does not depend on the secret
-- arguments, as long as the process does the same.
pub cmd_hides_secrets :
    (process : Process) (command : Text) (xs ys : List Arg)
    → Alike xs ys
    → cmd process command xs ≡ cmd process command ys
unfolding cmd debug_string
cmd_hides_secrets process command xs ys h = rw (display-Alike xs ys h)
