-- ===== src/Examples/Checking.antt =====
-- Health checks and commands.
use ghactions_rust_test.Prelude.{
  ℕ, zero, suc, ◌<◌, ◌≡◌, ◌≢◌, refl, true, List, [], ◌∷◌, none, text, arith,
}
use ghactions_rust_test.Examples.Fixtures.{policy, count_down}
use ghactions_rust_test.Acm.ServerCheck.{Round, waited, connected, refused, polling, check}
use ghactions_rust_test.Acm.ServerCheck.Verdict.{
  IsVerdict, GivesUp, check-IsVerdict, check-ne-polling,
}
use ghactions_rust_test.Os.{plain, hidden, Process, exited, valid, cmd}
use ghactions_rust_test.Os.Output.{cmd_hides_secrets}

-- The server refuses once and then answers.
abbrev rounds : List Round
rounds =
    record { pause = waited; attempt = refused (text "refused") }
    ∷ record { pause = waited; attempt = connected }
    ∷ record { pause = waited; attempt = connected }
    ∷ []

check-IsVerdict_example :
    IsVerdict policy (text "u") 1 none rounds (check policy (text "u") 1 none rounds)
check-IsVerdict_example = check-IsVerdict policy (text "u") 1 none rounds

policy-GivesUp : GivesUp policy (λ n. n)
policy-GivesUp = record { wait = lowers }
  where
    lowers : (n : ℕ) → (count_down n).0 ≢ none → (count_down n).1 < n
    lowers zero h = absurd (h refl)
    lowers (suc n) h = omega arith

check-ne-polling_example : check policy (text "u") 1 none rounds ≢ polling
check-ne-polling_example =
    check-ne-polling policy (text "u") (λ n. n) policy-GivesUp 1 none rounds (omega arith)

abbrev printed : Process
printed = exited true (valid (text "ab \n")) (valid [])

cmd_hides_secrets_example :
    cmd printed (text "aws") (plain (text "-u") ∷ hidden (record { secret = text "x" }) ∷ [])
    ≡ cmd printed (text "aws") (plain (text "-u") ∷ hidden (record { secret = text "y" }) ∷ [])
cmd_hides_secrets_example =
    cmd_hides_secrets printed (text "aws")
      (plain (text "-u") ∷ hidden (record { secret = text "x" }) ∷ [])
      (plain (text "-u") ∷ hidden (record { secret = text "y" }) ∷ []) (refl, tt)
