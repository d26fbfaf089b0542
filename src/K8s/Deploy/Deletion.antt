-- ===== src/K8s/Deploy/Deletion.antt =====
-- Which deletions succeed.
use ghactions_rust_test.Prelude.{
  ◌≡◌, ◌↔◌, ◌⊎◌, inl, inr, refl, Option, Text, Result, ok, err, Run, returns, ◌==◌, ==_iff,
  Bool-cases,
}
use ghactions_rust_test.Errors.{AcmResult}
use ghactions_rust_test.K8s.Objects.{Pod}
use ghactions_rust_test.K8s.Failures.{KubeError}
use ghactions_rust_test.K8s.Deploy.{Maker, Cluster, answer, gone_is_deleted}

-- The API server has deleted the pod, or has no such pod.
abbrev pub IsGone : Result KubeError (Pod ⊎ Unit {0}) → Type 0
IsGone (ok _) = Unit
IsGone (err (KubeError.api e)) = e.code ≡ 404
IsGone (err (KubeError.connection _)) = ⊥
IsGone (err (KubeError.rest _)) = ⊥

-- The call returned a value.
pub record IsOk {A : Type 0} (r : Run (AcmResult A)) : Type 0 where
  pub value : A
  pub same : r ≡ returns (ok value)

module _ {W : Type 0} (cluster : Cluster W) (name_of : Pod → Run Text) (hostname : Option Text)
    (maker : Maker) where
  answered :
      (r : Result KubeError (Pod ⊎ Unit {0})) (w : W)
      → IsOk (answer (gone_is_deleted cluster name_of hostname maker r, w)).0 ↔ IsGone r
  unfolding gone_is_deleted
  answered (ok x) w = (λ _. tt, λ _. record { value = x; same = refl })
  answered (err (KubeError.api e)) w = elim (Bool-cases (e.code == 404)) [
    | inl gone ↦
        rw gone (λ _. (==_iff e.code 404).0 gone, λ _. record { value = inr tt; same = refl })
    | inr other ↦
        rw other (λ s. absurd (cc s.same), λ c. absurd (cc (other, (==_iff e.code 404).1 c)))
  ]
  answered (err (KubeError.connection m)) w = (λ s. absurd (cc s.same), λ g. absurd g)
  answered (err (KubeError.rest m)) w = (λ s. absurd (cc s.same), λ g. absurd g)
