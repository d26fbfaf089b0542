-- ===== src/Examples/Images.antt =====
-- An image on its way into the registry.
use ghactions_rust_test.Prelude.{
  ℕ, zero, suc, ◌-◌, false, ◌≡◌, ◌++◌, refl, true, List, [], ◌∷◌, none, some, Text, text, ok, err,
  returns, arith, split, rsplit_once,
}
use ghactions_rust_test.Errors.{AcmError}
use ghactions_rust_test.Examples.Fixtures.{policy, uuid, is_alphabetic}
use ghactions_rust_test.Os.{Arg, Process, exited, valid, cmd, exec}
use ghactions_rust_test.Aim.Env.{Env}
use ghactions_rust_test.Aim.Metadata.{extract_image_metadata_from_str}
use ghactions_rust_test.Aim.Metadata.RoundTrip.{table, IsRead, extract-table, extract-IsRead}
use ghactions_rust_test.Aim.Containerd.{State, Draw, import}
use ghactions_rust_test.Aim.Drops.{removed, drop_namespace}
use ghactions_rust_test.Aim.Drops.Rounds.{Refuses, answer, drop_namespace-removed}
use ghactions_rust_test.Aim.Containerd.Post.{Post}
use ghactions_rust_test.Aim.Containerd.CleanUp.{IsImported, IsAbandoned, import-Post}

extract-table_example :
    extract_image_metadata_from_str
      (text "n")
      (table (text "REF") (text "a/b" ++ b':' ∷ text "c") (text "t") (text "d") (text "1"))
    ≡ ok (record { reference = text "a/b" ++ b':' ∷ text "c"; tag = text "c"; digest = text "d" })
unfolding text
extract-table_example =
    extract-table (text "n") (text "REF") (text "a/b") (text "c") (text "t") (text "d") (text "1")
      (ground arith) (ground arith) (ground arith) (ground arith) (ground arith) (ground arith)

abbrev listed : Text
listed = text "R\na:b t d"

extract-IsRead_example :
    IsRead listed (record { reference = text "a:b"; tag = text "b"; digest = text "d" })
unfolding text extract_image_metadata_from_str split rsplit_once
extract-IsRead_example =
    extract-IsRead (text "n") listed
      (record { reference = text "a:b"; tag = text "b"; digest = text "d" }) refl

-- A `ctr` that lists its one image, and one that lists only the header.
abbrev ctr : Text → Text → List Arg → ℕ → Process × ℕ
ctr output command args n = (exited true (valid output) (valid []), suc n)

abbrev no_env : Env
no_env _ = none

abbrev debug : AcmError → Text
debug e = e.kind

abbrev same : Text → Text
same s = s

abbrev draw : Draw
draw = record { namespace = text "n"; uuid = uuid; letter = b'k' }

abbrev start : State ℕ
start = record { world = 0; drops = [] }

import-Post_example :
    Post
      (λ i d.
        IsImported
          (ctr listed)
          no_env
          same
          debug
          is_alphabetic
          draw
          (some (text "/tmp/x"))
          0
          []
          i
          d)
      (λ d. IsAbandoned draw [] d)
      (import (ctr listed) no_env same debug is_alphabetic draw (some (text "/tmp/x")) start)
import-Post_example =
    import-Post (ctr listed) no_env same debug is_alphabetic draw (some (text "/tmp/x")) start

-- A containerd with so many images left, of which one is removed between two rounds.
abbrev emptying : Text → List Arg → ℕ → Process × ℕ
emptying command args zero = (exited true (valid []) (valid []), zero)
emptying command args (suc n) = (exited false (valid []) (valid (text "not empty")), suc n)

emptying-Refuses : Refuses policy emptying (λ n. n - 1) (λ _ n. n ≡ 0)
unfolding cmd exec
emptying-Refuses = record { full = refused; empty = accepted }
  where
    refused :
        (ns : Text) (w : ℕ)
        → ¬ (w ≡ 0)
        → (e : AcmError) × (answer policy emptying (λ n. n - 1) ns w ≡ returns (err e))
    refused ns zero n = absurd (n refl)
    refused ns (suc w) n = (_, refl)

    accepted :
        (ns : Text) (w : ℕ)
        → w ≡ 0
        → (out : Text) × (answer policy emptying (λ n. n - 1) ns w ≡ returns (ok out))
    accepted ns zero e = (_, refl)
    accepted ns (suc w) e = absurd (omega arith)

drop_namespace-removed_example :
    (drop_namespace policy emptying (λ n. n - 1) 3 (text "n") 3 2).0 ≡ returns removed
drop_namespace-removed_example =
    drop_namespace-removed policy emptying (λ n. n - 1) (λ _ n. n ≡ 0) emptying-Refuses (text "n") 2
      3 2 (λ h. omega arith, (λ h. omega arith, refl)) (λ x. cc x, (λ x. cc x, tt))
