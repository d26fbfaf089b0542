-- ===== src/K8s/Watcher/Recovery.antt =====
-- What the watcher's stream tells its reader, and when a poll ends.
use ghactions_rust_test.Prelude.{
  ◌≡◌, refl, Bool, true, false, List, [], ◌∷◌, ◌++◌, none, some, Result, ok, err, returns, panics,
  ◌==◌, append-nil, sym,
}
use ghactions_rust_test.K8s.Watcher.{
  Fault, initial_list_failed, watch_start_failed, watch_failed, watch_error, Event, added, applied,
  deleted, restarted, State, empty, Api, Round, Poll, into_iter_applied, into_iter_touched,
  into_iter_deleted,
}

abbrev pub is_empty : State → Bool
is_empty empty = true
is_empty _ = false

module _ {K : Type 0} where
  -- The order that the results of a stream follow. The flag says whether the next answer is that
  -- of a list: then it is `Restarted` or a failed list, and no other result. Else it is neither of
  -- these. A list is due again after a failed list and after an error with code 410.
  abbrev pub Protocol : Bool → List (Result Fault (Event K)) → Type 0
  Protocol listing [] = Unit
  Protocol listing (ok (restarted _) ∷ rest) = (listing ≡ true) × Protocol false rest
  Protocol listing (ok (added _) ∷ rest) = (listing ≡ false) × Protocol false rest
  Protocol listing (ok (applied _) ∷ rest) = (listing ≡ false) × Protocol false rest
  Protocol listing (ok (deleted _) ∷ rest) = (listing ≡ false) × Protocol false rest
  Protocol listing (err (initial_list_failed _) ∷ rest) = (listing ≡ true) × Protocol true rest
  Protocol listing (err (watch_start_failed _) ∷ rest) = (listing ≡ false) × Protocol false rest
  Protocol listing (err (watch_failed _) ∷ rest) = (listing ≡ false) × Protocol false rest
  Protocol listing (err (watch_error e) ∷ rest) = (listing ≡ false) × Protocol (e.code == 410) rest

  -- What follows one result: whether it was allowed, and whether a list is due next.
  abbrev pub Allowed : Bool → Result Fault (Event K) → Bool → Type 0
  Allowed listing (ok (restarted _)) next = (listing ≡ true) × (next ≡ false)
  Allowed listing (ok _) next = (listing ≡ false) × (next ≡ false)
  Allowed listing (err (initial_list_failed _)) next = (listing ≡ true) × (next ≡ true)
  Allowed listing (err (watch_error e)) next = (listing ≡ false) × (next ≡ (e.code == 410))
  Allowed listing (err _) next = (listing ≡ false) × (next ≡ false)

  -- The objects that `into_iter_touched` gives of an event are those of `into_iter_applied` and
  -- then those of `into_iter_deleted`.
  pub touched-eq : (e : Event K) → into_iter_touched e ≡ into_iter_applied e ++ into_iter_deleted e
  unfolding into_iter_touched into_iter_applied into_iter_deleted
  touched-eq (added k) = refl
  touched-eq (applied k) = refl
  touched-eq (deleted k) = refl
  touched-eq (restarted l) = sym (append-nil l)

module _ {K W : Type 0} (api : Api K W) where
  -- A round that gives nothing neither lists nor has a list due next.
  abbrev IsAllowed : State → Round api → Type 0
  IsAllowed s panics = Unit
  IsAllowed s (returns (some r, s', w)) = Allowed (is_empty s) r (is_empty s')
  IsAllowed s (returns (none, s', w)) = (is_empty s ≡ false) × (is_empty s' ≡ false)

  -- A poll keeps to the protocol, whatever rounds it takes.
  abbrev IsAllowedPoll : State → Poll api → Type 0
  IsAllowedPoll s none = Unit
  IsAllowedPoll s (some panics) = Unit
  IsAllowedPoll s (some (returns (r, s', w))) = Allowed (is_empty s) r (is_empty s')
