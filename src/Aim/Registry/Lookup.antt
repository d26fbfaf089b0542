-- ===== src/Aim/Registry/Lookup.antt =====
-- Which image a registry gives for a tag.
use ghactions_rust_test.Prelude.{
  ◌≡◌, refl, Bool, true, false, List, Option, none, some, Text, text, ◌++◌, eq_text_iff,
  find-eq-some, ok, ok_or-eq-ok, returns, if◌then◌else◌, ◌==◌,
}
use ghactions_rust_test.Calls.{Call, infallible, Succeeds-and_then, fallible-eq-ok, returned-eq}
use ghactions_rust_test.Aim.Env.{Env}
use ghactions_rust_test.Aim.Containerd.{Image, Implementation, ecr, minikube, which}
use ghactions_rust_test.Aim.Outside.{Outside, State, find_tag}
use ghactions_rust_test.Aim.Ecr.{ecr_list, ecr_get}
use ghactions_rust_test.Aim.Minikube.{request_manifest, minikube_get}
use ghactions_rust_test.Aim.Registry.{configure, configured, get_from, get}

-- What a lookup found, if anything, has the tag.
abbrev pub HasTag : Text → Option Image → Type 0
HasTag tag none = Unit
HasTag tag (some i) = i.tag ≡ tag

find_tag-HasTag :
    (tag : Text) (images : List Image) (o : Option Image) → find_tag tag images ≡ o → HasTag tag o
unfolding find_tag
find_tag-HasTag tag images none h = tt
find_tag-HasTag tag images (some i) h = (eq_text_iff i.tag tag).0 (find-eq-some _ images {x = i} h)

found_or_not :
    {S : Type 0} (b : Bool) (i : Image) (o : Option Image) (s t : S)
    → let c : Call S (Option Image) =
        if b then (returns (ok none), s) else (returns (ok (some i)), s) in
      c ≡ (returns (ok o), t) → HasTag i.tag o
found_or_not true i o s t h = let e = returned-eq none o s t h in rw (← e) tt
found_or_not false i o s t h = let e = returned-eq (some i) o s t h in rw (← e) refl

module _ {W : Type 0} (outside : Outside W) (env : Env) (to_lowercase : Text → Text) where
  ecr_get-HasTag :
      (tag : Text) (s : State W) (o : Option Image) (t : State W)
      → ecr_get outside env tag s ≡ (returns (ok o), t)
      → HasTag tag o
  unfolding ecr_get
  ecr_get-HasTag tag s o t h =
      let s0 = Succeeds-and_then (ecr_list outside env s) _ o t h in
      find_tag-HasTag tag s0.value o (returned-eq _ o _ t s0.later)

  minikube_get-HasTag :
      (tag : Text) (s : State W) (o : Option Image) (t : State W)
      → minikube_get outside env tag s ≡ (returns (ok o), t)
      → HasTag tag o
  unfolding minikube_get
  minikube_get-HasTag tag s o t h =
      let s0 = Succeeds-and_then (request_manifest outside env tag s) _ o t h in
      found_or_not (s0.value.status == 404)
        (record { tag = tag; digest = text "sha256:" ++ outside.sha256 s0.value.body }) o s0.state t
        s0.later

  get_from-HasTag :
      (i : Implementation) (tag : Text) (s : State W) (o : Option Image) (t : State W)
      → get_from outside env to_lowercase i tag s ≡ (returns (ok o), t)
      → HasTag tag o
  unfolding get_from
  get_from-HasTag ecr tag s o t h = ecr_get-HasTag tag s o t h
  get_from-HasTag minikube tag s o t h = minikube_get-HasTag tag s o t h

  -- The image that `get` gives for a tag has this tag, in either registry.
  pub get-tag :
      (tag : Text) (s : State W) (i : Image) (t : State W)
      → get outside env to_lowercase tag s ≡ (returns (ok i), t)
      → i.tag ≡ tag
  unfolding get configured
  get-tag tag s i t h =
      let s0 =
        Succeeds-and_then
          (configured outside env to_lowercase s (λ i s. get_from outside env to_lowercase i tag s))
          _ i t h in
      let s1 =
        Succeeds-and_then
          (infallible (configure outside env to_lowercase s).0
            (configure outside env to_lowercase s).1)
          _ s0.value s0.state s0.first in
      let s2 =
        Succeeds-and_then (infallible (which to_lowercase env) s1.state) _ s0.value s0.state
          s1.later in
      let found = get_from-HasTag s2.value tag s2.state s0.value s0.state s2.later in
      let e = ok_or-eq-ok s0.value _ (fallible-eq-ok _ _ i t s0.later).0 in rw e at found
