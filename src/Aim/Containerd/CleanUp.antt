-- ===== src/Aim/Containerd/CleanUp.antt =====
-- What an import leaves behind.
use ghactions_rust_test.Prelude.{
  ℕ, ◌≡◌, ◌∙◌, refl, ap, Bool, List, [], ◌∷◌, ◌++◌, map, All, length, ◌≤◌, Option, Text, arith,
}
use ghactions_rust_test.Errors.{AcmError}
use ghactions_rust_test.Os.{Arg, Process}
use ghactions_rust_test.Aim.Env.{Env}
use ghactions_rust_test.Calls.{and_then}
use ghactions_rust_test.Aim.Containerd.{
  TmpImage, Image, to_image, Dropped, image, namespace, State, Draw, retag, push, import,
}
use ghactions_rust_test.Aim.Containerd.Post.{Post, and_then-Post, Post-weaken, dropping-Post}
use ghactions_rust_test.Aim.Containerd.Stages.{
  IsRetagged, IsUploaded, upload-Post, retag-Post, push-Post,
}

-- After a failed import: at most two images were dropped, each of this import's namespace, and after
-- them the namespace.
pub record IsAbandoned (draw : Draw) (before after : List Dropped) : Type 0 where
  pub images : List TmpImage
  pub drops : after ≡ namespace draw.namespace ∷ (map image images ++ before)
  pub own : All (λ i. i.namespace ≡ draw.namespace) images
  pub few : length images ≤ 2

module _ {W : Type 0} (run : Text → List Arg → W → Process × W) (env : Env)
    (to_lowercase : Text → Text) (debug : AcmError → Text) (is_alphabetic : ℕ → Bool) where
  -- After a successful import: the uploaded image, as `ctr` has listed it, was dropped, then the retagged one, then the
  -- namespace, and the result names the new tag and the digest.
  pub record IsImported (draw : Draw) (path : Option Text) (w : W) (before : List Dropped)
      (result : Image) (after : List Dropped) : Type 0 where
    pub old : TmpImage
    pub new : TmpImage
    pub uploaded : IsUploaded run env to_lowercase debug is_alphabetic draw.namespace path w old
    pub retagged : IsRetagged run env to_lowercase debug is_alphabetic draw old new
    pub drops : after ≡ namespace draw.namespace ∷ image new ∷ image old ∷ before
    pub result_is : result ≡ to_image new

  push_last :
      (draw : Draw) (path : Option Text) (w0 : W) (before : List Dropped) (old new : TmpImage)
      (s : State W)
      → IsUploaded run env to_lowercase debug is_alphabetic draw.namespace path w0 old
      → (s.drops ≡ image old ∷ before)
        × IsRetagged run env to_lowercase debug is_alphabetic draw old new
      → Post
          (λ i d. IsImported draw path w0 before i (namespace draw.namespace ∷ d))
          (λ d. IsAbandoned draw before (namespace draw.namespace ∷ d))
          (push run env to_lowercase debug is_alphabetic new s)
  push_last draw path w0 before old new s o (h, r) =
      Post-weaken _ _ _ _ _
        (λ i d w. record {
          old = old;
          new = new;
          uploaded = o;
          retagged = r;
          drops = ap (λ l. namespace draw.namespace ∷ l) w.0;
          result_is = w.1;
        })
        (λ d w. record {
          images = new ∷ old ∷ [];
          drops = ap (λ l. namespace draw.namespace ∷ l) w;
          own = (r.namespace ∙ o.listed.namespace, (o.listed.namespace, tt));
          few = omega arith;
        })
        (push-Post run env to_lowercase debug is_alphabetic new s (image old ∷ before) h)

  retag_then_push :
      (draw : Draw) (path : Option Text) (w0 : W) (before : List Dropped) (old : TmpImage)
      (s : State W)
      → (s.drops ≡ before)
        × IsUploaded run env to_lowercase debug is_alphabetic draw.namespace path w0 old
      → Post
          (λ i d. IsImported draw path w0 before i (namespace draw.namespace ∷ d))
          (λ d. IsAbandoned draw before (namespace draw.namespace ∷ d))
          (and_then
            (retag run env to_lowercase debug is_alphabetic draw old s)
            (λ i s. push run env to_lowercase debug is_alphabetic i s))
  retag_then_push draw path w0 before old s (h, o) =
      and_then-Post _ _ _ _ _
        (Post-weaken _
          (λ new d.
            (d ≡ image old ∷ before)
            × IsRetagged run env to_lowercase debug is_alphabetic draw old new)
          _ _ _ (λ new d w. w)
          (λ d w. record {
            images = old ∷ [];
            drops = ap (λ l. namespace draw.namespace ∷ l) w;
            own = (o.listed.namespace, tt);
            few = omega arith;
          })
          (retag-Post run env to_lowercase debug is_alphabetic draw old s before h))
        (λ new s' w. push_last draw path w0 before old new s' o w)

  -- However an import ends, the namespace is dropped, exactly once and after all images. If it
  -- succeeds, exactly two images were dropped, the uploaded one and then the retagged one. The uploaded
  -- one is what the table that `ctr images ls` has printed right after `ctr images import` says, and
  -- the result has its digest, with the drawn label as the tag. If it fails or panics, at most two
  -- images were dropped, all of this namespace.
  pub import-Post :
      (draw : Draw) (path : Option Text) (s : State W)
      → Post
          (λ i d. IsImported draw path s.world s.drops i d)
          (λ d. IsAbandoned draw s.drops d)
          (import run env to_lowercase debug is_alphabetic draw path s)
  unfolding import
  import-Post draw path s = dropping-Post _ _ _ _ (
      and_then-Post _ _ _ _ _
        (Post-weaken _
          (λ old d.
            (d ≡ s.drops)
            × IsUploaded run env to_lowercase debug is_alphabetic draw.namespace path s.world old)
          _ _ _ (λ old d w. w)
          (λ d w. record {
            images = [];
            drops = ap (λ l. namespace draw.namespace ∷ l) w;
            own = tt;
            few = omega arith;
          })
          (upload-Post run env to_lowercase debug is_alphabetic draw.namespace path s s.drops refl))
        (λ old s' w. retag_then_push draw path s.world s.drops old s' w))
