-- ===== src/Aim/Metadata.antt =====
-- `extract_image_metadata_from_str` of k8s/service/aim/src/registry/containerd/import.rs: the table
-- that `ctr images ls` prints for one image.
pub mod RoundTrip
use ghactions_rust_test.Prelude.{
  List, [], ◌∷◌, ◌++◌, Option, none, some, Text, text, Result, ok, err, split, rsplit_once, ◌>>=◌,
}
use ghactions_rust_test.Errors.{AcmError, AcmResult, internal_server_error}
use ghactions_rust_test.Aim.Errors.{
  unexpected_containerd_image_ls_format, unexpected_containerd_image_row,
  unexpected_image_reference_format,
}

-- `CtrImageLs::NoData`
unfoldable pub no_data : (namespace header : Text) → AcmError
no_data namespace header = record {
  kind = text "CtrImageLs::NoData";
  http_code = internal_server_error;
  message =
      text "Failed to list images for namespace "
      ++ namespace
      ++ text ". We appear to have only received the table header (got "
      ++ header
      ++ text ")";
  source = none;
}

pub record Metadata : Type 0 where
  pub reference : Text
  pub tag : Text
  pub digest : Text

-- The row of the image: the second of two lines.
data_line : (namespace images_ls : Text) → List Text → AcmResult Text
data_line namespace images_ls (header ∷ data_ ∷ []) = ok data_
data_line namespace images_ls (header ∷ []) = err (no_data namespace header)
data_line namespace images_ls _ = err (unexpected_containerd_image_ls_format images_ls)

-- Its first and third field.
fields : (images_ls : Text) → List Text → AcmResult (Text × Text)
fields images_ls (reference ∷ _ ∷ digest ∷ _) = ok (reference, digest)
fields images_ls _ = err (unexpected_containerd_image_row images_ls)

tag_of : (reference : Text) → Option (Text × Text) → AcmResult Text
tag_of reference (some (_, tag)) = ok tag
tag_of reference none = err (unexpected_image_reference_format reference)

unfoldable pub extract_image_metadata_from_str : (namespace images_ls : Text) → AcmResult Metadata
unfolding data_line fields tag_of
extract_image_metadata_from_str namespace images_ls = do
  image ← data_line namespace images_ls (split b'\n' images_ls)
  (reference, digest) ← fields images_ls (split b' ' image)
  tag ← tag_of reference (rsplit_once b':' reference)
  ok (record { reference = reference; tag = tag; digest = digest })
