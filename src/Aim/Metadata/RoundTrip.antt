-- ===== src/Aim/Metadata/RoundTrip.antt =====
-- What the reader of the image table finds, and when.
use ghactions_rust_test.Prelude.{
  ◌≡◌, ap, sym, List, [], ◌∷◌, ◌++◌, Option, none, some, Text, ok, split, rsplit_once, join, Lacks,
  split-Lacks, split-append, rsplit_once-append, join-split, split-All-Lacks, All, IsLastCut,
  rsplit_once-IsLastCut, >>=-eq-ok, ◌∙◌,
}
use ghactions_rust_test.Aim.Metadata.{
  Metadata, data_line, fields, tag_of, extract_image_metadata_from_str,
}

-- What `ctr images ls` prints for one image, up to the third field: the header, then the
-- reference, the type and the digest with single spaces, and more fields after a space.
abbrev pub table : (header reference type_ digest more : Text) → Text
table header reference type_ digest more =
    header ++ b'\n' ∷ (reference ++ b' ' ∷ (type_ ++ b' ' ∷ (digest ++ b' ' ∷ more)))

-- The output and what was read from it: two lines, of which the second is fields with spaces between
-- them.
pub record IsRead (images_ls : Text) (m : Metadata) : Type 0 where
  pub header : Text
  pub type_ : Text
  pub more : List Text
  pub repository : Text
  pub one_header : Lacks b'\n' header
  pub one_row : Lacks b'\n' (join b' ' (m.reference ∷ type_ ∷ m.digest ∷ more))
  pub single : All (Lacks b' ') (m.reference ∷ type_ ∷ m.digest ∷ more)
  pub rows : images_ls ≡ header ++ b'\n' ∷ join b' ' (m.reference ∷ type_ ∷ m.digest ∷ more)
  pub image : m.reference ≡ repository ++ b':' ∷ m.tag
  pub last : Lacks b':' m.tag

Lacks-append : (sep : _) (p q : Text) → Lacks sep p → Lacks sep q → Lacks sep (p ++ q)
Lacks-append sep [] q hp hq = hq
Lacks-append sep (c ∷ p) q hp hq = (hp.0, Lacks-append sep p q hp.1 hq)

-- The fields of the row, by the split at spaces.
row_split :
    (reference type_ digest more : Text)
    → Lacks b' ' reference
    → Lacks b' ' type_
    → Lacks b' ' digest
    → split b' ' (reference ++ b' ' ∷ (type_ ++ b' ' ∷ (digest ++ b' ' ∷ more)))
      ≡ reference ∷ type_ ∷ digest ∷ split b' ' more
row_split reference type_ digest more hr ht hd = rw (
  split-append b' ' reference (type_ ++ b' ' ∷ (digest ++ b' ' ∷ more)) hr,
  split-append b' ' type_ (digest ++ b' ' ∷ more) ht,
  split-append b' ' digest more hd,
)

-- A row is on one line, after a header on another.
lines_split :
    (header row : Text)
    → Lacks b'\n' header
    → Lacks b'\n' row
    → split b'\n' (header ++ b'\n' ∷ row) ≡ header ∷ row ∷ []
lines_split header row hh hr = rw (split-append b'\n' header row hh, split-Lacks b'\n' row hr)

-- From the table of one image whose fields have no spaces and no line breaks, the reader takes its
-- reference, its digest, and as its tag what follows the last colon of the reference.
pub extract-table :
    (namespace header repository tag type_ digest more : Text)
    → Lacks b'\n' header
    → Lacks b'\n' ((repository ++ b':' ∷ tag) ++ b' ' ∷ (type_ ++ b' ' ∷ (digest ++ b' ' ∷ more)))
    → Lacks b' ' (repository ++ b':' ∷ tag)
    → Lacks b' ' type_
    → Lacks b' ' digest
    → Lacks b':' tag
    → extract_image_metadata_from_str namespace
        (table header (repository ++ b':' ∷ tag) type_ digest more)
      ≡ ok (record { reference = repository ++ b':' ∷ tag; tag = tag; digest = digest })
unfolding extract_image_metadata_from_str data_line fields tag_of
extract-table namespace header repository tag type_ digest more hh hn hr ht hd hc = rw (
  lines_split header _ hh hn,
  row_split (repository ++ b':' ∷ tag) type_ digest more hr ht hd,
  rsplit_once-append b':' repository tag hc,
)

two_lines :
    (namespace images_ls : Text) (lines : List Text) {row : Text}
    → data_line namespace images_ls lines ≡ ok row
    → (header : Text) × (lines ≡ header ∷ row ∷ [])
unfolding data_line
two_lines namespace images_ls [] h = cc
two_lines namespace images_ls (header ∷ []) h = cc
two_lines namespace images_ls (header ∷ row ∷ []) h = (header, cc)
two_lines namespace images_ls (_ ∷ _ ∷ _ ∷ _) h = cc

three_fields :
    (images_ls : Text) (row : List Text) {f : Text × Text}
    → fields images_ls row ≡ ok f
    → (type_ : Text) × (more : List Text) × (row ≡ f.0 ∷ type_ ∷ f.1 ∷ more)
unfolding fields
three_fields images_ls [] h = cc
three_fields images_ls (_ ∷ []) h = cc
three_fields images_ls (_ ∷ _ ∷ []) h = cc
three_fields images_ls (reference ∷ type_ ∷ digest ∷ more) h = (type_, more, cc)

transport-IsRead :
    {images_ls : Text} {m n : Metadata} → m ≡ n → IsRead images_ls m → IsRead images_ls n
transport-IsRead {images_ls} e r = rw e at r

pieces-Lacks :
    (sep : _) (s : Text) (pieces : List Text) → split sep s ≡ pieces → All (Lacks sep) pieces
pieces-Lacks sep s pieces e = rw (← e) (split-All-Lacks sep s)

joined-Lacks :
    (row : Text) (pieces : List Text)
    → split b' ' row ≡ pieces
    → Lacks b'\n' row
    → Lacks b'\n' (join b' ' pieces)
joined-Lacks row pieces e h = rw (← e, join-split b' ' row) h

-- The output from its pieces.
whole_of_pieces :
    (images_ls header row : Text) (pieces : List Text)
    → split b'\n' images_ls ≡ header ∷ row ∷ []
    → split b' ' row ≡ pieces
    → images_ls ≡ header ++ b'\n' ∷ join b' ' pieces
whole_of_pieces images_ls header row pieces lines fields =
    let whole = join-split b'\n' images_ls in
    let line = join-split b' ' row in
    sym whole
    ∙ (rw lines (unfold join in ap (λ t. header ++ b'\n' ∷ t) (sym line ∙ ap (join b' ') fields)))

tag_is_last :
    (reference : Text) (o : Option (Text × Text)) {tag : Text}
    → IsLastCut b':' reference o
    → tag_of reference o ≡ ok tag
    → (repository : Text) × (reference ≡ repository ++ b':' ∷ tag) × Lacks b':' tag
unfolding tag_of
tag_is_last reference none c h = cc
tag_is_last reference (some (before, after)) {tag} c h =
    let e : after ≡ tag = cc in (before, rw (← e) (c.0), rw (← e) (c.1))

-- Whatever the output, if the reader gives an image then the output is two lines, of which the
-- second has the reference as its first field and the digest as its third, and the tag is what
-- follows the last colon of the reference.
pub extract-IsRead :
    (namespace images_ls : Text) (m : Metadata)
    → extract_image_metadata_from_str namespace images_ls ≡ ok m
    → IsRead images_ls m
unfolding extract_image_metadata_from_str
extract-IsRead namespace images_ls m h =
    let (row, h1, k1) = >>=-eq-ok (data_line namespace images_ls (split b'\n' images_ls)) _ h in
    let (f, h2, k2) = >>=-eq-ok (fields images_ls (split b' ' row)) _ k1 in
    let (tag, h3, k3) = >>=-eq-ok (tag_of f.0 (rsplit_once b':' f.0)) _ k2 in
    let (header, lines) = two_lines namespace images_ls (split b'\n' images_ls) h1 in
    let (type_, more, row_is) = three_fields images_ls (split b' ' row) h2 in
    let (repository, image, last) =
      tag_is_last f.0 (rsplit_once b':' f.0) (rsplit_once-IsLastCut b':' f.0) h3 in
    let e : record { reference = f.0; tag = tag; digest = f.1 } ≡ m = cc in
    transport-IsRead e (record {
      header = header;
      type_ = type_;
      more = more;
      repository = repository;
      one_header = (pieces-Lacks b'\n' images_ls (header ∷ row ∷ []) lines).0;
      one_row =
          joined-Lacks row (f.0 ∷ type_ ∷ f.1 ∷ more) row_is
            (pieces-Lacks b'\n' images_ls (header ∷ row ∷ []) lines).1.0;
      single = pieces-Lacks b' ' row (f.0 ∷ type_ ∷ f.1 ∷ more) row_is;
      rows = whole_of_pieces images_ls header row (f.0 ∷ type_ ∷ f.1 ∷ more) lines row_is;
      image = image;
      last = last;
    })
