-- ===== src/Storage/Manifest.antt =====
-- storage/manifest.py: manifests, and the two stores that keep them. A blob is found by its bucket
-- and its name, a file by the text of its path; what stands there is the payload that its JSON
-- writes out. Loading what is not there raises, which is a `none`.
use Prim.Native.Char.{code}
use chainlink_economic_ledge.Prelude.{
  ℕ, ◌+◌, String, Option, some, List, [], ◌∷◌, ◌==◌, nat_eq, string_eq, pair_eq, Bool, false,
  if◌then◌else◌, ◌≡◌, refl, Bool-cases, inl, inr,
}
use chainlink_economic_ledge.Prelude.Dict.{Dict, lookup, insert, values, lookup-insert}
use chainlink_economic_ledge.Prelude.Slices.{starts_with, text_drop}

pub record ManifestPayload : Type 0 where
  pub run_id : String
  pub run_partition_id : String
  pub source : String
  pub partition_key : String
  pub gcs_paths : List String
  pub row_counts : Dict String ℕ
  pub total_rows : ℕ

pub record Stores : Type 0 where
  pub blobs : Dict (String × String) ManifestPayload
  pub files : Dict String ManifestPayload

abbrev pub sum_counts : List ℕ → ℕ
sum_counts [] = 0
sum_counts (n ∷ ns) = n + sum_counts ns

unfoldable pub create :
    (run_id run_partition_id source partition_key : String)
    → List String
    → Dict String ℕ
    → ManifestPayload
create run_id run_partition_id source partition_key gcs_paths row_counts = record {
  run_id = run_id;
  run_partition_id = run_partition_id;
  source = source;
  partition_key = partition_key;
  gcs_paths = gcs_paths;
  row_counts = row_counts;
  total_rows = sum_counts (values row_counts);
}

-- The part of a text before its first slash, and the part after it: `s.partition("/")`.
unfoldable pub before_slash : String → String
before_slash String.[] = ""
before_slash (String.◌∷◌ c s) =
    let rest = before_slash s in if code c == b'/' then "" else String.◌∷◌ c rest

unfoldable pub after_slash : String → String
after_slash String.[] = ""
after_slash (String.◌∷◌ c s) = let rest = after_slash s in if code c == b'/' then s else rest

-- The bucket and the name of a blob.
unfoldable pub blob_of : String → String × String
unfolding before_slash after_slash
blob_of target =
    let without_scheme = text_drop 5 target in
    (before_slash without_scheme, after_slash without_scheme)

unfoldable pub persist : ManifestPayload → String → Stores → Stores
unfolding blob_of
persist payload target stores =
    if starts_with target "gs://"
    then record stores { blobs = insert (blob_of target) payload stores.blobs }
    else record stores { files = insert target payload stores.files }

unfoldable pub load : String → Stores → Option ManifestPayload
unfolding blob_of
load target stores =
    if starts_with target "gs://"
    then lookup (blob_of target) stores.blobs
    else lookup target stores.files

-- Whether two targets name one place.
abbrev pub same_place : String → String → Bool
same_place target other =
    if starts_with target "gs://"
    then (if starts_with other "gs://" then blob_of target == blob_of other else false)
    else (if starts_with other "gs://" then false else target == other)

-- After persist, load returns the manifest for every target that names the same place, and for the
-- others what it returned before.
pub load-persist :
    (payload : ManifestPayload) (target other : String) (stores : Stores)
    → load other (persist payload target stores)
      ≡ (if same_place target other then some payload else load other stores)
unfolding load persist
load-persist payload target other stores = elim (Bool-cases (starts_with target "gs://")) [
  | inl t ↦ elim (Bool-cases (starts_with other "gs://")) [
    | inl o ↦
        rw (load, persist, t, o)
          (lookup-insert (blob_of target) (blob_of other) payload stores.blobs)
    | inr o ↦ rw (load, persist, t, o) refl
  ]
  | inr t ↦ elim (Bool-cases (starts_with other "gs://")) [
    | inl o ↦ rw (load, persist, t, o) refl
    | inr o ↦ rw (load, persist, t, o) (lookup-insert target other payload stores.files)
  ]
]
