-- ===== src/Storage/Tests/Store.antt =====
-- A data base of one bucket and a storage of files, that keep what the handlers rely on.
use mathlib.Core.Path.{subst}
use squirreldb.Base.{
  ℕ, ℤ, pos, ◌+◌, Text, lit, text_eq, text_eq_iff, Bytes, show_i64, as_i64, length, true, false,
  Bool-cases, Option, none, some, List, [], ◌≡◌, ◌≢◌, refl, ap, ◌∙◌, inl, inr, if◌then◌else◌, arith,
}
use squirreldb.Base.HashMap
use squirreldb.Base.Results.{Result, ok, err}
use squirreldb.Storage.Types.{StorageBucket, StorageObject}
use squirreldb.Storage.Error.{no_such_key, internal_error}
use squirreldb.Storage.Actions.{Fault, error, pure}
use squirreldb.Storage.Services.{DatabaseBackend, StorageBackend, StorageState}
use squirreldb.Storage.Routes.RoundTrip.{IsFaithful, Stored, IsLatest}
use squirreldb.Storage.Tests.World.{numbered, Disk}

-- The objects by their keys, the files, and the next identifier.
pub record World : Type 0 where
  pub rows : List (Text × StorageObject numbered)
  pub files : Disk
  pub next : ℕ

abbrev pub the_bucket : StorageBucket numbered
the_bucket = record {
  name = lit "photos";
  owner_id = none;
  versioning_enabled = false;
  acl = [];
  lifecycle_rules = [];
  quota_bytes = none;
  current_size = pos 0;
  object_count = pos 0;
  created_at = 0;
}

abbrev unused {ℓ} : {A : Type ℓ} → World → Result Text A × World
unused w = (err (lit "unused"), w)

abbrev row_of : Text → Text → ℕ → Text → ℤ → Text → Text → StorageObject numbered
row_of b k v t n ct p = record {
  bucket = b;
  key = k;
  version_id = v;
  is_latest = true;
  etag = t;
  size = n;
  content_type = ct;
  storage_path = p;
  metadata = squirreldb.Cache.Json.null;
  acl = [];
  is_delete_marker = false;
  created_at = 0;
}

-- The path of the object that goes, where it is another.
abbrev other_path : Text → Option (StorageObject numbered) → Option Text
other_path p none = none
other_path p (some o) = if text_eq o.storage_path p then none else some o.storage_path

other_path-ne : (p : Text) (o : Option (StorageObject numbered)) → other_path p o ≢ some p
other_path-ne p none e = absurd (ground arith)
other_path-ne p (some o) e = elim (Bool-cases (text_eq o.storage_path p)) [
  | inl same ↦ absurd (let g = rw same at e in ground arith)
  | inr other ↦
      let g : some o.storage_path ≡ some p = rw other at e in
      let h : o.storage_path ≡ p = cc in absurd (ground (arith, text_eq_iff o.storage_path p))
]

abbrev pub rows_backend : DatabaseBackend numbered World
rows_backend = record {
  get_storage_access_key = λ k. unused;
  validate_token = λ t. unused;
  get_storage_bucket = λ b w. (ok (some the_bucket), w);
  create_storage_bucket = λ b o. unused;
  delete_storage_bucket = λ b. unused;
  list_storage_buckets = unused;
  get_storage_object = λ b k v w. (ok (HashMap.get k w.rows), w);
  create_storage_delete_marker = λ b k v. unused;
  update_storage_object_acl = λ b k a. unused;
  list_storage_object_versions = λ b p n. unused;
  get_multipart_upload = λ u. unused;
  create_multipart_upload = λ u b k c m. unused;
  delete_multipart_upload = λ u. unused;
  list_multipart_uploads = λ b n. unused;
  get_multipart_part = λ u n. unused;
  upsert_multipart_part = λ u n t s p. unused;
  list_multipart_parts = λ u n. unused;
  create_storage_object_with_stats = λ b k v t n ct p m w.
      (ok tt, record w { rows = HashMap.insert k (row_of b k v t n ct p) w.rows });
  delete_storage_object_with_stats = λ b k v. unused;
  replace_storage_object = λ b k v t n ct p m w. (
    ok (other_path p (HashMap.get k w.rows)),
    record w { rows = HashMap.insert k (row_of b k v t n ct p) w.rows },
  );
  list_storage_objects_with_prefixes = λ b p d n t. unused;
}

abbrev no_file {ℓ} : {A : Type ℓ} → World → Result Fault A × World
no_file w = (err (error (internal_error (lit "unused"))), w)

abbrev read_of : Option Bytes → World → Result Fault Bytes × World
read_of none w = (err (error (no_such_key (lit "file"))), w)
read_of (some d) w = (ok d, w)

abbrev pub files_backend : StorageBackend numbered World
files_backend = record {
  init = pure tt;
  init_bucket = λ b. pure tt;
  delete_bucket = λ b. pure tt;
  write_object = λ b k v d w. (
    ok (show_i64 (pos w.next), (lit "00", as_i64 (length d))),
    record w { files = HashMap.insert (show_i64 (pos w.next)) d w.files; next = w.next + 1 },
  );
  read_object = λ p w. read_of (HashMap.get p w.files) w;
  read_object_range = λ p start end. no_file;
  delete_object = λ p w. (ok tt, record w { files = HashMap.remove p w.files });
  write_part = λ u n d. no_file;
  read_part = λ p. no_file;
  assemble_parts = λ b k v ps. no_file;
  cleanup_multipart = λ u. pure tt;
  copy_object = λ p b k v. no_file;
  test_connection = pure tt;
}

abbrev pub store : StorageState numbered World
store = record {
  backend = rows_backend;
  storage = files_backend;
  config = record { region = lit "local"; max_object_size = 1000; max_part_size = 1000 };
  new_v4 = λ w. (ok w.next, record w { next = w.next + 1 });
  now = λ w. (ok 0, w);
}

abbrev pub empty_world : World
empty_world = record { rows = []; files = []; next = 0 }

read_of-ok : (o : Option Bytes) (c : Bytes) (w : World) → read_of o w ≡ (ok c, w) → o ≡ some c
read_of-ok none c w h = cc
read_of-ok (some d) c w h = cc

file-Stored :
    (p : Text) (c : Bytes) (w : World) → HashMap.get p w.files ≡ some c → Stored store p c w
file-Stored p c w h = ap (λ o. read_of o w) h

file_of : (p : Text) (c : Bytes) (w : World) → Stored store p c w → HashMap.get p w.files ≡ some c
file_of p c w h = read_of-ok (HashMap.get p w.files) c w h

world_of : {A : Type 0} {r r' : A} {w w' : World} → ◌≡◌ {A = A × World} (r, w) (r', w') → w ≡ w'
world_of h = ap (λ q. q.1) h

-- The store keeps what the handlers rely on.
pub store-IsFaithful : IsFaithful store
store-IsFaithful = record {
  stored-write_object = λ b k v c written w w' h.
      let path : written.0 ≡ show_i64 (pos w.next) = cc in
      subst (λ u. Stored store written.0 c u) (world_of h)
        (file-Stored _ c _ (rw (path) (HashMap.get-insert_self _ c w.files)));
  stored-create = λ b k v t n ct q m p c w w' r h held.
      subst (λ u. Stored store p c u) (world_of h) (file-Stored p c _ (file_of p c w held));
  stored-replace = λ b k v t n ct q m p c w w' r h held.
      subst (λ u. Stored store p c u) (world_of h) (file-Stored p c _ (file_of p c w held));
  stored-delete_object = λ q p c other w w' r h held.
      subst (λ u. Stored store p c u) (world_of h)
        (file-Stored p c _ (HashMap.get-remove_ne q p w.files other ∙ file_of p c w held));
  latest-create = λ b k v t n ct p m w w' h.
      subst (λ u. IsLatest store b k p u) (world_of h)
        (
          row_of b k v t n ct p,
          ap (λ o. (ok o, (store.backend.create_storage_object_with_stats b k v t n ct p m w).1))
              (HashMap.get-insert_self k (row_of b k v t n ct p) w.rows),
          refl,
          refl,
        );
  latest-replace = λ b k v t n ct p m old w w' h.
      let told : other_path p (HashMap.get k w.rows) ≡ old = cc in
      (
        subst (λ u. IsLatest store b k p u) (world_of h)
            (
              row_of b k v t n ct p,
              ap (λ o. (ok o, (store.backend.replace_storage_object b k v t n ct p m w).1))
                  (HashMap.get-insert_self k (row_of b k v t n ct p) w.rows),
              refl,
              refl,
            ),
        (λ e. other_path-ne p (HashMap.get k w.rows) (told ∙ e)),
      );
  latest-delete_object = λ b k p q w w' r h (o, found, is, live).
      subst (λ u. IsLatest store b k p u) (world_of h)
        (o, ap (λ a. (a, (store.storage.delete_object q w).1)) (ap (λ s. s.0) found), is, live);
  bucket-new_v4 = λ b w w' r h held. (the_bucket, refl);
  bucket-write_object = λ b k v c b' w w' r h held. (the_bucket, refl);
  bucket-create = λ b k v t n ct q m b' w w' r h held. (the_bucket, refl);
  bucket-replace = λ b k v t n ct q m b' w w' r h held. (the_bucket, refl);
  bucket-delete_object = λ q b w w' r h held. (the_bucket, refl);
}
