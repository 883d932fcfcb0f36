-- ===== src/Storage/Filesystem.antt =====
-- crates/sqrld/src/storage/filesystem.rs: `LocalFileStorage`.
pub mod Paths
pub mod Ranges
pub mod Ranged
pub mod Written
use squirreldb.Base.{
  ℕ, ℤ, Text, lit, Bytes, as_i64, length, take, drop, show_nat, show_i64, not, Option, none, some,
  List, [], ◌∷◌, ◌++◌, if◌then◌else◌,
}
use squirreldb.Storage.Externals.{Platform}
use squirreldb.Storage.Error.{StorageError, no_such_key, internal_error}
use squirreldb.Storage.Actions.{Action, ◌>>=◌, pure, throw, panic, lift}
use squirreldb.Storage.Services.{StorageBackend, Nothing}
use squirreldb.Storage.Services
use squirreldb.Storage.Files.{Files, Digests}
use squirreldb.Storage.Filesystem.Paths.{join, parent}
use squirreldb.Storage.Filesystem.Ranges.{RangeRead, slice, eof, overflow, read_range}

pub record LocalFileStorage : Type 0 where
  pub base_path : Text

module _ (x : Platform) (g : Digests) {W : Type 0} (fs : Files W) (self : LocalFileStorage) where
  unfoldable pub object_path : Text → Text → x.Uuid → Text
  unfolding join
  object_path bucket key version_id =
      let key_hash = g.sha256 key in
      join
        (join
          (join (join (join (join self.base_path (lit "buckets")) bucket) (lit "objects"))
            (take 2 key_hash))
          (take 2 (drop 2 key_hash)))
        (x.uuid_to_string version_id ++ lit ".data")

  unfoldable pub part_path : x.Uuid → ℤ → Text
  unfolding join
  part_path upload_id part_number =
      join (join (join self.base_path (lit "multipart")) (x.uuid_to_string upload_id))
        (lit "part_" ++ show_i64 part_number)

  unfoldable pub init : Action W Nothing
  unfolding join
  init = do
    _ ← lift (fs.create_dir_all self.base_path)
    _ ← lift (fs.create_dir_all (join self.base_path (lit "buckets")))
    _ ← lift (fs.create_dir_all (join self.base_path (lit "multipart")))
    pure tt

  abbrev pub calculate_etag : Bytes → Text
  calculate_etag content = g.md5 content

  -- The tags that are no hexadecimal digits are passed over.
  unfoldable pub combined : List Text → Bytes
  combined [] = []
  combined (etag ∷ etags) = elim (g.decode_hex etag) [
    | none ↦ combined etags
    | some bytes ↦ bytes ++ combined etags
  ]

  unfoldable pub calculate_multipart_etag : List Text → Text
  unfolding combined
  calculate_multipart_etag part_etags =
      g.md5 (combined part_etags) ++ lit "-" ++ show_nat (length part_etags)

  abbrev pub made_in : Option Text → Action W Nothing
  made_in none = pure tt
  made_in (some dir) = lift (fs.create_dir_all dir)

  abbrev pub create_parent : Text → Action W Nothing
  create_parent path = made_in (parent path)

  -- What both kinds of writing do at a path.
  abbrev pub write_at : Text → Bytes → Text → Action W Services.Written
  write_at path content etag = do
    _ ← lift (fs.write path content)
    pure (path, (etag, as_i64 (length content)))

  unfoldable pub write_object : Text → Text → x.Uuid → Bytes → Action W Services.Written
  unfolding object_path
  write_object bucket key version_id content = do
    _ ← create_parent (object_path bucket key version_id)
    write_at (object_path bucket key version_id) content (calculate_etag content)

  -- A read of a file that must be there.
  abbrev pub read_existing : StorageError → Text → Action W Bytes
  read_existing missing path =
      λ w. (if fs.exists path w then lift (fs.read path) w else throw missing w)

  unfoldable pub read_object : Text → Action W Bytes
  read_object storage_path = read_existing (no_such_key storage_path) storage_path

  abbrev pub range_action : RangeRead → Action W Bytes
  range_action (slice bytes) = pure bytes
  range_action eof = throw (internal_error g.unexpected_eof)
  range_action overflow = panic

  unfoldable pub read_object_range : Text → ℕ → Option ℕ → Action W Bytes
  unfolding read_range
  read_object_range storage_path start end = do
    content ← read_existing (no_such_key storage_path) storage_path
    range_action (read_range content start end)

  unfoldable pub delete_object : Text → Action W Nothing
  delete_object storage_path =
      λ w. (if fs.exists storage_path w then lift (fs.remove_file storage_path) w else pure tt w)

  unfoldable pub write_part : x.Uuid → ℤ → Bytes → Action W Services.Written
  unfolding part_path
  write_part upload_id part_number content = do
    _ ← create_parent (part_path upload_id part_number)
    write_at (part_path upload_id part_number) content (calculate_etag content)

  unfoldable pub read_part : Text → Action W Bytes
  read_part storage_path =
      read_existing (internal_error (lit "Part not found: " ++ storage_path)) storage_path

  -- The loop over the parts: their bytes one behind the other, and the tag of each.
  unfoldable pub read_parts : List Text → Action W (Bytes × List Text)
  unfolding read_part
  read_parts [] = pure ([], [])
  read_parts (path ∷ paths) = do
    content ← read_part path
    (rest, etags) ← read_parts paths
    pure (content ++ rest, calculate_etag content ∷ etags)

  unfoldable pub assemble_parts : Text → Text → x.Uuid → List Text → Action W Services.Written
  unfolding object_path parent read_parts calculate_multipart_etag
  assemble_parts bucket key version_id part_paths = do
    _ ← create_parent (object_path bucket key version_id)
    (final_data, part_etags) ← read_parts part_paths
    write_at (object_path bucket key version_id) final_data (calculate_multipart_etag part_etags)

  abbrev pub remove_tree : Text → Action W Nothing
  remove_tree path = λ w. (if fs.exists path w then lift (fs.remove_dir_all path) w else pure tt w)

  unfoldable pub cleanup_multipart : x.Uuid → Action W Nothing
  unfolding join
  cleanup_multipart upload_id =
      remove_tree (join (join self.base_path (lit "multipart")) (x.uuid_to_string upload_id))

  unfoldable pub init_bucket : Text → Action W Nothing
  unfolding join
  init_bucket bucket =
      lift (
        fs.create_dir_all
          (join (join (join self.base_path (lit "buckets")) bucket) (lit "objects")))

  unfoldable pub delete_bucket : Text → Action W Nothing
  unfolding join
  delete_bucket bucket = remove_tree (join (join self.base_path (lit "buckets")) bucket)

  unfoldable pub copy_object : Text → Text → Text → x.Uuid → Action W Services.Written
  unfolding read_object write_object
  copy_object src_path dst_bucket dst_key dst_version_id = do
    content ← read_object src_path
    write_object dst_bucket dst_key dst_version_id content

  unfoldable pub test_connection : Action W Nothing
  test_connection = λ w.
      (if fs.exists self.base_path w
        then pure tt w
        else throw (internal_error (lit "Storage directory does not exist")) w)

  -- The instance of the trait.
  abbrev pub local_backend : StorageBackend x W
  local_backend = record {
    init = init;
    init_bucket = init_bucket;
    delete_bucket = delete_bucket;
    write_object = write_object;
    read_object = read_object;
    read_object_range = read_object_range;
    delete_object = delete_object;
    write_part = write_part;
    read_part = read_part;
    assemble_parts = assemble_parts;
    cleanup_multipart = cleanup_multipart;
    copy_object = copy_object;
    test_connection = test_connection;
  }
