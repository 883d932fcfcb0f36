-- ===== src/Storage/Filesystem/Written.antt =====
-- What is written is read back: objects, and objects that are put together from parts.
use squirreldb.Base.{
  Text, Bytes, as_i64, length, true, Option, none, some, List, [], ◌∷◌, ◌++◌, ◌≡◌, refl, map,
}
use squirreldb.Base.Results.{ok}
use squirreldb.Storage.Externals.{Platform}
use squirreldb.Storage.Error.{StorageError}
use squirreldb.Storage.Actions.{>>=-eq-ok, lift-eq-ok, lift}
use squirreldb.Storage.Services
use squirreldb.Storage.Files.{Files, FilesLaws, Digests}
use squirreldb.Storage.Filesystem.Paths.{parent}
use squirreldb.Storage.Filesystem.{
  LocalFileStorage, object_path, write_at, read_existing, write_object, read_object, create_parent,
  made_in, read_parts, assemble_parts, calculate_multipart_etag,
}

-- Bytes behind one another.
abbrev pub joined : List Bytes → Bytes
joined [] = []
joined (d ∷ ds) = d ++ joined ds

module _ (x : Platform) (g : Digests) {W : Type 0} (fs : Files W) (laws : FilesLaws fs)
    (self : LocalFileStorage) where
  reads :
      (missing : StorageError) (p : Text) (d : Bytes) (w : W)
      → fs.exists p w ≡ true
      → fs.read p w ≡ (ok d, w)
      → read_existing x g fs self missing p w ≡ (ok d, w)
  reads missing p d w there same = rw (there, same) refl

  write_at-reads :
      (path : Text) (content : Bytes) (etag : Text) (written : Services.Written) (w w' : W)
      → write_at x g fs self path content etag w ≡ (ok written, w')
      → (written ≡ (path, (etag, as_i64 (length content))))
        × (fs.exists path w' ≡ true)
        × (fs.read path w' ≡ (ok content, w'))
  write_at-reads path content etag written w w' h =
      let (u, v, wrote, e) = >>=-eq-ok (lift (fs.write path content)) _ h in
      let done = lift-eq-ok (fs.write path content) wrote in
      let same : v ≡ w' = cc in
      (
        cc,
        rw (← same) (laws.exists-write path content w v done),
        rw (← same) (laws.read-write path content w v done),
      )

  -- An object that was written is read back, and its size and tag are those of its bytes.
  pub read_object-write_object :
      (bucket key : Text) (version_id : x.Uuid) (content : Bytes) (written : Services.Written)
      (w w' : W)
      → write_object x g fs self bucket key version_id content w ≡ (ok written, w')
      → (read_object x g fs self written.0 w' ≡ (ok content, w'))
        × (written.1 ≡ (g.md5 content, as_i64 (length content)))
  unfolding write_object read_object
  read_object-write_object bucket key version_id content written w w' h =
      let path = object_path x g fs self bucket key version_id in
      let (u, v, made, e) = >>=-eq-ok (create_parent x g fs self path) _ h in
      let (is, there, same) = write_at-reads path content (g.md5 content) written v w' e in
      rw (is) (reads _ path content w' there same, refl)

  -- Each of the files is there and holds these bytes.
  abbrev pub Holds : W → List Text → List Bytes → Type 0
  Holds w [] [] = Unit
  Holds w (p ∷ ps) (d ∷ ds) = (fs.exists p w ≡ true) × (fs.read p w ≡ (ok d, w)) × Holds w ps ds
  Holds w ps ds = ⊥

  read_parts-Holds :
      (ps : List Text) (ds : List Bytes) (w : W)
      → Holds w ps ds
      → read_parts x g fs self ps w ≡ (ok (joined ds, map g.md5 ds), w)
  unfolding read_parts
  read_parts-Holds [] [] w h = refl
  read_parts-Holds [] (d ∷ ds) w h = absurd h
  read_parts-Holds (p ∷ ps) [] w h = absurd h
  read_parts-Holds (p ∷ ps) (d ∷ ds) w (there, same, h) =
      rw (reads _ p d w there same) (rw (read_parts-Holds ps ds w h) refl)

  create_dir_all-Holds :
      (q : Text) (ps : List Text) (ds : List Bytes) (w w' : W)
      → fs.create_dir_all q w ≡ (ok tt, w')
      → Holds w ps ds
      → Holds w' ps ds
  create_dir_all-Holds q [] [] w w' e h = tt
  create_dir_all-Holds q [] (d ∷ ds) w w' e h = h
  create_dir_all-Holds q (p ∷ ps) [] w w' e h = h
  create_dir_all-Holds q (p ∷ ps) (d ∷ ds) w w' e (there, same, h) = (
    laws.exists-create_dir_all p q w w' e there,
    laws.read-create_dir_all p q d w w' e same,
    create_dir_all-Holds q ps ds w w' e h,
  )

  parent-Holds :
      (dir : Option Text) (ps : List Text) (ds : List Bytes) (w w' : W)
      → (made_in x g fs self dir) w ≡ (ok tt, w')
      → Holds w ps ds
      → Holds w' ps ds
  parent-Holds none ps ds w w' e h = let same : w ≡ w' = cc in rw (← same) h
  parent-Holds (some q) ps ds w w' e h =
      create_dir_all-Holds q ps ds w w' (lift-eq-ok (fs.create_dir_all q) e) h

  -- An object that was put together from parts that are there holds their bytes in the order in
  -- which the parts were named, and its size is theirs together.
  pub read_object-assemble_parts :
      (bucket key : Text) (version_id : x.Uuid) (ps : List Text) (ds : List Bytes)
      (written : Services.Written) (w w' : W)
      → Holds w ps ds
      → assemble_parts x g fs self bucket key version_id ps w ≡ (ok written, w')
      → (read_object x g fs self written.0 w' ≡ (ok (joined ds), w'))
        × (written.1
            ≡ (calculate_multipart_etag x g fs self (map g.md5 ds), as_i64 (length (joined ds))))
  unfolding assemble_parts read_object
  read_object-assemble_parts bucket key version_id ps ds written w w' held h =
      let path = object_path x g fs self bucket key version_id in
      let (u, v, made, e) = >>=-eq-ok (create_parent x g fs self path) _ h in
      let all = read_parts-Holds ps ds v (parent-Holds (parent path) ps ds w v made held) in
      let (is, there, same) =
        write_at-reads path (joined ds) (calculate_multipart_etag x g fs self (map g.md5 ds))
          written v w' (rw all at e) in
      rw (is) (reads _ path (joined ds) w' there same, refl)
