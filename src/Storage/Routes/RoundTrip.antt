-- ===== src/Storage/Routes/RoundTrip.antt =====
-- An object that was put is got back.
use mathlib.Core.Path.{subst}
use squirreldb.Base.{
  ℤ, Text, lit, Bytes, true, false, Option, none, some, List, [], ◌∷◌, ◌≡◌, ◌≢◌, refl, sym, ap, ◌∙◌,
  Bool-cases, inl, inr, length, ltb,
}
use squirreldb.Base.HashMap
use squirreldb.Base.Results.{Result, ok, err}
use squirreldb.Cache.Json
use squirreldb.Storage.Externals.{Platform}
use squirreldb.Storage.Types.{StorageBucket, StorageObject}
use squirreldb.Storage.Actions.{
  Fault, error, panicked, ignored, >>=-eq-ok, lift, lift-eq-ok, refuse_if, refuse_if-eq-ok,
}
use squirreldb.Storage.Services.{StorageState, Nothing, Written}
use squirreldb.Storage.Responses.{header, unwrap_or, Response, bytes_body, Headers}
use squirreldb.Storage.Routes.Bucket.{find_bucket}
use squirreldb.Storage.Routes.Multipart.{record_object, delete_old}
use squirreldb.Storage.Routes.Object.{
  put_object, get_object, all_headers_valid, find_object, object_response, user_metadata,
  json_fields,
}

module _ {x : Platform} {W : Type 0} (state : StorageState x W) where
  -- The file is there with these bytes.
  abbrev pub Stored : Text → Bytes → W → Type 0
  Stored p c w = state.storage.read_object p w ≡ (ok c, w)

  -- The bucket is known.
  abbrev pub IsBucket : Text → W → Type 0
  IsBucket b w =
      (info : StorageBucket x) × (state.backend.get_storage_bucket b w ≡ (ok (some info), w))

  -- The latest version of the object is in this file, and no delete marker.
  abbrev pub IsLatest : Text → Text → Text → W → Type 0
  IsLatest b k p w =
      (o : StorageObject x) × (state.backend.get_storage_object b k none w ≡ (ok (some o), w))
      × (o.storage_path ≡ p)
      × (o.is_delete_marker ≡ false)

  -- Whatever the call comes to, what held before holds after it.
  abbrev pub Keeps : {R : Type 0} → (W → R × W) → (W → Type 0) → Type 0
  Keeps {R} call P = (w w' : W) (r : R) → call w ≡ (r, w') → P w → P w'

  -- What the handlers rely on: a file is read as it was written, and lasts until it is deleted; a
  -- recorded object is found as the latest, and its predecessor's file, if one is named, is another;
  -- buckets last.
  pub record IsFaithful : Type 0 where
    pub stored-write_object :
        (b k : Text) (v : x.Uuid) (c : Bytes) (written : Written) (w w' : W)
        → state.storage.write_object b k v c w ≡ (ok written, w')
        → Stored written.0 c w'
    pub stored-create :
        (b k : Text) (v : x.Uuid) (t : Text) (n : ℤ) (ct q : Text) (m : Json.Json (x.Number))
        (p : Text) (c : Bytes)
        → Keeps (state.backend.create_storage_object_with_stats b k v t n ct q m) (Stored p c)
    pub stored-replace :
        (b k : Text) (v : x.Uuid) (t : Text) (n : ℤ) (ct q : Text) (m : Json.Json (x.Number))
        (p : Text) (c : Bytes)
        → Keeps (state.backend.replace_storage_object b k v t n ct q m) (Stored p c)
    pub stored-delete_object :
        (q p : Text) (c : Bytes) → q ≢ p → Keeps (state.storage.delete_object q) (Stored p c)
    pub latest-create :
        (b k : Text) (v : x.Uuid) (t : Text) (n : ℤ) (ct p : Text) (m : Json.Json (x.Number))
        (w w' : W)
        → state.backend.create_storage_object_with_stats b k v t n ct p m w ≡ (ok tt, w')
        → IsLatest b k p w'
    pub latest-replace :
        (b k : Text) (v : x.Uuid) (t : Text) (n : ℤ) (ct p : Text) (m : Json.Json (x.Number))
        (old : Option Text) (w w' : W)
        → state.backend.replace_storage_object b k v t n ct p m w ≡ (ok old, w')
        → IsLatest b k p w' × (old ≢ some p)
    pub latest-delete_object :
        (b k p q : Text) → Keeps (state.storage.delete_object q) (IsLatest b k p)
    pub bucket-new_v4 : (b : Text) → Keeps state.new_v4 (IsBucket b)
    pub bucket-write_object :
        (b k : Text) (v : x.Uuid) (c : Bytes) (b' : Text)
        → Keeps (state.storage.write_object b k v c) (IsBucket b')
    pub bucket-create :
        (b k : Text) (v : x.Uuid) (t : Text) (n : ℤ) (ct q : Text) (m : Json.Json (x.Number))
        (b' : Text)
        → Keeps (state.backend.create_storage_object_with_stats b k v t n ct q m) (IsBucket b')
    pub bucket-replace :
        (b k : Text) (v : x.Uuid) (t : Text) (n : ℤ) (ct q : Text) (m : Json.Json (x.Number))
        (b' : Text)
        → Keeps (state.backend.replace_storage_object b k v t n ct q m) (IsBucket b')
    pub bucket-delete_object : (q b : Text) → Keeps (state.storage.delete_object q) (IsBucket b)

  -- All that a later request needs.
  abbrev Ready : Text → Text → Text → Bytes → W → Type 0
  Ready b k p c w = Stored p c w × IsLatest b k p w × IsBucket b w

  module _ (laws : IsFaithful) where
    ignored-world :
        {A : Type 0} (r : Result Fault A × W) {u : Nothing} {w' : W}
        → ignored r ≡ (ok u, w')
        → r ≡ (r.0, w')
    ignored-world (err (error e), w) h = cc
    ignored-world (err panicked, w) h = cc
    ignored-world (ok a, w) h = cc

    delete_old-Ready :
        (old : Option Text) (b k p : Text) (c : Bytes) (w w' : W)
        → old ≢ some p
        → delete_old state old w ≡ (ok tt, w')
        → Ready b k p c w
        → Ready b k p c w'
    delete_old-Ready none b k p c w w' n h ready = let same : w ≡ w' = cc in rw (← same) ready
    delete_old-Ready (some q) b k p c w w' n h (stored, latest, found) =
        let run = ignored-world (state.storage.delete_object q w) h in
        let r = (state.storage.delete_object q w).0 in
        (
          laws.stored-delete_object q p c (λ e. n (ap some e)) w w' r run stored,
          laws.latest-delete_object b k p q w w' r run latest,
          laws.bucket-delete_object q b w w' r run found,
        )

    record_object-Ready :
        (info : StorageBucket x) (b k : Text) (v : x.Uuid) (written : Written) (ct : Text)
        (m : Json.Json (x.Number)) (c : Bytes) (w w' : W)
        → record_object state info b k v written ct m w ≡ (ok tt, w')
        → Stored written.0 c w
        → IsBucket b w
        → Ready b k written.0 c w'
    record_object-Ready info b k v (p, (t, n)) ct m c w w' h stored found =
        elim (Bool-cases info.versioning_enabled) [
          | inl versioned ↦
              let create = state.backend.create_storage_object_with_stats b k v t n ct p m in
              let done = lift-eq-ok create (rw versioned at h) in
              (
                laws.stored-create b k v t n ct p m p c w w' (ok tt) done stored,
                laws.latest-create b k v t n ct p m w w' done,
                laws.bucket-create b k v t n ct p m b w w' (ok tt) done found,
              )
          | inr plain ↦
              let replace = state.backend.replace_storage_object b k v t n ct p m in
              let (old, u, e, h') = >>=-eq-ok (lift replace) (delete_old state) (rw plain at h) in
              let done = lift-eq-ok replace e in
              let (latest, other) = laws.latest-replace b k v t n ct p m old w u done in
              delete_old-Ready old b k p c u w' other h' (
                laws.stored-replace b k v t n ct p m p c w u (ok old) done stored,
                latest,
                laws.bucket-replace b k v t n ct p m b w u (ok old) done found,
              )
        ]

    find_bucket-found : (b : Text) (w : W) (f : IsBucket b w) → find_bucket state b w ≡ (ok f.0, w)
    find_bucket-found b w (info, found) = rw found refl

    put_object-Ready :
        (b k : Text) (headers : Headers) (body : Bytes) (r : Response) (w w' : W)
        → put_object state b k headers body w ≡ (ok r, w')
        → IsBucket b w
        → (p : Text) × Ready b k p body w'
    unfolding put_object
    put_object-Ready b k headers body r w w' h found =
        let (i, w1, e1, h1) = >>=-eq-ok (find_bucket state b) _ h in
        let begun : ◌≡◌ {A = Result Fault (StorageBucket x) × W} (ok found.0, w) (ok i, w1) =
          sym (find_bucket-found b w found) ∙ e1 in
        let same1 : w ≡ w1 = cc in
        let (u, w2, e2, h2) =
          >>=-eq-ok (refuse_if (ltb state.config.max_object_size (length body)) _) _ h1 in
        let same2 : w1 ≡ w2 =
          (refuse_if-eq-ok (ltb state.config.max_object_size (length body)) _ e2).1 in
        let (v, w3, e3, h3) = >>=-eq-ok state.new_v4 _ h2 in
        let (written, w4, e4, h4) = >>=-eq-ok (state.storage.write_object b k v body) _ h3 in
        let (u', w5, e5, h5) =
          >>=-eq-ok
            (record_object state i b k v written
              (unwrap_or (lit "application/octet-stream") (header headers (lit "content-type")))
              (Json.object (json_fields state (user_metadata state headers []))))
            _ h4 in
        let known =
          laws.bucket-new_v4 b w2 w3 (ok v) e3 (subst (IsBucket b) (same1 ∙ same2) found) in
        let stored = laws.stored-write_object b k v body written w3 w4 e4 in
        let kept = laws.bucket-write_object b k v body b w3 w4 (ok written) e4 known in
        let last : w5 ≡ w' = cc in
        (
          written.0,
          subst (Ready b k written.0 body) last
              (record_object-Ready i b k v written _ _ body w4 w5 e5 stored kept),
        )

    headers-valid :
        ((t : Text) → x.is_header_name t ≡ true)
        → ((t : Text) → x.is_header_value t ≡ true)
        → (hs : List (Text × Text)) → all_headers_valid state hs ≡ true
    headers-valid names values [] = refl
    headers-valid names values ((n, v) ∷ hs) =
        rw (names n, values v) (headers-valid names values hs)

    find_object-latest :
        (b k : Text) (w : W) (o : StorageObject x)
        → IsBucket b w
        → state.backend.get_storage_object b k none w ≡ (ok (some o), w)
        → o.is_delete_marker ≡ false
        → find_object state b k [] w ≡ (ok o, w)
    unfolding HashMap.get
    find_object-latest b k w o bucket found live =
        rw (find_bucket-found b w bucket) (rw found (rw live refl))

    get_object-Ready :
        ((t : Text) → x.is_header_name t ≡ true)
        → ((t : Text) → x.is_header_value t ≡ true)
        → (b k p : Text) (body : Bytes) (w : W) → Ready b k p body w
        → (r : Response) × (get_object state b k [] [] w ≡ (ok r, w))
          × (r.status ≡ 200)
          × (r.body ≡ bytes_body body)
    unfolding get_object HashMap.get
    get_object-Ready names values b k p body w (stored, (o, found, is, live), bucket) =
        let at : find_object state b k [] w ≡ (ok o, w) =
          find_object-latest b k w o bucket found live in
        let back : state.storage.read_object o.storage_path w ≡ (ok body, w) = rw (is) stored in
        (
          object_response state o false body,
          rw (at) (rw (back) (rw (headers-valid names values) refl)),
          refl,
          refl,
        )

    -- An object that was put into a bucket that is there is got back, if nothing comes between, with
    -- the bytes that it was put with, in a bucket with versions as in one without. The data base and
    -- the files keep what they are given, and every name and value of a header is valid.
    pub get_object-put_object :
        ((t : Text) → x.is_header_name t ≡ true)
        → ((t : Text) → x.is_header_value t ≡ true)
        → (b k : Text) (headers : Headers) (body : Bytes) (r : Response) (w w' : W)
        → put_object state b k headers body w ≡ (ok r, w')
        → IsBucket b w
        → (got : Response) × (get_object state b k [] [] w' ≡ (ok got, w'))
          × (got.status ≡ 200)
          × (got.body ≡ bytes_body body)
    get_object-put_object names values b k headers body r w w' h found =
        let (p, ready) = put_object-Ready b k headers body r w w' h found in
        get_object-Ready names values b k p body w' ready
