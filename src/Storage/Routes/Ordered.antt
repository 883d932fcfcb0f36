-- ===== src/Storage/Routes/Ordered.antt =====
-- What completing an upload has verified.
use mathlib.Core.Path.{subst}
use squirreldb.Base.{
  ℤ, pos, Text, lit, text_eq, text_eq_iff, Bytes, from_utf8_lossy, List, [], ◌∷◌, is_empty, ◌≡◌,
  refl, sym, Option, some, false, not, Bool-cases, inl, inr, arith,
}
use squirreldb.Base.Results
use squirreldb.Base.Results.{Result, ok, err}
use squirreldb.Storage.Externals.{Platform}
use squirreldb.Storage.Error.{StorageError, invalid_argument, no_such_upload}
use squirreldb.Storage.Types.{CompletedPart, MultipartPart, MultipartUpload}
use squirreldb.Storage.Actions.{
  Fault, lift, required, refuse_if, >>=-eq-ok, lift-eq-ok, required-eq-ok, refuse_if-eq-ok,
}
use squirreldb.Storage.Services.{StorageState, Written}
use squirreldb.Storage.Responses.{Response, Params, uuid_param}
use squirreldb.Storage.Routes.Bucket.{checked}
use squirreldb.Storage.Routes.Parts.{
  le_int, verify_order, completed_parts, refuse_empty, parse_complete_multipart_request,
  trim_matches,
}
use squirreldb.Storage.Routes.Multipart.{
  upload_id_of, find_upload, part_missing, etag_differs, part_paths, complete_multipart_upload,
}

-- Each number is above the one before it, and the first above `prev`.
abbrev pub IsAscending : ℤ → List CompletedPart → Type 0
IsAscending prev [] = Unit
IsAscending prev (cp ∷ cps) = (le_int cp.part_number prev ≡ false) × IsAscending cp.part_number cps

verify_order-IsAscending :
    (prev : ℤ) (cps : List CompletedPart) → verify_order prev cps ≡ ok tt → IsAscending prev cps
unfolding verify_order
verify_order-IsAscending prev [] h = tt
verify_order-IsAscending prev (cp ∷ cps) h = elim (Bool-cases (le_int cp.part_number prev)) [
  | inl below ↦ absurd (let g = rw below at h in cc)
  | inr above ↦ (above, verify_order-IsAscending cp.part_number cps (rw above at h))
]

checked-eq-ok :
    {W A : Type 0} (r : Result StorageError A) {a : A} (w : W) {w' : W}
    → checked r w ≡ (ok a, w')
    → (r ≡ ok a) × (w ≡ w')
checked-eq-ok (err e) w h = cc
checked-eq-ok (ok b) w h = (cc, cc)

pure-eq-ok :
    {A W : Type 0} (a b : A) {w w' : W}
    → ◌≡◌ {A = Result Fault A × W} (ok a, w) (ok b, w')
    → (a ≡ b) × (w ≡ w')
pure-eq-ok a b h = (cc, cc)

-- Of a request that names parts, at least one is named.
named_some :
    (captures : Text → List (Text × Text)) (doc : Text) (parts : List CompletedPart)
    → parse_complete_multipart_request captures doc ≡ ok parts
    → is_empty parts ≡ false
unfolding parse_complete_multipart_request
named_some captures doc parts h = refused_empty (completed_parts (captures doc)) parts h
  where
    refused_empty :
        (r : Result StorageError (List CompletedPart)) (ps : List CompletedPart)
        → Results.◌>>=◌ r refuse_empty ≡ ok ps
        → is_empty ps ≡ false
    refused_empty (err e) ps h = cc
    refused_empty (ok []) ps h = cc
    refused_empty (ok (q ∷ qs)) ps h =
        let same : q ∷ qs ≡ ps = cc in subst (λ l. is_empty l ≡ false) same refl

module _ {x : Platform} {W : Type 0} (state : StorageState x W) where
  -- The paths are, one for one and in their order, those that the data base answers with when it is
  -- asked for the named parts of the upload in turn, which takes the world from `w` to `w'`, and each
  -- tag on record is the one named, without quotation marks around it.
  abbrev pub AreOnRecord : x.Uuid → List CompletedPart → List Text → W → W → Type 0
  AreOnRecord id [] [] w w' = w ≡ w'
  AreOnRecord id (cp ∷ cps) (path ∷ paths) w w' =
      (part : MultipartPart x) × (v : W) × (state.backend.get_multipart_part id cp.part_number w
        ≡ (ok (some part), v))
      × (part.etag ≡ trim_matches b'"' cp.etag)
      × (part.storage_path ≡ path)
      × AreOnRecord id cps paths v w'
  AreOnRecord id cps paths w w' = ⊥

  -- A call that must find something has found it.
  found_by :
      {A : Type 0} (call : W → Result Text (Option A) × W) (e : StorageError) (o : Option A) (a : A)
      {w u v : W}
      → lift call w ≡ (ok o, u)
      → required e o u ≡ (ok a, v)
      → call w ≡ (ok (some a), v)
  found_by call e o a {w} {u} {v} h k =
      let (is, same) = required-eq-ok e o k in
      subst (λ t. call w ≡ (ok (some a), t)) same
        (subst (λ p. call w ≡ (ok p, u)) is (lift-eq-ok call h))

  part_paths-AreOnRecord :
      (id : x.Uuid) (cps : List CompletedPart) (paths : List Text) (w w' : W)
      → part_paths state id cps w ≡ (ok paths, w')
      → AreOnRecord id cps paths w w'
  unfolding part_paths
  part_paths-AreOnRecord id [] [] w w' h = (pure-eq-ok {A = List Text} [] [] h).1
  part_paths-AreOnRecord id [] (path ∷ paths) w w' h = cc
  part_paths-AreOnRecord id (cp ∷ cps) paths w w' h =
      let call = state.backend.get_multipart_part id cp.part_number in
      let (found, w1, e1, h1) = >>=-eq-ok (lift call) _ h in
      let (part, w2, e2, h2) =
        >>=-eq-ok (required (part_missing state cp.part_number) found) _ h1 in
      let guard = not (text_eq part.etag (trim_matches b'"' cp.etag)) in
      let (u, w3, e3, h3) = >>=-eq-ok (refuse_if guard (etag_differs state cp.part_number)) _ h2 in
      let (rest, w4, e4, h4) = >>=-eq-ok (part_paths state id cps) _ h3 in
      let (passed, stays) = refuse_if-eq-ok guard (etag_differs state cp.part_number) e3 in
      let tag : part.etag ≡ trim_matches b'"' cp.etag =
        ground (arith, passed, text_eq_iff part.etag (trim_matches b'"' cp.etag)) in
      let got = found_by call (part_missing state cp.part_number) found part e1 e2 in
      let (same, ends) = pure-eq-ok (part.storage_path ∷ rest) paths h4 in
      let others : AreOnRecord id cps rest w2 w' =
        subst (λ u. AreOnRecord id cps rest u w') (sym stays)
          (subst (λ u. AreOnRecord id cps rest w3 u) ends
            (part_paths-AreOnRecord id cps rest w3 w4 e4)) in
      subst (λ ps. AreOnRecord id (cp ∷ cps) ps w w') same (part, w2, got, tag, refl, others)

  -- When an upload is completed, the data base has found it, its request names at least one part, the
  -- numbers of these are positive and ascend, the data base has found exactly these parts of the
  -- upload, in this order and each with the tag that the request names, and the object was then
  -- assembled, under a new version, from their files in this order.
  pub complete_multipart_upload-IsAscending :
      (captures : Text → List (Text × Text)) (bucket key : Text) (params : Params) (body : Bytes)
      (r : Response) (w w' : W)
      → complete_multipart_upload state captures bucket key params body w ≡ (ok r, w')
      → (id : x.Uuid) × (upload : MultipartUpload x) × (parts : List CompletedPart) × (paths : List
          Text)
        × (version_id : x.Uuid) × (written : Written) × (w1 : W) × (w2 : W) × (w3 : W) × (w4 : W)
        × (uuid_param x params (lit "uploadId") ≡ some id)
        × (state.backend.get_multipart_upload id w ≡ (ok (some upload), w1))
        × (parse_complete_multipart_request captures (from_utf8_lossy body) ≡ ok parts)
        × (is_empty parts ≡ false)
        × IsAscending (pos 0) parts
        × AreOnRecord id parts paths w1 w2
        × (state.new_v4 w2 ≡ (ok version_id, w3))
        × (state.storage.assemble_parts bucket key version_id paths w3 ≡ (ok written, w4))
  unfolding complete_multipart_upload
  complete_multipart_upload-IsAscending captures bucket key params body r w w' h =
      let (id, v1, e1, h1) = >>=-eq-ok (upload_id_of state params) _ h in
      let (upload, v2, e2, h2) = >>=-eq-ok (find_upload state id) _ h1 in
      let (found, v0, f1, g1) = >>=-eq-ok (lift (state.backend.get_multipart_upload id)) _ e2 in
      let request = parse_complete_multipart_request captures (from_utf8_lossy body) in
      let (parts, v3, e3, h3) = >>=-eq-ok (checked request) _ h2 in
      let (paths, v4, e4, h4) = >>=-eq-ok (part_paths state id parts) _ h3 in
      let (u, v5, e5, h5) = >>=-eq-ok (checked (verify_order (pos 0) parts)) _ h4 in
      let (version_id, v6, e6, h6) = >>=-eq-ok state.new_v4 _ h5 in
      let (written, v7, e7, h7) =
        >>=-eq-ok (state.storage.assemble_parts bucket key version_id paths) _ h6 in
      let (given, same1) =
        required-eq-ok (invalid_argument (lit "Missing or invalid uploadId"))
          (uuid_param x params (lit "uploadId")) e1 in
      let (asked, same3) = checked-eq-ok request v2 e3 in
      let (ordered, same5) = checked-eq-ok (verify_order (pos 0) parts) v4 e5 in
      let known : state.backend.get_multipart_upload id w ≡ (ok (some upload), v2) =
        subst (λ t. state.backend.get_multipart_upload id t ≡ (ok (some upload), v2)) (sym same1)
          (found_by (state.backend.get_multipart_upload id) (no_such_upload (x.uuid_to_string id))
            found upload f1 g1) in
      (
        id,
        upload,
        parts,
        paths,
        version_id,
        written,
        v2,
        v4,
        v6,
        v7,
        given,
        known,
        asked,
        named_some captures (from_utf8_lossy body) parts asked,
        verify_order-IsAscending (pos 0) parts ordered,
        subst (λ t. AreOnRecord id parts paths t v4) (sym same3)
            (part_paths-AreOnRecord id parts paths v3 v4 e4),
        subst (λ t. state.new_v4 t ≡ (ok version_id, v6)) (sym same5) e6,
        e7,
      )
