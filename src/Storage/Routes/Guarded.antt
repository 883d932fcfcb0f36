-- ===== src/Storage/Routes/Guarded.antt =====
-- What no handler of objects does: go on with a key that the check refuses.
use squirreldb.Base.{ℕ, Text, lit, Bytes, List, ◌≡◌, refl, ◌++◌}
use squirreldb.Base.Results.{err}
use squirreldb.Security.Keys.{ObjectKeyError, validate_object_key, show_key_error}
use squirreldb.Storage.Externals.{Platform}
use squirreldb.Storage.Codes
use squirreldb.Storage.Error.{StorageError, new_error}
use squirreldb.Storage.Actions.{Action, error}
use squirreldb.Storage.Services.{StorageState}
use squirreldb.Storage.Responses.{Params, Headers}
use squirreldb.Storage.Routes.Object.{
  check_key, put_object_or_operation, get_object_or_operation, head_object,
}
use squirreldb.Storage.Routes.Deleting.{delete_object_or_operation, post_object_operation}

-- The error that answers a refused key.
abbrev pub refusal : (ℕ → Text) → ObjectKeyError → StorageError
refusal quote e =
    new_error Codes.invalid_argument (lit "Invalid object key: " ++ show_key_error quote e)

-- The call comes to this error and leaves the world as it was.
abbrev pub Refuses : {W A : Type 0} → StorageError → Action W A → Type 0
Refuses {W} e call = (w : W) → call w ≡ (err (error e), w)

module _ {x : Platform} {W : Type 0} (state : StorageState x W) where
  check_key-Refuses :
      (quote : ℕ → Text) (key : Text) (e : ObjectKeyError)
      → validate_object_key key ≡ err e
      → Refuses (refusal quote e) (check_key state quote key)
  unfolding check_key
  check_key-Refuses quote key e h w = rw h refl

  -- A key that the check refuses is answered with an invalid argument by each of the five handlers of
  -- objects, before any call of the database or of the files.
  pub handlers-Refuses :
      (quote : ℕ → Text) (captures : Text → List (Text × Text)) (bucket key : Text)
      (params : Params) (headers : Headers) (body : Bytes) (e : ObjectKeyError)
      → validate_object_key key ≡ err e
      → Refuses
          (refusal quote e)
          (put_object_or_operation state quote bucket key params headers body)
        × Refuses (refusal quote e) (get_object_or_operation state quote bucket key params headers)
        × Refuses (refusal quote e) (head_object state quote bucket key params)
        × Refuses (refusal quote e) (delete_object_or_operation state quote bucket key params)
        × Refuses
            (refusal quote e)
            (post_object_operation state quote captures bucket key params body)
  unfolding put_object_or_operation get_object_or_operation head_object delete_object_or_operation
      post_object_operation
  handlers-Refuses quote captures bucket key params headers body e h =
      let refused = check_key-Refuses quote key e h in
      (
        (λ w. rw (refused w) refl),
        (λ w. rw (refused w) refl),
        (λ w. rw (refused w) refl),
        (λ w. rw (refused w) refl),
        (λ w. rw (refused w) refl),
      )
