-- ===== src/Security/Tests.antt =====
-- Tests of the security helpers, and their theorems at concrete texts.
use squirreldb.Base.{lit, len, ◌≡◌, refl, true, ◌↔◌}
use squirreldb.Base.Results.{err}
use squirreldb.Security.Keys.{validate_object_key, absolute_path, path_traversal}
use squirreldb.Security.Compare.{constant_time_compare}
use squirreldb.Security.Equal.{constant_time_compare_iff}
use squirreldb.Security.Traversal.{IsSafeKey, validate_object_key-IsSafeKey}

climbing : validate_object_key (lit "a/../b") ≡ err path_traversal
unfolding validate_object_key
climbing = refl

rooted : validate_object_key (lit "/etc/passwd") ≡ err absolute_path
unfolding validate_object_key
rooted = refl

validate_object_key-IsSafeKey_example : IsSafeKey (lit "photos/2024/a.png")
unfolding validate_object_key len
validate_object_key-IsSafeKey_example = validate_object_key-IsSafeKey (lit "photos/2024/a.png") refl

constant_time_compare_iff_example :
    (constant_time_compare (lit "tok") (lit "tok") ≡ true) ↔ (lit "tok" ≡ lit "tok")
constant_time_compare_iff_example =
    constant_time_compare_iff (lit "tok") (lit "tok") (refl, (refl, (refl, tt)))
      (refl, (refl, (refl, tt)))
