-- ===== src/Cache/Config/Policies.antt =====
-- Policies and their names.
use squirreldb.Base.{Text, text_eq, ◌≡◌, refl}
use squirreldb.Base.Results.{ok}
use squirreldb.Cache.Store.{EvictionPolicy, lru, lfu, random, no_eviction}
use squirreldb.Cache.Config.{policy_of, show_policy}
use squirreldb.Cache.Config.Sizes.{IsLower}

-- Every policy is read back from its name, if to_lowercase leaves small letters as they are.
pub policy_of-show_policy :
    (to_lowercase : Text → Text)
    → ((t : Text) → IsLower t → to_lowercase t ≡ t)
    → (p : EvictionPolicy) → policy_of to_lowercase (show_policy p) ≡ ok p
unfolding policy_of show_policy text_eq
policy_of-show_policy to_lowercase same lru =
    rw (same (show_policy lru) (refl, (refl, (refl, tt)))) refl
policy_of-show_policy to_lowercase same lfu =
    rw (same (show_policy lfu) (refl, (refl, (refl, tt)))) refl
policy_of-show_policy to_lowercase same random =
    rw (same (show_policy random) (refl, (refl, (refl, (refl, (refl, (refl, tt))))))) refl
policy_of-show_policy to_lowercase same no_eviction =
    rw
      (same (show_policy no_eviction)
        (refl, (refl, (refl, (refl, (refl, (refl, (refl, (refl, (refl, (refl, tt)))))))))))
      refl
