-- ===== src/Cache/Config/Tests.antt =====
-- Tests of the sizes and policies, and examples of their theorems.
use squirreldb.Base.{◌≡◌, refl, Text, lit, text_eq, parse_u64, some}
use squirreldb.Base.Strings.{trim}
use squirreldb.Cache.Config.{parse_memory_size}

abbrev unchanged : Text → Text
unchanged t = t

-- The product leaves 64 bits.
too_large : parse_memory_size unchanged (lit "17179869184gb") ≡ some 0
unfolding parse_memory_size text_eq parse_u64 trim
too_large = refl

with_space : parse_memory_size unchanged (lit " 256 mb ") ≡ some 268435456
unfolding parse_memory_size text_eq parse_u64 trim
with_space = refl
