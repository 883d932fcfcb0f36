-- ===== src/Storage/Filesystem/Ranges.antt =====
-- crates/sqrld/src/storage/filesystem.rs: which bytes of a file `read_object_range` reads. The
-- subtractions on `u64` wrap around, as the release profile compiles them.
use squirreldb.Base.{
  ℕ, ◌+◌, ◌-◌, ◌%◌, min, leb, ◌==◌, i64_mod, i64_half, Bytes, length, take, drop, Option, none,
  some, [], if◌then◌else◌,
}

-- `overflow` is the panic of `vec!` on a capacity above `isize::MAX`.
pub data RangeRead : Type 0 where
  slice : Bytes → RangeRead
  eof overflow : RangeRead

-- `a - b` on `u64`.
abbrev pub sub_u64 : ℕ → ℕ → ℕ
sub_u64 a b = (a + (i64_mod - b)) % i64_mod

abbrev pub last_byte : ℕ → Option ℕ → ℕ
last_byte file_size none = sub_u64 file_size 1
last_byte file_size (some end) = min end (sub_u64 file_size 1)

-- `seek`, and `read_exact` into a buffer of this length.
abbrev pub read_exact : Bytes → ℕ → ℕ → RangeRead
read_exact content start n =
    if leb i64_half n
    then overflow
    else if n == 0
    then slice []
    else if leb (start + n) (length content)
    then slice (take n (drop start content))
    else eof

unfoldable pub read_range : Bytes → ℕ → Option ℕ → RangeRead
read_range content start end =
    read_exact content start ((sub_u64 (last_byte (length content) end) start + 1) % i64_mod)
