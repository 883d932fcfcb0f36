-- ===== src/Storage/Filesystem/Ranged.antt =====
-- The bytes of a range.
use squirreldb.Base.{
  ℕ, ◌+◌, ◌-◌, ◌≤◌, ◌<◌, ◌%◌, min, ◌≡◌, arith, i64_mod, i64_half, Bytes, length, take, drop, Option,
  none, some, [],
}
use squirreldb.Storage.Filesystem.Ranges.{slice, overflow, sub_u64, last_byte, read_range}

-- The last byte that a range asks for, of those that a file of `n` bytes has.
abbrev pub last_of : ℕ → Option ℕ → ℕ
last_of n none = n - 1
last_of n (some end) = min end (n - 1)

last_byte-last_of :
    (n : ℕ) (end : Option ℕ) → 0 < n → n < i64_half → last_byte n end ≡ last_of n end
last_byte-last_of n none h k = omega arith
last_byte-last_of n (some end) h k = omega arith

last_of-lt : (n : ℕ) (end : Option ℕ) → 0 < n → last_of n end < n
last_of-lt n none h = omega arith
last_of-lt n (some end) h = omega arith

abbrev span_of : ℕ → ℕ → ℕ
span_of last start = (sub_u64 last start + 1) % i64_mod

span_forward :
    (last start : ℕ) → start ≤ last → last < i64_half → span_of last start ≡ last - start + 1
span_forward last start h k = omega arith

span_backward :
    (last start : ℕ)
    → last < start
    → start < i64_half
    → span_of last start ≡ (i64_mod - (start - last - 1)) % i64_mod
span_backward last start h k = omega arith

-- Of a file of 1 to 2 ^ 63 - 1 bytes, a range whose start is below 2 ^ 63 has its last byte at its
-- end or at the file's, whichever comes first. Where it starts no later than there, the bytes from
-- its start to its last are read; where it starts right behind, none; further behind, it panics.
pub read_range_lem :
    (content : Bytes) (start : ℕ) (end : Option ℕ)
    → 0 < length content
    → length content < i64_half
    → start < i64_half
    → (start ≤ last_of (length content) end
        → read_range content start end
          ≡ slice (take (last_of (length content) end - start + 1) (drop start content)))
      × (start ≡ last_of (length content) end + 1 → read_range content start end ≡ slice [])
      × (last_of (length content) end + 1 < start → read_range content start end ≡ overflow)
unfolding read_range
read_range_lem content start end h k l =
    let inside = last_of-lt (length content) end h in
    let same = last_byte-last_of (length content) end h k in
    let forward = span_forward (last_of (length content) end) start in
    let backward = span_backward (last_of (length content) end) start in
    (
      (λ p. rw (same, forward p (omega arith)) (ground arith)),
      (λ p. rw (same, backward (omega arith) l) (ground arith)),
      (λ p. rw (same, backward (omega arith) l) (ground arith)),
    )
