-- ===== src/Security/Traversal.antt =====
-- A key that passes the check names nothing above or beside the place it is put below.
use squirreldb.Base.{
  ℕ, Text, lit, len, ◌==◌, ◌≤◌, true, false, List, [], ◌∷◌, ◌≡◌, ◌≢◌, refl, ap, arith, All,
  Bool-cases, inl, inr, Option-cases, if◌then◌else◌,
}
use squirreldb.Base.Results.{ok}
use squirreldb.Base.Strings.{starts_with, split_at, split_on, push_front, strip_prefix}
use squirreldb.Sql.Sanitize.{has_part}
use squirreldb.Security.Keys.{contains_char, validate_object_key}

abbrev dots : Text
dots = b'.' ∷ b'.' ∷ []

-- Past the first character, no pair of dots is found either.
has_part-cons : (c : ℕ) (cs : Text) → has_part dots (c ∷ cs) ≡ false → has_part dots cs ≡ false
unfolding split_at
has_part-cons c cs h = elim (Option-cases (split_at dots cs)) [
  | inl missing ↦ rw (missing, has_part) refl
  | inr (r, found) ↦ elim (Option-cases (strip_prefix dots (c ∷ cs))) [
    | inl absent ↦ absurd (let g = rw (absent, found, has_part) at h in ground arith)
    | inr (u, present) ↦ absurd (let g = rw (present, has_part) at h in ground arith)
  ]
]

starts_dots :
    (c : ℕ) (cs : Text) → c ≡ b'.' → (d : Text) → cs ≡ b'.' ∷ d → has_part dots (c ∷ cs) ≡ true
unfolding split_at strip_prefix
starts_dots c cs e d k = rw (e, k) refl

pushed : (c : ℕ) (rest ws : List Text) → push_front c rest ≡ (b'.' ∷ []) ∷ ws → c ≡ b'.'
pushed c [] ws h = cc
pushed c (w ∷ rest) ws h = cc

first_char :
    (c : ℕ) (rest ws : List Text) (cs : Text)
    → (if c == b'/' then [] ∷ rest else push_front c rest) ≡ (b'.' ∷ []) ∷ ws
    → (d : Text) × (c ∷ cs ≡ b'.' ∷ d)
first_char c rest ws cs h = elim (Bool-cases (c == b'/')) [
  | inl slash ↦ absurd (let g = rw slash at h in ground arith)
  | inr other ↦
      let g : push_front c rest ≡ (b'.' ∷ []) ∷ ws = rw other at h in
      (cs, ap (λ x. x ∷ cs) (pushed c rest ws g))
]

-- The part in front of the first slash is a dot only where the text begins with one.
first_part :
    (cs : Text) (ws : List Text)
    → split_on b'/' cs ≡ (b'.' ∷ []) ∷ ws
    → (d : Text) × (cs ≡ b'.' ∷ d)
unfolding split_on
first_part [] ws h = absurd (ground arith)
first_part (c ∷ cs) ws h = first_char c (split_on b'/' cs) ws cs h

pushed-ne-dots :
    (c : ℕ) (cs : Text) (rest : List Text)
    → split_on b'/' cs ≡ rest
    → has_part dots (c ∷ cs) ≡ false
    → All (λ p. p ≢ dots) rest
    → All (λ p. p ≢ dots) (push_front c rest)
pushed-ne-dots c cs [] e h behind = ((λ k. absurd (ground arith)), tt)
pushed-ne-dots c cs (w ∷ rest) e h (first, behind) = (
  (λ k.
      let dot : c ≡ b'.' = cc in
      let single : w ≡ b'.' ∷ [] = cc in
      let (d, starts) = first_part cs rest (rw (← single) e) in
      absurd (let g = starts_dots c cs dot d starts in ground arith)),
  behind,
)

-- No part between slashes is a pair of dots.
parts-ne-dots : (t : Text) → has_part dots t ≡ false → All (λ p. p ≢ dots) (split_on b'/' t)
unfolding split_on
parts-ne-dots [] h = ((λ e. absurd (ground arith)), tt)
parts-ne-dots (c ∷ cs) h =
    let behind = parts-ne-dots cs (has_part-cons c cs h) in
    elim (Bool-cases (c == b'/')) [
      | inl slash ↦ rw slash ((λ e. absurd (ground arith)), behind)
      | inr other ↦ rw other (pushed-ne-dots c cs (split_on b'/' cs) refl h behind)
    ]

-- What the storage relies on: the key is relative and of at most 1,024 bytes, no part between
-- slashes leads up, and there is no backslash and no null byte.
pub record IsSafeKey (key : Text) : Type 0 where
  pub relative : starts_with key (lit "/") ≡ false
  pub bounded : len key ≤ 1024
  pub stays : All (λ p. p ≢ dots) (split_on b'/' key)
  pub no_backslash : contains_char b'\\' key ≡ false
  pub no_null : contains_char 0 key ≡ false

-- A key that the check passes is relative, holds at most 1,024 bytes, no backslash and no null byte,
-- and none of its parts between slashes is a pair of dots.
pub validate_object_key-IsSafeKey : (key : Text) → validate_object_key key ≡ ok tt → IsSafeKey key
unfolding validate_object_key
validate_object_key-IsSafeKey key h = record {
  relative = ground arith;
  bounded = ground arith;
  stays = parts-ne-dots key (ground arith);
  no_backslash = ground arith;
  no_null = ground arith;
}
