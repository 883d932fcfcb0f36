-- ===== src/Cache/Resp/Fuel.antt =====
-- The parser never runs out of fuel, and never reads behind the bytes that it has.
use mathlib.Core.Path.{subst}
use native.Mathlib.Nat.{le_refl}
use squirreldb.Base.{
  if_intro, from_utf8_lossy, ℕ, zero, suc, ◌+◌, ◌-◌, ◌*◌, ◌≤◌, ◌<◌, ◌≡◌, ◌≢◌, inl, inr, arith, Text,
  ℤ, pos, negsuc, i64_half, ◌&&◌, some, List, [], ◌∷◌, ltb, ◌==◌, Bytes, length, take, drop,
  Option-cases, Bool-cases,
}
use squirreldb.Cache.Resp.{
  RespValue, simple_string, error, Parsed, and_then, done, incomplete, invalid, panicked,
  out_of_fuel, parse_text, parse_number, parse_integer, parse_bulk_string, bulk_body, close_bulk,
  parse_items, parse_inline_command, inline_command, split_words, read_line,
}
use squirreldb.Cache.Resp.Parser.{parse_value, dispatch, parse_array, array_body}

-- The rest is no longer than this, and there was fuel.
abbrev pub Within {ℓ} : {A : Type ℓ} → ℕ → Parsed A → Type 0
Within n (done v rest) = length rest ≤ n
Within n (invalid msg rest) = length rest ≤ n
Within n incomplete = Unit
Within n panicked = Unit
Within n out_of_fuel = ⊥

read_line-length : (bs l rest : Bytes) → read_line bs ≡ some (l, rest) → length rest + 2 ≤ length bs
unfolding read_line
read_line-length [] l rest h = cc
read_line-length (b ∷ []) l rest h = cc
read_line-length (b ∷ d ∷ bs) l rest h = elim (Bool-cases (b == 13 && d == 10)) [
  | inl eol ↦ ground arith
  | inr more ↦ elim (Option-cases (read_line (d ∷ bs))) [
    | inl n ↦ ground arith
    | inr ((l', rest'), e) ↦ ground (arith, read_line-length (d ∷ bs) l' rest' e)
  ]
]

module _ (bs : Bytes) where
  parse_text-Within : (make : Text → RespValue) → Within (length bs) (parse_text make bs)
  unfolding parse_text
  parse_text-Within make = elim (Option-cases (read_line bs)) [
    | inl n ↦ rw (n, parse_text) tt
    | inr ((l, rest), e) ↦ rw (e, parse_text) (omega (arith, read_line-length bs l rest e))
  ]

  parse_number-Within : (msg : Text) → Within (length bs) (parse_number msg bs)
  unfolding parse_number
  parse_number-Within msg = elim (Option-cases (read_line bs)) [
    | inl n ↦ rw (n, parse_number) tt
    | inr ((l, rest), e) ↦ ground (arith, e, read_line-length bs l rest e)
  ]

length-drop : (n : ℕ) (bs : Bytes) → length (drop n bs) ≤ length bs
length-drop zero bs = omega arith
length-drop (suc n) [] = omega arith
length-drop (suc n) (b ∷ bs) = omega (arith, length-drop n bs)

close_bulk-Within : (s : Text) (bs : Bytes) → Within (length bs) (close_bulk s bs)
unfolding close_bulk
close_bulk-Within s [] = tt
close_bulk-Within s (a ∷ []) = tt
close_bulk-Within s (a ∷ b ∷ rest) = ground arith

Within-mono {ℓ} : {A : Type ℓ} (p : Parsed A) (m n : ℕ) → m ≤ n → Within m p → Within n p
Within-mono (done v rest) m n h w = omega arith
Within-mono (invalid msg rest) m n h w = omega arith
Within-mono incomplete m n h w = tt
Within-mono panicked m n h w = tt
Within-mono out_of_fuel m n h w = w

bulk_body-Within : (z : ℤ) (bs : Bytes) → Within (length bs) (bulk_body z bs)
unfolding bulk_body
bulk_body-Within (negsuc n) bs = omega arith
bulk_body-Within (pos n) bs = elim (Bool-cases (ltb (length bs) (n + 2))) [
  | inl short ↦ rw (short, bulk_body) tt
  | inr enough ↦
      rw (enough, bulk_body)
        (let s = from_utf8_lossy (take n bs) in
          Within-mono (close_bulk s (drop n bs)) (length (drop n bs)) (length bs) (length-drop n bs)
            (close_bulk-Within s (drop n bs)))
]

-- `?` keeps within the bytes if what follows it does.
and_then-Within {ℓ κ} :
    {A : Type ℓ} {B : Type κ} (p : Parsed A) (f : A → Bytes → Parsed B) (n : ℕ)
    → Within n p
    → ((a : A) (rest : Bytes) → length rest ≤ n → Within (length rest) (f a rest))
    → Within n (and_then p f)
and_then-Within (done a rest) f n w k = Within-mono (f a rest) (length rest) n w (k a rest w)
and_then-Within (invalid msg rest) f n w k = w
and_then-Within incomplete f n w k = tt
and_then-Within panicked f n w k = tt
and_then-Within out_of_fuel f n w k = w

inline-Within : (b : ℕ) (bs : Bytes) → Within (length bs) (parse_inline_command (b ∷ bs))
unfolding parse_inline_command
inline-Within b bs = elim (Option-cases (read_line (b ∷ bs))) [
  | inl n ↦ rw (n, parse_inline_command) tt
  | inr ((l, rest), e) ↦
      rw (e, parse_inline_command)
        (command (split_words [] (from_utf8_lossy l)) rest
          (omega (arith, read_line-length (b ∷ bs) l rest e)))
]
  where
    command :
        (ws : List Text) (rest : Bytes)
        → length rest ≤ length bs
        → Within (length bs) (inline_command ws rest)
    command [] rest h = h
    command (w ∷ ws) rest h = h

module _ (size : ℕ) (fuel : ℕ) (parse : Bytes → Parsed RespValue)
    (ih : (bs : Bytes) → length bs < fuel → Within (length bs) (parse bs)) where
  parse_items-Within :
      (n : ℕ) (bs : Bytes) → length bs < fuel → Within (length bs) (parse_items parse n bs)
  unfolding parse_items
  parse_items-Within zero bs room = omega arith
  parse_items-Within (suc n) bs room =
      and_then-Within (parse bs) _ (length bs) (ih bs room) (λ v rest le.
        and_then-Within (parse_items parse n rest) _ (length rest)
          (parse_items-Within n rest (omega arith)) (λ vs rest' le'. le_refl (length rest')))

  array_body-Within :
      (z : ℤ) (bs : Bytes) → length bs < fuel → Within (length bs) (array_body size parse z bs)
  unfolding array_body
  array_body-Within (negsuc n) bs room = omega arith
  array_body-Within (pos n) bs room = elim (Bool-cases (ltb (n * size) i64_half)) [
    | inr big ↦ rw (big, array_body) tt
    | inl fits ↦
        rw (fits, array_body)
          (and_then-Within (parse_items parse n bs) _ (length bs) (parse_items-Within n bs room)
            (λ vs rest le. le_refl (length rest)))
  ]

  dispatch-Within :
      (b : ℕ) (bs : Bytes) → length bs < fuel → Within (length bs) (dispatch size parse b bs)
  unfolding dispatch parse_integer parse_bulk_string parse_array
  dispatch-Within b bs room =
      let n = length bs in
      if_intro (Within n) (b == b'+') (parse_text-Within bs simple_string) (
        if_intro (Within n) (b == b'-') (parse_text-Within bs error) (
          if_intro (Within n) (b == b':')
            (and_then-Within (parse_number _ bs) _ n (parse_number-Within bs _)
              (λ z rest le. le_refl (length rest)))
            (if_intro (Within n) (b == b'$')
              (and_then-Within (parse_number _ bs) bulk_body n (parse_number-Within bs _)
                (λ z rest le. bulk_body-Within z rest))
              (if_intro (Within n) (b == b'*')
                (and_then-Within (parse_number _ bs) (array_body size parse) n
                  (parse_number-Within bs _) (λ z rest le. array_body-Within z rest (omega arith)))
                (inline-Within b bs)))))

-- With more fuel than bytes the parser of a value comes to an end, behind its first byte.
parse_value-Within :
    (size fuel : ℕ) (bs : Bytes)
    → length bs < fuel
    → Within (length bs - 1) (parse_value size fuel bs)
unfolding parse_value
parse_value-Within size zero bs room = absurd (omega arith)
parse_value-Within size (suc fuel) [] room = tt
parse_value-Within size (suc fuel) (b ∷ bs) room =
    Within-mono (dispatch size (parse_value size fuel) b bs) (length bs) _ (omega arith) (
      dispatch-Within size fuel (parse_value size fuel)
        (λ bs' le.
          Within-mono (parse_value size fuel bs') _ (length bs') (omega arith)
            (parse_value-Within size fuel bs' le))
        b bs (omega arith))

-- The parser ends: with more fuel than bytes it does not run out of fuel, whatever the bytes are.
pub parse_value-ne-out_of_fuel :
    (size fuel : ℕ) (bs : Bytes) → length bs < fuel → parse_value size fuel bs ≢ out_of_fuel
parse_value-ne-out_of_fuel size fuel bs room e =
    subst (Within (length bs - 1)) e (parse_value-Within size fuel bs room)
