-- ===== src/Cache/Resp/Stream.antt =====
-- The parser of a stream: what it decided on the bytes at hand, it decides on those and more.
use mathlib.Core.List.{append-nil}
use squirreldb.Base.{
  ℕ, zero, suc, ◌+◌, ◌*◌, ◌≤◌, ◌<◌, ◌≡◌, inl, inr, refl, ap, arith, Text, ℤ, pos, negsuc, i64_half,
  Bool, true, false, ◌&&◌, none, some, List, [], ◌∷◌, ◌++◌, ltb, leb, ◌==◌, if◌then◌else◌, Bytes,
  length, length-append, take, drop, Option-cases, Bool-cases, from_utf8_lossy,
}
use squirreldb.Cache.Resp.{
  RespValue, simple_string, error, Parsed, and_then, done, incomplete, invalid, panicked,
  out_of_fuel, parse_text, parse_number, parse_integer, parse_bulk_string, bulk_body, close_bulk,
  parse_items, parse_inline_command, inline_command, split_words, read_line, encode, null_array,
  array, integer, bulk_string,
}
use squirreldb.Cache.Resp.RoundTrip.{IsWire, parse_value-encode}
use squirreldb.Cache.Resp.Fuel.{parse_value-ne-out_of_fuel}
use squirreldb.Cache.Resp.Parser.{
  new_parser, feed, value, pending, parse, parse_value, dispatch, parse_array, array_body,
}

module _ (more : Bytes) where
  -- `q` is what `p` decided, with these bytes behind the rest.
  abbrev Extends {ℓ} : {A : Type ℓ} → Parsed A → Parsed A → Type ℓ
  Extends (done v rest) q = q ≡ done v (rest ++ more)
  Extends (invalid msg rest) q = q ≡ invalid msg (rest ++ more)
  Extends panicked q = q ≡ panicked
  Extends incomplete q = Unit
  Extends out_of_fuel q = Unit

  and_then-Extends {ℓ κ} :
      {A : Type ℓ} {B : Type κ} (p q : Parsed A) (f g : A → Bytes → Parsed B)
      → Extends p q
      → ((a : A) (rest : Bytes) → Extends (f a rest) (g a (rest ++ more)))
      → Extends (and_then p f) (and_then q g)
  and_then-Extends (done a rest) q f g h k = rw h (k a rest)
  and_then-Extends (invalid msg rest) q f g h k = rw h
  and_then-Extends panicked q f g h k = rw h
  and_then-Extends incomplete q f g h k = tt
  and_then-Extends out_of_fuel q f g h k = tt

  read_line-Extends :
      (bs l rest : Bytes)
      → read_line bs ≡ some (l, rest)
      → read_line (bs ++ more) ≡ some (l, rest ++ more)
  unfolding read_line
  read_line-Extends [] l rest h = cc
  read_line-Extends (b ∷ []) l rest h = cc
  read_line-Extends (b ∷ d ∷ bs) l rest h = elim (Bool-cases (b == 13 && d == 10)) [
    | inl eol ↦ ground arith
    | inr later ↦ elim (Option-cases (read_line (d ∷ bs))) [
      | inl n ↦ ground arith
      | inr ((l', rest'), e) ↦ ground (arith, read_line-Extends (d ∷ bs) l' rest' e)
    ]
  ]

  parse_text-Extends :
      (make : Text → RespValue) (bs : Bytes)
      → Extends (parse_text make bs) (parse_text make (bs ++ more))
  unfolding parse_text
  parse_text-Extends make bs = elim (Option-cases (read_line bs)) [
    | inl n ↦ rw (n, parse_text) tt
    | inr ((l, rest), e) ↦ rw (e, parse_text) (rw (read_line-Extends bs l rest e, parse_text))
  ]

  parse_number-Extends :
      (msg : Text) (bs : Bytes) → Extends (parse_number msg bs) (parse_number msg (bs ++ more))
  unfolding parse_number
  parse_number-Extends msg bs = elim (Option-cases (read_line bs)) [
    | inl n ↦ rw (n, parse_number) tt
    | inr ((l, rest), e) ↦ ground (arith, e, read_line-Extends bs l rest e)
  ]

  take-more : (n : ℕ) (bs : Bytes) → n ≤ length bs → take n (bs ++ more) ≡ take n bs
  take-more zero bs h = refl
  take-more (suc n) [] h = absurd (omega arith)
  take-more (suc n) (b ∷ bs) h = ap (◌∷◌ b) (take-more n bs (omega arith))

  drop-more : (n : ℕ) (bs : Bytes) → n ≤ length bs → drop n (bs ++ more) ≡ drop n bs ++ more
  drop-more zero bs h = refl
  drop-more (suc n) [] h = absurd (omega arith)
  drop-more (suc n) (b ∷ bs) h = drop-more n bs (omega arith)

  close_bulk-Extends :
      (s : Text) (bs : Bytes) → Extends (close_bulk s bs) (close_bulk s (bs ++ more))
  unfolding close_bulk
  close_bulk-Extends s [] = tt
  close_bulk-Extends s (a ∷ []) = tt
  close_bulk-Extends s (a ∷ b ∷ rest) = elim (Bool-cases (a == 13 && b == 10)) [
    | inl end ↦ rw (end, close_bulk)
    | inr other ↦ rw (other, close_bulk)
  ]

  bulk_body-Extends : (z : ℤ) (bs : Bytes) → Extends (bulk_body z bs) (bulk_body z (bs ++ more))
  unfolding bulk_body
  bulk_body-Extends (negsuc n) bs = refl
  bulk_body-Extends (pos n) bs = elim (Bool-cases (ltb (length bs) (n + 2))) [
    | inl short ↦ rw (short, bulk_body) tt
    | inr enough ↦
        let still : ltb (length (bs ++ more)) (n + 2) ≡ false =
          ground (arith, length-append bs more) in
        rw (enough, bulk_body)
          (rw (still, bulk_body)
            (rw (take-more n bs (ground arith), drop-more n bs (ground arith))
              (close_bulk-Extends (from_utf8_lossy (take n bs)) (drop n bs))))
  ]

  inline-Extends :
      (bs : Bytes) → Extends (parse_inline_command bs) (parse_inline_command (bs ++ more))
  unfolding parse_inline_command
  inline-Extends bs = elim (Option-cases (read_line bs)) [
    | inl n ↦ rw (n, parse_inline_command) tt
    | inr ((l, rest), e) ↦
        rw (e, parse_inline_command)
          (rw (read_line-Extends bs l rest e, parse_inline_command)
            (command (split_words [] (from_utf8_lossy l)) rest))
  ]
    where
      command :
          (ws : List Text) (rest : Bytes)
          → Extends (inline_command ws rest) (inline_command ws (rest ++ more))
      command [] rest = refl
      command (w ∷ ws) rest = refl

  module _ (size : ℕ) (parse parse' : Bytes → Parsed RespValue)
      (ih : (bs : Bytes) → Extends (parse bs) (parse' (bs ++ more))) where
    parse_items-Extends :
        (n : ℕ) (bs : Bytes) → Extends (parse_items parse n bs) (parse_items parse' n (bs ++ more))
    unfolding parse_items
    parse_items-Extends zero bs = refl
    parse_items-Extends (suc n) bs =
        and_then-Extends (parse bs) (parse' (bs ++ more)) _ _ (ih bs) (λ v rest.
          and_then-Extends (parse_items parse n rest) (parse_items parse' n (rest ++ more)) _ _
            (parse_items-Extends n rest) (λ vs rest'. refl))

    array_body-Extends :
        (z : ℤ) (bs : Bytes)
        → Extends (array_body size parse z bs) (array_body size parse' z (bs ++ more))
    unfolding array_body
    array_body-Extends (negsuc n) bs = refl
    array_body-Extends (pos n) bs = elim (Bool-cases (ltb (n * size) i64_half)) [
      | inr big ↦ rw (big, array_body)
      | inl fits ↦
          rw (fits, array_body)
            (and_then-Extends (parse_items parse n bs) (parse_items parse' n (bs ++ more)) _ _
              (parse_items-Extends n bs) (λ vs rest. refl))
    ]

    Extends-if :
        (b : Bool) (p q p' q' : Parsed RespValue)
        → Extends p p'
        → Extends q q'
        → Extends (if b then p else q) (if b then p' else q')
    Extends-if true p q p' q' h k = h
    Extends-if false p q p' q' h k = k

    dispatch-Extends :
        (b : ℕ) (bs : Bytes)
        → Extends (dispatch size parse b bs) (dispatch size parse' b (bs ++ more))
    unfolding dispatch parse_integer parse_bulk_string parse_array
    dispatch-Extends b bs = Extends-if (b == b'+') _ _ _ _ (parse_text-Extends simple_string bs) (
        Extends-if (b == b'-') _ _ _ _ (parse_text-Extends error bs) (
          Extends-if (b == b':') _ _ _ _
            (and_then-Extends (parse_number _ bs) (parse_number _ (bs ++ more)) _ _
              (parse_number-Extends _ bs) (λ z rest. refl))
            (Extends-if (b == b'$') _ _ _ _
              (and_then-Extends (parse_number _ bs) (parse_number _ (bs ++ more)) _ _
                (parse_number-Extends _ bs) bulk_body-Extends)
              (Extends-if (b == b'*') _ _ _ _
                (and_then-Extends (parse_number _ bs) (parse_number _ (bs ++ more)) _ _
                  (parse_number-Extends _ bs) array_body-Extends)
                (inline-Extends (b ∷ bs))))))

  -- More fuel and more bytes change nothing in what is decided.
  parse_value-Extends :
      (size fuel fuel' : ℕ) (bs : Bytes)
      → fuel ≤ fuel'
      → Extends (parse_value size fuel bs) (parse_value size fuel' (bs ++ more))
  unfolding parse_value
  parse_value-Extends size zero fuel' bs h = tt
  parse_value-Extends size (suc fuel) zero bs h = absurd (omega arith)
  parse_value-Extends size (suc fuel) (suc fuel') [] h = tt
  parse_value-Extends size (suc fuel) (suc fuel') (b ∷ bs) h =
      dispatch-Extends size (parse_value size fuel) (parse_value size fuel')
        (λ bs'. parse_value-Extends size fuel fuel' bs' (omega arith)) b bs

encode-nonempty : (v : RespValue) → 0 < length (encode v)
unfolding encode
encode-nonempty (simple_string s) = omega arith
encode-nonempty (error e) = omega arith
encode-nonempty (integer i) = omega arith
encode-nonempty (bulk_string none) = omega arith
encode-nonempty (bulk_string (some s)) = omega arith
encode-nonempty null_array = omega arith
encode-nonempty (array vs) = omega arith

module _ (size : ℕ) (v : RespValue) (wire : IsWire size v) where
  -- A value and what follows it, fed to a new parser: the value is returned, and the buffer keeps
  -- exactly what follows.
  pub parse-encode :
      (rest : Bytes)
      → parse size (feed (encode v ++ rest) new_parser)
        ≡ (value v, record { buffer = rest; pos = 0 })
  unfolding parse
  parse-encode rest =
      let some_bytes : leb (length (encode v ++ rest)) 0 ≡ false =
        ground (arith, length-append (encode v) rest, encode-nonempty v) in
      rw (some_bytes, parse) (rw (parse_value-encode size v rest wire))

  whole_value : (bs : Bytes) → bs ≡ encode v → parse_value size (suc (length bs)) bs ≡ done v []
  whole_value bs h = rw h (rw (append-nil (encode v)) at (parse_value-encode size v [] wire))

  -- What the parser makes of a proper part of the bytes of a value.
  prefix_incomplete :
      (a b : Bytes) (p : Parsed RespValue)
      → a ++ b ≡ encode v
      → 0 < length b
      → parse_value size (suc (length a)) a ≡ p
      → Extends b p (done v [])
      → p ≡ incomplete
  prefix_incomplete a b (done v' rest') whole some_left e ext =
      let none_left : [] ≡ rest' ++ b = cc in
      absurd (omega (arith, ap length none_left, length-append rest' b))
  prefix_incomplete a b (invalid msg rest') whole some_left e ext = cc
  prefix_incomplete a b panicked whole some_left e ext = cc
  prefix_incomplete a b out_of_fuel whole some_left e ext =
      absurd (parse_value-ne-out_of_fuel size (suc (length a)) a (omega arith) e)
  prefix_incomplete a b incomplete whole some_left e ext = refl

  prefix_pending :
      (a b : Bytes)
      → a ++ b ≡ encode v
      → 0 < length b
      → parse size (feed a new_parser) ≡ (pending, feed a new_parser)
  unfolding parse
  prefix_pending a b whole some_left =
      let ext =
        parse_value-Extends b size (suc (length a)) (suc (length (a ++ b))) a
          (omega (arith, length-append a b)) in
      let ext' = rw (whole_value (a ++ b) whole) at ext in
      let e =
        prefix_incomplete a b (parse_value size (suc (length a)) a) whole some_left refl ext' in
      elim (Bool-cases (leb (length a) 0)) [
        | inl nothing ↦ rw (nothing, parse)
        | inr something ↦ rw (something, parse) (rw e)
      ]

  -- However the bytes of a value that the wire format can carry are cut in two, with something
  -- left for the second part, a new parser waits after the first part, with its buffer as it is,
  -- and returns the value after the second, with an empty buffer.
  pub parse-fragments :
      (a b : Bytes)
      → a ++ b ≡ encode v
      → 0 < length b
      → (parse size (feed a new_parser) ≡ (pending, feed a new_parser))
        × (parse size (feed b (parse size (feed a new_parser)).1) ≡ (value v, new_parser))
  parse-fragments a b whole some_left =
      let first = prefix_pending a b whole some_left in
      (first, rw first (rw whole (rw (append-nil (encode v)) at (parse-encode []))))
