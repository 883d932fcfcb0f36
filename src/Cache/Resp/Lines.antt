-- ===== src/Cache/Resp/Lines.antt =====
-- Lines of the protocol: what is written as one line is read as that line.
use squirreldb.Base.{
  ◌<◌, ◌⊎◌, inl, inr, ◌%◌, ◌/◌, inr, inl, Bool-cases, ◌≤◌, ℕ, suc, ◌+◌, ◌≡◌, refl, arith, Text, ℤ,
  pos, negsuc, IsI64, true, false, ◌&&◌, some, List, [], ◌∷◌, ◌++◌, ltb, ◌==◌, Bytes, encode_char,
  encode_utf8, IsText, show_nat, show_i64,
}
use squirreldb.Base.Utf8.RoundTrip.{from_utf8_lossy-encode_utf8}
use squirreldb.Base.Number.RoundTrip.{AllDigits, show_nat-AllDigits, parse_i64-show_i64}
use squirreldb.Cache.Resp.{RespValue, done, read_line, parse_text, parse_number}

-- No CR stands directly before a LF.
abbrev pub NoCrlf : List ℕ → Type 0
NoCrlf [] = Unit
NoCrlf (b ∷ []) = Unit
NoCrlf (b ∷ d ∷ bs) = ((b == 13 && d == 10) ≡ false) × NoCrlf (d ∷ bs)

NoCrlf-cons : (b : ℕ) (bs : Bytes) → (b == 13) ≡ false → NoCrlf bs → NoCrlf (b ∷ bs)
NoCrlf-cons b [] h k = tt
NoCrlf-cons b (d ∷ bs) h k = (rw h, k)

NoCrlf-cons_cr : (b : ℕ) (bs : Bytes) → (b == 10) ≡ false → NoCrlf (b ∷ bs) → NoCrlf (13 ∷ b ∷ bs)
NoCrlf-cons_cr b bs h k = (rw h, k)

read_line-append : (l rest : Bytes) → NoCrlf l → read_line (l ++ (13 ∷ 10 ∷ rest)) ≡ some (l, rest)
unfolding read_line
read_line-append [] rest h = refl
read_line-append (b ∷ []) rest h = ground arith
read_line-append (b ∷ d ∷ l) rest (h, t) = rw h (rw (read_line-append (d ∷ l) rest t))

abbrev AllHigh : Bytes → Type 0
AllHigh [] = Unit
AllHigh (b ∷ bs) = (0x80 ≤ b) × AllHigh bs

NoCrlf-high : (l bs : Bytes) → AllHigh l → NoCrlf bs → NoCrlf (l ++ bs)
NoCrlf-high [] bs h k = k
NoCrlf-high (b ∷ l) bs (h, t) k = NoCrlf-cons b (l ++ bs) (ground arith) (NoCrlf-high l bs t k)

-- The bytes of a character: itself below 0x80, or all from 0x80 on.
abbrev IsWide : ℕ → Type 0
IsWide c = (b : ℕ) × (bs : Bytes) × (encode_char c ≡ b ∷ bs) × (0x80 ≤ b) × AllHigh bs

encode_char-cases : (c : ℕ) → ((c < 0x80) × (encode_char c ≡ c ∷ [])) ⊎ IsWide c
unfolding encode_char
encode_char-cases c = elim (Bool-cases (ltb c 0x80)) [
  | inl one ↦ inl (ground arith, rw one)
  | inr a ↦ elim (Bool-cases (ltb c 0x800)) [
    | inl two ↦ inr (0xc0 + c / 64, (0x80 + c % 64) ∷ [], rw (a, two), omega arith, omega arith)
    | inr b ↦ elim (Bool-cases (ltb c 0x10000)) [
      | inl three ↦ inr (
        0xe0 + c / 4096,
        (0x80 + c / 64 % 64) ∷ (0x80 + c % 64) ∷ [],
        rw (a, b, three),
        omega arith,
        omega arith,
      )
      | inr four ↦ inr (
        0xf0 + c / 262144,
        (0x80 + c / 4096 % 64) ∷ (0x80 + c / 64 % 64) ∷ (0x80 + c % 64) ∷ [],
        rw (a, b, four),
        omega arith,
        omega arith,
      )
    ]
  ]
]

encode_char-NoCrlf :
    (c : ℕ) (bs : Bytes) → (c == 13) ≡ false → NoCrlf bs → NoCrlf (encode_char c ++ bs)
encode_char-NoCrlf c bs h k = elim (encode_char-cases c) [
  | inl (small, e) ↦ rw e (NoCrlf-cons c bs h k)
  | inr (b, l, e, high, t) ↦ rw e (NoCrlf-high (b ∷ l) bs (high, t) k)
]

cr-encode_char-NoCrlf :
    (c : ℕ) (bs : Bytes)
    → (c == 10) ≡ false
    → NoCrlf (encode_char c ++ bs)
    → NoCrlf (13 ∷ (encode_char c ++ bs))
cr-encode_char-NoCrlf c bs h k = elim (encode_char-cases c) [
  | inl (small, e) ↦ rw e (NoCrlf-cons_cr c bs h (rw e at k))
  | inr (b, l, e, high, t) ↦ rw e (NoCrlf-cons_cr b (l ++ bs) (ground arith) (rw e at k))
]

encode_cr : encode_char 13 ≡ 13 ∷ []
unfolding encode_char
encode_cr = refl

is_cr : (c : ℕ) → (c == 13) ≡ true → c ≡ 13
is_cr c h = ground arith

encode_utf8-NoCrlf : (s : Text) → NoCrlf s → NoCrlf (encode_utf8 s)
unfolding encode_utf8
encode_utf8-NoCrlf [] h = tt
encode_utf8-NoCrlf (c ∷ []) h = elim (Bool-cases (c == 13)) [
  | inl cr ↦ rw (is_cr c cr) (rw encode_cr tt)
  | inr other ↦ encode_char-NoCrlf c [] other tt
]
encode_utf8-NoCrlf (c ∷ d ∷ s) (h, t) =
    let rest = encode_utf8-NoCrlf (d ∷ s) t in
    elim (Bool-cases (c == 13)) [
      | inl cr ↦
          rw (is_cr c cr)
            (rw encode_cr (cr-encode_char-NoCrlf d (encode_utf8 s) (ground arith) rest))
      | inr other ↦ encode_char-NoCrlf c (encode_utf8 (d ∷ s)) other rest
    ]

-- A line that holds the bytes of a text without CR LF is read as that text.
pub read_line-text :
    (s : Text) (rest : Bytes)
    → NoCrlf s
    → read_line (encode_utf8 s ++ (13 ∷ 10 ∷ rest)) ≡ some (encode_utf8 s, rest)
read_line-text s rest h = read_line-append (encode_utf8 s) rest (encode_utf8-NoCrlf s h)

AllDigits-IsText : (s : Text) → AllDigits s → IsText s
AllDigits-IsText [] h = tt
AllDigits-IsText (c ∷ cs) (h, t) = (ground arith, AllDigits-IsText cs t)

AllDigits-NoCrlf : (s : Text) → AllDigits s → NoCrlf s
AllDigits-NoCrlf [] h = tt
AllDigits-NoCrlf (c ∷ cs) (h, t) = NoCrlf-cons c cs (ground arith) (AllDigits-NoCrlf cs t)

show_i64-IsText : (i : ℤ) → IsText (show_i64 i)
unfolding show_i64
show_i64-IsText (pos n) = AllDigits-IsText (show_nat n) (show_nat-AllDigits n)
show_i64-IsText (negsuc n) =
    (refl, AllDigits-IsText (show_nat (suc n)) (show_nat-AllDigits (suc n)))

show_i64-NoCrlf : (i : ℤ) → NoCrlf (show_i64 i)
unfolding show_i64
show_i64-NoCrlf (pos n) = AllDigits-NoCrlf (show_nat n) (show_nat-AllDigits n)
show_i64-NoCrlf (negsuc n) =
    NoCrlf-cons b'-' (show_nat (suc n)) refl
      (AllDigits-NoCrlf (show_nat (suc n)) (show_nat-AllDigits (suc n)))

-- A line that holds the decimal text of an `i64` is read as that number.
pub parse_number-show_i64 :
    (msg : Text) (i : ℤ) (rest : Bytes)
    → IsI64 i
    → parse_number msg (encode_utf8 (show_i64 i) ++ (13 ∷ 10 ∷ rest)) ≡ done i rest
unfolding parse_number
parse_number-show_i64 msg i rest h =
    rw (read_line-text (show_i64 i) rest (show_i64-NoCrlf i), parse_number)
      (rw (from_utf8_lossy-encode_utf8 (show_i64 i) (show_i64-IsText i))
        (rw (parse_i64-show_i64 i h)))

-- A line that holds a text is read as that text.
pub parse_text-line :
    (make : Text → RespValue) (s : Text) (rest : Bytes)
    → IsText s
    → NoCrlf s
    → parse_text make (encode_utf8 s ++ (13 ∷ 10 ∷ rest)) ≡ done (make s) rest
unfolding parse_text
parse_text-line make s rest h k =
    rw (read_line-text s rest k, parse_text) (rw (from_utf8_lossy-encode_utf8 s h))
