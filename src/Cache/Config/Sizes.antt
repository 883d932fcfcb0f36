-- ===== src/Cache/Config/Sizes.antt =====
-- Sizes that are written as a number with a unit.
use mathlib.Core.Option
use mathlib.Core.List.{append-nil}
use squirreldb.Base.{
  leb, ◌||◌, ℕ, ◌*◌, ◌%◌, ◌<◌, ◌≡◌, refl, ◌∙◌, ap, arith, i64_mod, Text, lit, text_eq, show_nat,
  is_digit, parse_u64, true, false, Option, none, some, [], ◌∷◌, ◌++◌, ◌==◌, ◌&&◌,
}
use squirreldb.Base.Number.RoundTrip.{AllDigits, show_nat-AllDigits, parse_u64-show_nat}
use squirreldb.Base.Strings.{trim, trim_start, trim_end, is_whitespace}
use squirreldb.Cache.Entry.{word}
use squirreldb.Cache.Commands.Info.{kb, mb, gb}
use squirreldb.Cache.Config.{strip_suffix, sized, with_unit, size_of, parse_memory_size}

abbrev NoSpace : Text → Type 0
NoSpace [] = Unit
NoSpace (c ∷ cs) = (is_whitespace c ≡ false) × NoSpace cs

trim_end-NoSpace : (t : Text) → NoSpace t → trim_end t ≡ t
unfolding trim_end
trim_end-NoSpace [] h = refl
trim_end-NoSpace (c ∷ cs) h = rw (h.0, trim_end-NoSpace cs h.1) refl

trim-NoSpace : (t : Text) → NoSpace t → trim t ≡ t
unfolding trim trim_start
trim-NoSpace [] h = trim_end-NoSpace [] tt
trim-NoSpace (c ∷ cs) h = rw (h.0) (trim_end-NoSpace (c ∷ cs) h)

digits-NoSpace : (t : Text) → AllDigits t → NoSpace t
unfolding is_whitespace
digits-NoSpace [] h = tt
digits-NoSpace (c ∷ cs) h = (ground (arith, h.0), digits-NoSpace cs h.1)

append-NoSpace : (a b : Text) → NoSpace a → NoSpace b → NoSpace (a ++ b)
append-NoSpace [] b h k = k
append-NoSpace (c ∷ cs) b h k = (h.0, append-NoSpace cs b h.1 k)

map-same {ℓ} : {A : Type ℓ} (o : Option A) → o ≡ Option.map (λ a. a) o
map-same none = refl
map-same (some a) = refl

map-map {ℓ} :
    {A : Type ℓ} (f g : A → A) (o : Option A)
    → Option.map f (Option.map g o) ≡ Option.map (λ a. f (g a)) o
map-map f g none = refl
map-map f g (some a) = refl

-- Digits do not begin a unit.
strip_suffix-digits :
    (l : ℕ) (p ds rest : Text)
    → is_digit l ≡ false
    → AllDigits ds
    → strip_suffix (l ∷ p) (ds ++ rest) ≡ Option.map (λ t. ds ++ t) (strip_suffix (l ∷ p) rest)
unfolding strip_suffix text_eq
strip_suffix-digits l p [] rest n h = map-same (strip_suffix (l ∷ p) rest)
strip_suffix-digits l p (d ∷ ds) rest n h =
    let differ : l == d ≡ false = ground (arith, h.0) in
    rw (differ, strip_suffix-digits l p ds rest n h.1)
      (map-map (◌∷◌ d) (λ t. ds ++ t) (strip_suffix (l ∷ p) rest))

-- Characters that `to_lowercase` leaves as they are.
abbrev pub IsLower : Text → Type 0
IsLower [] = Unit
IsLower (c ∷ cs) = ((is_digit c || (leb b'a' c && leb c b'z')) ≡ true) × IsLower cs

digits-IsLower : (ds u : Text) → AllDigits ds → IsLower u → IsLower (ds ++ u)
digits-IsLower [] u h k = k
digits-IsLower (d ∷ ds) u h k = (ground (arith, h.0), digits-IsLower ds u h.1 k)

with_unit-found :
    (s u t : Text) (factor : ℕ) (o : Option ℕ)
    → strip_suffix u s ≡ some t
    → with_unit s u factor o ≡ sized factor (parse_u64 (trim t))
with_unit-found s u t factor o h = rw (h, with_unit) refl

with_unit-other :
    (s u : Text) (factor : ℕ) (o : Option ℕ) → strip_suffix u s ≡ none → with_unit s u factor o ≡ o
with_unit-other s u factor o h = rw (h, with_unit) refl

module _ (to_lowercase : Text → Text) (same : (t : Text) → IsLower t → to_lowercase t ≡ t) (n : ℕ)
    (small : n < i64_mod) where
  -- The number with a unit, as it is looked at.
  prepared :
      (u : Text) → NoSpace u → IsLower u → to_lowercase (trim (show_nat n ++ u)) ≡ show_nat n ++ u
  prepared u h k =
      let ds = show_nat-AllDigits n in
      ap to_lowercase (
        trim-NoSpace (show_nat n ++ u)
          (append-NoSpace (show_nat n) u (digits-NoSpace (show_nat n) ds) h))
      ∙ same (show_nat n ++ u) (digits-IsLower (show_nat n) u ds k)

  number : parse_u64 (trim (show_nat n ++ [])) ≡ some n
  number =
      ap (λ t. parse_u64 (trim t)) (append-nil (show_nat n))
      ∙ ap parse_u64
          (trim-NoSpace (show_nat n) (digits-NoSpace (show_nat n) (show_nat-AllDigits n)))
      ∙ parse_u64-show_nat n small

  suffix :
      (l : ℕ) (p rest : Text)
      → is_digit l ≡ false
      → strip_suffix (l ∷ p) (show_nat n ++ rest)
        ≡ Option.map (λ t. show_nat n ++ t) (strip_suffix (l ∷ p) rest)
  suffix l p rest h = strip_suffix-digits l p (show_nat n) rest h (show_nat-AllDigits n)

  -- A size is read as it is meant: a number below 2 ^ 64 with the unit gb, mb or kb as the number times the
  -- unit, modulo 2 ^ 64, and with the unit b or none as the number, if to_lowercase leaves digits and
  -- small letters as they are.
  pub parse_memory_size-show_nat :
      (parse_memory_size to_lowercase (show_nat n ++ lit "gb") ≡ some ((n * gb) % word))
      × (parse_memory_size to_lowercase (show_nat n ++ lit "mb") ≡ some ((n * mb) % word))
      × (parse_memory_size to_lowercase (show_nat n ++ lit "kb") ≡ some ((n * kb) % word))
      × (parse_memory_size to_lowercase (show_nat n ++ lit "b") ≡ some n)
      × (parse_memory_size to_lowercase (show_nat n ++ []) ≡ some n)
  unfolding parse_memory_size size_of strip_suffix is_whitespace text_eq
  parse_memory_size-show_nat =
      let g = suffix b'g' (lit "b") in
      let m = suffix b'm' (lit "b") in
      let k = suffix b'k' (lit "b") in
      let b = suffix b'b' [] in
      let not_g =
        λ (u : Text) (o : Option ℕ) (h : strip_suffix (lit "gb") (show_nat n ++ u) ≡ none).
          with_unit-other (show_nat n ++ u) (lit "gb") gb o h in
      let not_m =
        λ (u : Text) (o : Option ℕ) (h : strip_suffix (lit "mb") (show_nat n ++ u) ≡ none).
          with_unit-other (show_nat n ++ u) (lit "mb") mb o h in
      let not_k =
        λ (u : Text) (o : Option ℕ) (h : strip_suffix (lit "kb") (show_nat n ++ u) ≡ none).
          with_unit-other (show_nat n ++ u) (lit "kb") kb o h in
      (
        ap size_of (prepared (lit "gb") (refl, (refl, tt)) (refl, (refl, tt)))
            ∙ with_unit-found (show_nat n ++ lit "gb") (lit "gb") (show_nat n ++ []) gb _
                (g (lit "gb") refl)
            ∙ ap (sized gb) number,
        ap size_of (prepared (lit "mb") (refl, (refl, tt)) (refl, (refl, tt)))
            ∙ not_g (lit "mb") _ (g (lit "mb") refl)
            ∙ with_unit-found (show_nat n ++ lit "mb") (lit "mb") (show_nat n ++ []) mb _
                (m (lit "mb") refl)
            ∙ ap (sized mb) number,
        ap size_of (prepared (lit "kb") (refl, (refl, tt)) (refl, (refl, tt)))
            ∙ not_g (lit "kb") _ (g (lit "kb") refl)
            ∙ not_m (lit "kb") _ (m (lit "kb") refl)
            ∙ with_unit-found (show_nat n ++ lit "kb") (lit "kb") (show_nat n ++ []) kb _
                (k (lit "kb") refl)
            ∙ ap (sized kb) number,
        ap size_of (prepared (lit "b") (refl, tt) (refl, tt))
            ∙ not_g (lit "b") _ (g (lit "b") refl)
            ∙ not_m (lit "b") _ (m (lit "b") refl)
            ∙ not_k (lit "b") _ (k (lit "b") refl)
            ∙ rw (b (lit "b") refl) number,
        ap size_of (prepared [] tt tt)
            ∙ not_g [] _ (g [] refl)
            ∙ not_m [] _ (m [] refl)
            ∙ not_k [] _ (k [] refl)
            ∙ rw (b [] refl) (ap parse_u64 (append-nil (show_nat n)) ∙ parse_u64-show_nat n small),
      )
