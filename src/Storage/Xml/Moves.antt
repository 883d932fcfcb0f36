-- ===== src/Storage/Xml/Moves.antt =====
-- How the reader goes through the parts of a document: what stands behind a part is read from where
-- the part leads, and escaped text is read as it was.
use squirreldb.Base.{Text, [], ◌∷◌, ◌++◌, ◌≡◌, refl, List, Option, none, some}
use mathlib.Core.List.{append-nil, append_assoc}
use squirreldb.Storage.Xml.Common.{wrap, optional, each}
use squirreldb.Storage.Xml.Reader.{Leaf, State, content, step, run, read}

pub run-append : (s : State) (a b : Text) → run s (a ++ b) ≡ run (run s a) b
unfolding run
run-append s [] b = refl
run-append s (c ∷ a) b = run-append (step s c) a b

-- The part leads from the open elements `s` to the open elements `s'` and gives the values `ls`.
pub record Moves (p : Text) (ls : List Leaf) (s s' : List Text) : Type 0 where
  pub moves :
      (t : Text) (out : List Leaf)
      → (t' : Text) × (run (content s t out) p ≡ content s' t' (out ++ ls))

-- A part that only opens and closes elements.
pub record Silent (p : Text) (s s' : List Text) : Type 0 where
  pub passes :
      (t : Text) (out : List Leaf) → (t' : Text) × (run (content s t out) p ≡ content s' t' out)

-- A part that the reader takes for the text `v`, whatever stands before it.
pub record Spells (e v : Text) : Type 0 where
  pub spells :
      (s : List Text) (t : Text) (out : List Leaf)
      → run (content s t out) e ≡ content s (t ++ v) out

infixl 4 ◌⟫◌
pub ◌⟫◌ :
    {p q : Text} {ls ms : List Leaf} {s s' s'' : List Text}
    → Moves p ls s s'
    → Moves q ms s' s''
    → Moves (p ++ q) (ls ++ ms) s s''
◌⟫◌ {p} {q} {ls} {ms} {s} first second = record {
  moves = λ t out.
      let (u, one) = first.moves t out in
      let (v, two) = second.moves u (out ++ ls) in
      (v, rw (run-append, one, two, append_assoc) refl);
}

infixl 4 ◌⟩◌
pub ◌⟩◌ :
    {p q : Text} {ls : List Leaf} {s s' s'' : List Text}
    → Moves p ls s s'
    → Silent q s' s''
    → Moves (p ++ q) ls s s''
◌⟩◌ {ls = ls} first second = record {
  moves = λ t out.
      let (u, one) = first.moves t out in
      let (v, two) = second.passes u (out ++ ls) in (v, rw (run-append, one, two) refl);
}

pub silent :
    (q : Text) {s s' : List Text}
    → ((t : Text) (out : List Leaf) → (t' : Text) × (run (content s t out) q ≡ content s' t' out))
    → Silent q s s'
silent q h = record { passes = h }

pub start : {p : Text} {s s' : List Text} → Silent p s s' → Moves p [] s s'
start first = record {
  moves = λ t out. let (u, one) = first.passes t out in (u, rw (one, append-nil) refl);
}

-- An element with a text.
pub leaf :
    (a b name : Text) {e v : Text} {s : List Text}
    → ((t : Text) (out : List Leaf) → run (content s t out) a ≡ content (name ∷ s) [] out)
    → ((t : Text) (out : List Leaf)
        → (t' : Text) × (run (content (name ∷ s) t out) b ≡ content s t' (out ++ (name, t) ∷ [])))
    → Spells e v
    → Moves (wrap a e b) ((name, v) ∷ []) s s
leaf a b name {e} {v} {s} opens closes reads = record {
  moves = λ t out.
      let (u, done) = closes v out in
      (u, rw (run-append, run-append, opens t out, reads.spells, done) refl);
}

abbrev pub named : Text → Text → List Leaf
named name v = (name, v) ∷ []

abbrev pub quoted : Text → Text
quoted v = b'"' ∷ v ++ b'"' ∷ []

-- An element whose text stands in quotes.
pub quoted_leaf :
    (a b name : Text) {e v : Text} {s : List Text}
    → ((t : Text) (out : List Leaf) → run (content s t out) a ≡ content (name ∷ s) (b'"' ∷ []) out)
    → ((t : Text) (out : List Leaf)
        → (t' : Text) × (run (content (name ∷ s) t out) b
            ≡ content s t' (out ++ (name, t ++ b'"' ∷ []) ∷ [])))
    → Spells e v
    → Moves (wrap a e b) ((name, quoted v) ∷ []) s s
quoted_leaf a b name {e} {v} {s} opens closes reads = record {
  moves = λ t out.
      let (u, done) = closes (b'"' ∷ v) out in
      (u, rw (run-append, run-append, opens t out, reads.spells, done) refl);
}

module _ {A : Type 0} (values : A → List Leaf) where
  abbrev pub optional_values : Option A → List Leaf
  optional_values none = []
  optional_values (some a) = values a

  abbrev pub each_values : List A → List Leaf
  each_values [] = []
  each_values (a ∷ l) = values a ++ each_values l

module _ {A : Type 0} (f : A → Text) (values : A → List Leaf) (s : List Text) where
  nothing : Moves [] [] s s
  unfolding run
  nothing = record { moves = λ t out. (t, rw append-nil refl) }

  pub optional-Moves :
      ((a : A) → Moves (f a) (values a) s s)
      → (o : Option A) → Moves (optional f o) (optional_values values o) s s
  optional-Moves h none = nothing
  optional-Moves h (some a) = h a

  pub each-Moves :
      ((a : A) → Moves (f a) (values a) s s)
      → (l : List A) → Moves (each f l) (each_values values l) s s
  each-Moves h [] = nothing
  each-Moves h (a ∷ l) = h a ⟫ each-Moves h l

-- What leads from the start to the end of all elements is read as its values.
pub Moves-read : {p : Text} {ls : List Leaf} → Moves p ls [] [] → read p ≡ some ls
unfolding read
Moves-read m = let (t, e) = m.moves [] [] in rw e refl
