-- ===== src/Cache/Subscriptions/Glob.antt =====
-- `glob_match` against what a pattern means.
use mathlib.Core.Path.{subst}
use mathlib.Core.List.{append-nil, append_assoc}
use squirreldb.Base.{
  ℕ, ◌≡◌, ◌≢◌, ◌⊎◌, inl, inr, refl, sym, ap, ◌∙◌, arith, Text, ◌==◌, Bool, true, false, ◌||◌, [],
  ◌∷◌, ◌++◌, if◌then◌else◌, Bool-cases,
}
use squirreldb.Cache.Subscriptions.{glob_match, after_star, match_somewhere}

-- A text that a pattern matches: `*` stands for any text, `?` for any character, and every other
-- character for itself.
unfoldable pub Matches : Text → Text → Type 0
Matches [] t = t ≡ []
Matches (p ∷ ps) t =
    ((p ≡ b'*') × ((a : Text) × (b : Text) × (a ++ b ≡ t) × Matches ps b))
    ⊎ ((p ≢ b'*') × ((c : ℕ) × (cs : Text) × (t ≡ c ∷ cs) × ((p ≡ b'?') ⊎ (c ≡ p)) × Matches ps cs))

-- The test decides the proposition.
abbrev pub Reflects {ℓ} : Bool → Type ℓ → Type ℓ
Reflects true P = P
Reflects false P = ¬ P

Reflects-map {ℓ κ} :
    {P : Type ℓ} {Q : Type κ} (b : Bool) → (P → Q) → (Q → P) → Reflects b P → Reflects b Q
Reflects-map true f g r = f r
Reflects-map false f g r = λ q. r (g q)

-- A part of `t` behind some first part.
abbrev Behind : (Text → Type 0) → Text → Type 0
Behind P t = (a : Text) × (b : Text) × (a ++ b ≡ t) × P b

Behind-nil : (P : Text → Type 0) → Behind P [] → P []
Behind-nil P ([], b, e, h) = subst P e h
Behind-nil P (c ∷ a, b, e, h) = cc

Behind-cons : (P : Text → Type 0) (c : ℕ) (cs : Text) → Behind P (c ∷ cs) → P (c ∷ cs) ⊎ Behind P cs
Behind-cons P c cs ([], b, e, h) = inl (subst P e h)
Behind-cons P c cs (d ∷ a, b, e, h) = inr (a, b, cc, h)

match_somewhere-Reflects :
    (f : Text → Bool) (P : Text → Type 0)
    → ((t : Text) → Reflects (f t) (P t))
    → (t : Text) → Reflects (match_somewhere f t) (Behind P t)
unfolding match_somewhere
match_somewhere-Reflects f P r [] =
    Reflects-map (f []) (λ h. ([], [], refl, h)) (Behind-nil P) (r [])
match_somewhere-Reflects f P r (c ∷ cs) =
    by_cases (f (c ∷ cs)) (match_somewhere f cs) (r (c ∷ cs)) (match_somewhere-Reflects f P r cs)
  where
    by_cases :
        (here later : Bool)
        → Reflects here (P (c ∷ cs))
        → Reflects later (Behind P cs)
        → Reflects (here || later) (Behind P (c ∷ cs))
    by_cases true later h k = ([], c ∷ cs, refl, h)
    by_cases false true h (a, b, e, k) = (c ∷ a, b, ap (λ t. c ∷ t) e, k)
    by_cases false false h k = λ m. elim (Behind-cons P c cs m) [ inl x ↦ h x | inr x ↦ k x ]

-- Behind a `*`, a further one changes nothing.
Behind-star : (qs t : Text) → Matches (b'*' ∷ qs) t → Behind (Matches (b'*' ∷ qs)) t
unfolding Matches
Behind-star qs t h = ([], t, refl, h)

star-Behind : (qs t : Text) → Behind (Matches (b'*' ∷ qs)) t → Matches (b'*' ∷ qs) t
unfolding Matches
star-Behind qs t (a, b, e, inl (s, (a', b', e', h))) =
    inl (refl, (a ++ a', b', (append_assoc a a' b' ∙ ap (λ u. a ++ u) e') ∙ e, h))
star-Behind qs t (a, b, e, inr (s, h)) = absurd (s refl)

after_star-Reflects :
    (ps : Text)
    → ((t : Text) → Reflects (glob_match ps t) (Matches ps t))
    → (t : Text) → Reflects (after_star ps (glob_match ps) t) (Behind (Matches ps) t)
unfolding after_star Matches
after_star-Reflects [] r t = (t, [], append-nil t, refl)
after_star-Reflects (q ∷ qs) r t = elim (Bool-cases (q == b'*')) [
  | inr other ↦
      rw (other, after_star) (match_somewhere-Reflects (glob_match (q ∷ qs)) (Matches (q ∷ qs)) r t)
  | inl star ↦
      let is_star : q ≡ b'*' = ground arith in
      rw (star, after_star)
        (Reflects-map (glob_match (q ∷ qs) t) (λ h. ([], t, refl, h))
          (λ h.
            subst (λ p. Matches (p ∷ qs) t) (sym is_star)
              (star-Behind qs t (subst (λ p. Behind (Matches (p ∷ qs)) t) is_star h)))
          (r t))
]

one-Reflects :
    (p : ℕ) (ps : Text) (f : Text → Bool)
    → p ≢ b'*'
    → ((t : Text) → Reflects (f t) (Matches ps t))
    → (t : Text)
    → Reflects
        (elim t [ [] ↦ false | c ∷ cs ↦ if p == b'?' || c == p then f cs else false ])
        (Matches (p ∷ ps) t)
unfolding Matches
one-Reflects p ps f other r [] =
    λ m. elim m [ inl (s, h) ↦ other s | inr (s, (c, cs, e, k, h)) ↦ cc ]
one-Reflects p ps f other r (c ∷ cs) = elim (Bool-cases (p == b'?' || c == p)) [
  | inl fits ↦ rw fits (
      Reflects-map (f cs) (λ h. inr (other, (c, cs, refl, ground arith, h)))
        (λ m. elim m [
          | inl (s, x) ↦ absurd (other s)
          | inr (s, (d, ds, e, k, h)) ↦ subst (Matches ps) (sym (by_tail c d cs ds e)) h
        ])
        (r cs))
  | inr misfit ↦ rw misfit (λ m. elim m [
    | inl (s, x) ↦ other s
    | inr (s, (d, ds, e, k, h)) ↦ ground (arith, by_head c d cs ds e)
  ])
]
  where
    by_head : (c d : ℕ) (cs ds : Text) → c ∷ cs ≡ d ∷ ds → c ≡ d
    by_head c d cs ds e = cc

    by_tail : (c d : ℕ) (cs ds : Text) → c ∷ cs ≡ d ∷ ds → cs ≡ ds
    by_tail c d cs ds e = cc

-- `glob_match` answers true exactly for the texts that the pattern matches.
pub glob_match-Matches : (ps t : Text) → Reflects (glob_match ps t) (Matches ps t)
unfolding glob_match Matches
glob_match-Matches [] [] = refl
glob_match-Matches [] (c ∷ cs) = λ e. cc
glob_match-Matches (p ∷ ps) t = elim (Bool-cases (p == b'*')) [
  | inl star ↦
      rw (star, glob_match)
        (Reflects-map (after_star ps (glob_match ps) t) (λ h. inl (ground arith, h))
          (λ m. elim m [ inl (s, h) ↦ h | inr (s, h) ↦ absurd (ground arith) ])
          (after_star-Reflects ps (glob_match-Matches ps) t))
  | inr other ↦
      rw (other, glob_match)
        (one-Reflects p ps (glob_match ps) (ground arith) (glob_match-Matches ps) t)
]
