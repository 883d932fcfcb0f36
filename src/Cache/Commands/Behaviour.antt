-- ===== src/Cache/Commands/Behaviour.antt =====
-- What commands do, as a client sees it in the replies.
use squirreldb.Base.{
  ℕ, ◌+◌, ◌-◌, ◌*◌, ◌<◌, ◌≤◌, ◌≡◌, Option, false, inl, inr, refl, ap, ◌∙◌, arith, Text, lit,
  text_eq, parse_u64, none, some, List, [], ◌∷◌, length, if◌then◌else◌, Option-cases, Bool-cases,
}
use squirreldb.Base.HashMap
use squirreldb.Cache.Entry.{Clock, Outcome, returned, panicked, as_secs, from_text, to_resp_string}
use squirreldb.Cache.Externals.{Externals}
use squirreldb.Cache.Resp.{bulk, null_bulk}
use squirreldb.Cache.Store.{InMemoryCacheStore, Result, ok, err}
use squirreldb.Cache.Operations.{get, set, delete, effective_ttl}
use squirreldb.Cache.Operations.Listed.{named}
use squirreldb.Cache.Operations.Reads.{read, read-set, lasts, get-delete}
use squirreldb.Cache.Store.Room.{length-remove}
use squirreldb.Base.HashMap.{remove-IsUnique}
use squirreldb.Cache.Commands.Replies.{ok_reply, stored, valid}
use squirreldb.Cache.Commands.Strings.{
  SetOptions, no_options, set_options, run_set, cmd_set, cmd_get,
}
use squirreldb.Cache.Commands.Keys.{delete_all}

-- The time to live, in nanoseconds, that these words behind the value of SET ask for at the clocks `c`:
-- none, a number of seconds or of milliseconds, or the time up to a moment that is to come.
pub data AsksFor {N : Type 0} (x : Externals N) (c : Clock) : List Text → Option ℕ → Type 0 where
  nothing : AsksFor x c [] none
  seconds :
      (word number : Text) (n : ℕ)
      → x.to_uppercase word ≡ lit "EX"
      → parse_u64 number ≡ some n
      → AsksFor x c (word ∷ number ∷ []) (some (n * 1000000000))
  milliseconds :
      (word number : Text) (n : ℕ)
      → x.to_uppercase word ≡ lit "PX"
      → parse_u64 number ≡ some n
      → AsksFor x c (word ∷ number ∷ []) (some (n * 1000000))
  moment :
      (word number : Text) (n : ℕ)
      → x.to_uppercase word ≡ lit "EXAT"
      → parse_u64 number ≡ some n
      → as_secs c.system_time < n
      → AsksFor x c (word ∷ number ∷ []) (some ((n - as_secs c.system_time) * 1000000000))

set_options-AsksFor :
    {N : Type 0} (x : Externals N) (c : Clock) {words : List Text} {ttl : Option ℕ}
    → AsksFor x c words ttl
    → set_options x c words no_options
      ≡ valid (record { ttl = ttl; if_absent = false; if_present = false })
unfolding set_options text_eq
set_options-AsksFor x c nothing = refl
set_options-AsksFor x c (seconds word number n up parsed) =
    rw (up, set_options) (rw (parsed, set_options) refl)
set_options-AsksFor x c (milliseconds word number n up parsed) =
    rw (up, set_options) (rw (parsed, set_options) refl)
set_options-AsksFor x c (moment word number n up parsed future) =
    rw (up, set_options) (rw (parsed, set_options) (ground arith))

module _ {N : Type 0} (x : Externals N) (c : Clock) (key text : Text)
    (s : InMemoryCacheStore N) where
  -- The reply OK of SET comes from a store that was written.
  stored-ok :
      (r : Outcome (Result (Unit {0})) × InMemoryCacheStore N)
      → (stored r).0 ≡ returned ok_reply
      → (r.0 ≡ returned (ok tt)) × ((stored r).1 ≡ r.1)
  stored-ok (returned (ok u), s') h = (refl, refl)
  stored-ok (returned (err e), s') h = cc
  stored-ok (panicked, s') h = cc

  -- What GET replies, by the value that is read.
  cmd_get-read :
      (c' : Clock) (args : List Text) (s' : InMemoryCacheStore N)
      → (cmd_get x c' (key ∷ args) s').0
        ≡ returned
            (elim (read c' key s') [ some v ↦ bulk (to_resp_string x.serde v) | none ↦ null_bulk ])
  unfolding cmd_get
  cmd_get-read c' args s' = elim (Option-cases (get c' key s').0) [
    | inl n ↦ rw (n, cmd_get)
    | inr (e, h) ↦ rw (h, cmd_get)
  ]

  -- The time to live that SET gives with these options.
  run_set-read :
      (o : SetOptions) (c' : Clock)
      → (run_set x c key text (valid o) s).0 ≡ returned ok_reply
      → read c' key (run_set x c key text (valid o) s).1
        ≡ (if lasts c (effective_ttl o.ttl s) c' then some (from_text x.serde text) else none)
  unfolding run_set
  run_set-read o c' h =
      let r = set x.choose c key (from_text x.serde text) o.ttl s in
      ground (arith, stored-ok r, read-set x.choose c key (from_text x.serde text) o.ttl s c')

  plain_text : x.serde.from_str text ≡ none → to_resp_string x.serde (from_text x.serde text) ≡ text
  unfolding from_text to_resp_string
  plain_text plain = rw (plain, from_text)

  -- A time to live that is given holds, and none falls back on the default of the store.
  abbrev pub or_default : Option ℕ → Option ℕ
  or_default none = s.default_ttl
  or_default (some d) = some d

  or_default-effective : (ttl : Option ℕ) → or_default ttl ≡ effective_ttl ttl s
  or_default-effective none = refl
  or_default-effective (some d) = refl

  -- For a text that serde_json does not read as JSON: when SET without options, or with EX, PX or a
  -- moment of EXAT that is to come, replies OK, a GET at any time replies the text as it was sent
  -- until the seconds, the milliseconds or the time to that moment, or without options the default of
  -- the store, have passed, and null from then on.
  pub cmd_get-cmd_set :
      (words args : List Text) (ttl : Option ℕ) (c' : Clock)
      → x.serde.from_str text ≡ none
      → AsksFor x c words ttl
      → (cmd_set x c (key ∷ text ∷ words) s).0 ≡ returned ok_reply
      → (cmd_get x c' (key ∷ args) (cmd_set x c (key ∷ text ∷ words) s).1).0
        ≡ returned (if lasts c (or_default ttl) c' then bulk text else null_bulk)
  unfolding cmd_set
  cmd_get-cmd_set words args ttl c' plain asked h =
      let o : SetOptions = record { ttl = ttl; if_absent = false; if_present = false } in
      let accepted : set_options x c words no_options ≡ valid o = set_options-AsksFor x c asked in
      let same = or_default-effective ttl in
      let done : (run_set x c key text (valid o) s).0 ≡ returned ok_reply =
        rw (accepted, cmd_set) at h in
      rw (accepted, cmd_set, same)
        (cmd_get-read c' args (run_set x c key text (valid o) s).1
          ∙ rw (run_set-read o c' done) (elim (Bool-cases (lasts c (effective_ttl o.ttl s) c')) [
            | inl b ↦ rw b (ap (λ t. returned (bulk t)) (plain_text plain))
            | inr b ↦ rw b
          ]))

  -- SET with EXAT and a time that is not in the future drops the time: where it replies OK and the
  -- store has no default, the key can be read at any time.
  pub cmd_set_exat_past :
      (exat_word number : Text) (n : ℕ) (c' : Clock)
      → x.to_uppercase exat_word ≡ lit "EXAT"
      → parse_u64 number ≡ some n
      → n ≤ as_secs c.system_time
      → s.default_ttl ≡ none
      → (cmd_set x c (key ∷ text ∷ exat_word ∷ number ∷ []) s).0 ≡ returned ok_reply
      → read c' key (cmd_set x c (key ∷ text ∷ exat_word ∷ number ∷ []) s).1
        ≡ some (from_text x.serde text)
  unfolding cmd_set set_options text_eq
  cmd_set_exat_past exat_word number n c' up parsed past no_default h =
      let accepted : set_options x c (exat_word ∷ number ∷ []) no_options ≡ valid no_options =
        rw (up, set_options) (rw (parsed, set_options) (ground arith)) in
      let done : (run_set x c key text (valid no_options) s).0 ≡ returned ok_reply =
        rw (accepted, cmd_set) at h in
      rw (accepted, cmd_set) (run_set-read no_options c' done ∙ rw no_default)

module _ {N : Type 0} (c : Clock) where
  delete-IsUnique :
      (key : Text) (s : InMemoryCacheStore N)
      → HashMap.IsUnique s.entries
      → HashMap.IsUnique ((delete c key s).1).entries
  unfolding delete
  delete-IsUnique key s u = ground (arith, remove-IsUnique key s.entries u)

  length-delete :
      (key : Text) (s : InMemoryCacheStore N)
      → length ((delete c key s).1).entries + (if (delete c key s).0 then 1 else 0)
        ≡ length s.entries
  unfolding delete
  length-delete key s = elim (Option-cases (HashMap.get key s.entries)) [
    | inl n ↦ rw (n, delete) (omega arith)
    | inr (e, found) ↦ rw (found, delete) (length-remove key e s.entries found)
  ]

  -- DEL of several keys, on a store with distinct keys: a key that was named has no entry afterwards,
  -- any other keeps the entry that it had, and the number that is replied is that of the entries
  -- that went.
  pub delete_all_lem :
      (ks : List Text) (j : Text) (s : InMemoryCacheStore N)
      → HashMap.IsUnique s.entries
      → (HashMap.get j ((delete_all c ks s).1).entries
          ≡ (if named j ks then none else HashMap.get j s.entries))
        × (length ((delete_all c ks s).1).entries + (delete_all c ks s).0 ≡ length s.entries)
  unfolding delete_all
  delete_all_lem [] j s u = (refl, omega arith)
  delete_all_lem (key ∷ ks) j s u =
      let rest = delete_all_lem ks j (delete c key s).1 (delete-IsUnique key s u) in
      let first = get-delete c key s j u in
      (ground (arith, rest, first), ground (arith, rest, length-delete key s))
