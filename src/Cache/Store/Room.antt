-- ===== src/Cache/Store/Room.antt =====
-- `evict_for_space` makes room exactly when the request is no larger than the limit.
use squirreldb.Base.{
  ℕ, zero, suc, ◌+◌, ◌-◌, ◌%◌, ◌≤◌, ◌<◌, ◌≡◌, ◌⊎◌, inl, inr, refl, sym, ◌∙◌, ap, arith, Text,
  text_eq, text_eq_iff, Option, none, some, List, [], ◌∷◌, true, false, not, ◌&&◌, ltb, leb,
  is_empty, length, if◌then◌else◌, Bool-cases,
}
use squirreldb.Base.HashMap
use squirreldb.Base.HashMap.{remove-IsUnique, get-remove_self, get-remove_ne}
use squirreldb.Cache.Entry.{Clock, word, CacheEntry}
use squirreldb.Cache.Store.{
  InMemoryCacheStore, EvictionPolicy, key_to_evict, evict_entry, evict_round, evict_loop, make_room,
  evict_for_space, is_no_eviction, Result, ok, err, out_of_memory,
}
use squirreldb.Cache.Store.Accounting.{total, total-remove, IsConsistent}
use squirreldb.Cache.Store.Eviction.{evict_loop-Kept}
use squirreldb.Cache.Store.Victims.{IsChoice, IsKey, key_to_evict-IsKey}

module _ {N : Type 0} where
  pub length-remove :
      (k : Text) (e : CacheEntry N) (m : List (Text × CacheEntry N))
      → HashMap.get k m ≡ some e
      → length (HashMap.remove k m) + 1 ≡ length m
  unfolding HashMap.remove HashMap.get
  length-remove k e [] h = cc
  length-remove k e ((j, v) ∷ m) h = ground (arith, length-remove k e m)

  -- Between two stores only whole entries went.
  abbrev pub OnlyRemoves : InMemoryCacheStore N → InMemoryCacheStore N → Type 0
  OnlyRemoves s s' =
      (j : Text)
      → (HashMap.get j s'.entries ≡ none) ⊎ (HashMap.get j s'.entries ≡ HashMap.get j s.entries)

  remove-OnlyRemoves :
      (k j : Text) (m : List (Text × CacheEntry N))
      → HashMap.IsUnique m
      → (HashMap.get j (HashMap.remove k m) ≡ none)
        ⊎ (HashMap.get j (HashMap.remove k m) ≡ HashMap.get j m)
  remove-OnlyRemoves k j m u = elim (Bool-cases (text_eq k j)) [
    | inl same ↦ inl (
        ap (λ i. HashMap.get i (HashMap.remove k m)) (sym ((text_eq_iff k j).0 same))
        ∙ get-remove_self k m u)
    | inr other ↦ inr (get-remove_ne k j m (λ e. cc ((text_eq_iff k j).1 e)))
  ]

  no_entries : (m : List (Text × CacheEntry N)) → length m ≤ 0 → is_empty m ≡ true
  no_entries [] h = refl
  no_entries (x ∷ m) h = absurd (omega arith)

  total-void : (m : List (Text × CacheEntry N)) → is_empty m ≡ true → total m ≡ 0
  unfolding total
  total-void [] h = refl
  total-void (x ∷ m) h = cc

  get-void :
      (j : Text) (m : List (Text × CacheEntry N)) → is_empty m ≡ true → HashMap.get j m ≡ none
  unfolding HashMap.get
  get-void j [] h = refl
  get-void j (x ∷ m) h = cc

  abbrev pub IsVoid : InMemoryCacheStore N → Type 0
  IsVoid s = is_empty s.entries ≡ true

module _ {N : Type 0} (choose : ℕ → List Text → Option Text) (c : Clock)
    (ch : IsChoice choose) where
  -- A round on a store that is not empty takes one whole entry.
  record Round (s s' : InMemoryCacheStore N) (size : ℕ) : Type 0 where
    unique : HashMap.IsUnique s'.entries
    policy_same : s'.eviction_policy ≡ s.eviction_policy
    shorter : length s'.entries + 1 ≡ length s.entries
    size_sum : size + total s'.entries ≡ total s.entries
    only : OnlyRemoves s s'

  victim :
      (draw : ℕ) (policy : EvictionPolicy) (m : List (Text × CacheEntry N))
      → is_no_eviction policy ≡ false
      → is_empty m ≡ false
      → (key : Text) × (key_to_evict choose draw policy m ≡ some key) × IsKey key m
  victim draw policy [] p h = cc
  victim draw policy ((k, v) ∷ m) p h = key_to_evict-IsKey choose draw policy k v m ch p

  evict_round-Round :
      (draw : ℕ) (s : InMemoryCacheStore N)
      → HashMap.IsUnique s.entries
      → is_no_eviction s.eviction_policy ≡ false
      → is_empty s.entries ≡ false
      → (size : ℕ) × (s' : InMemoryCacheStore N) × (evict_round choose c draw s ≡ some (size, s'))
        × Round s s' size
  unfolding evict_round
  evict_round-Round draw s u p h =
      let (key, picked, present) = victim draw s.eviction_policy s.entries p h in
      let (e, found) = present in
      (
        e.size,
        evict_entry c key e s,
        rw (picked, evict_round) (rw found),
        record {
          unique = remove-IsUnique key s.entries u;
          policy_same = refl;
          shorter = length-remove key e s.entries found;
          size_sum = ground (arith, total-remove key s.entries);
          only = λ j. remove-OnlyRemoves key j s.entries u;
        },
      )

  -- The loop ends by its test, nothing having wrapped around.
  record Ended (to_free freed : ℕ) (s : InMemoryCacheStore N) (r : ℕ × InMemoryCacheStore N)
      : Type 0 where
    ended : (to_free ≤ r.0) ⊎ IsVoid r.1
    freed_sum : r.0 + total (r.1).entries ≡ freed + total s.entries
    only : OnlyRemoves s r.1

  Ended-at :
      (to_free freed : ℕ) (s : InMemoryCacheStore N)
      → (ltb freed to_free && not (is_empty s.entries)) ≡ false
      → Ended to_free freed s (freed, s)
  Ended-at to_free freed s stop = record {
    ended = ground arith;
    freed_sum = refl;
    only = λ j. inr refl;
  }

  OnlyRemoves-trans :
      (s t w : InMemoryCacheStore N) → OnlyRemoves s t → OnlyRemoves t w → OnlyRemoves s w
  OnlyRemoves-trans s t w p q j = ground (arith, p j, q j)

  -- As many rounds as there are entries are enough.
  evict_loop-Ended :
      (to_free fuel draw freed : ℕ) (s : InMemoryCacheStore N)
      → HashMap.IsUnique s.entries
      → is_no_eviction s.eviction_policy ≡ false
      → length s.entries ≤ fuel
      → freed + total s.entries < word
      → Ended to_free freed s (evict_loop choose c to_free fuel draw freed s)
  unfolding evict_loop
  evict_loop-Ended to_free zero draw freed s u p len room = record {
    ended = inr (no_entries s.entries len);
    freed_sum = refl;
    only = λ j. inr refl;
  }
  evict_loop-Ended to_free (suc fuel) draw freed s u p len room =
      elim (Bool-cases (ltb freed to_free && not (is_empty s.entries))) [
        | inr stop ↦ rw (stop, evict_loop) (Ended-at to_free freed s stop)
        | inl go ↦
            let (size, s', e, r) = evict_round-Round draw s u p (ground arith) in
            let next : (freed + size) % word ≡ freed + size = ground (arith, r) in
            let rest =
              evict_loop-Ended to_free fuel (suc draw) ((freed + size) % word) s' r.unique
                (rw r.policy_same p) (ground (arith, r)) (ground (arith, r, next)) in
            rw (go, evict_loop)
              (rw e (record {
                ended = rest.ended;
                freed_sum = ground (arith, r, rest.freed_sum, next);
                only =
                    OnlyRemoves-trans s s'
                      (evict_loop choose c to_free fuel (suc draw) ((freed + size) % word) s').1
                      r.only rest.only;
              }))
      ]

  -- What `make_room` reaches, where nothing wraps around.
  record Made (to_free : ℕ) (s : InMemoryCacheStore N)
      (r : Result (Unit {0}) × InMemoryCacheStore N) : Type 0 where
    result : r.0 ≡ (if leb to_free (total s.entries) then ok tt else err out_of_memory)
    room : to_free ≤ total s.entries → (r.1).memory_used + to_free ≤ s.memory_used
    void : total s.entries < to_free → IsVoid r.1
    only : OnlyRemoves s r.1

  make_room-Made :
      (to_free : ℕ) (s : InMemoryCacheStore N)
      → IsConsistent s
      → is_no_eviction s.eviction_policy ≡ false
      → total s.entries < word
      → Made to_free s (make_room choose c to_free s)
  unfolding make_room
  make_room-Made to_free s h p fits =
      let r =
        evict_loop-Ended to_free (length s.entries) 0 0 s h.unique p (omega arith) (omega arith) in
      let kept = evict_loop-Kept choose c to_free (length s.entries) 0 0 s h.unique in
      let left = total-void ((evict_loop choose c to_free (length s.entries) 0 0 s).1).entries in
      record {
        result = ground (arith, r.ended, r.freed_sum, left);
        room = ground (arith, r.ended, r.freed_sum, left, kept.memory_same, h.accounted);
        void = ground (arith, r.ended, r.freed_sum);
        only = r.only;
      }

  -- All branches of `evict_for_space` at once.
  pub evict_for_space_lem :
      (needed : ℕ) (s : InMemoryCacheStore N)
      → IsConsistent s
      → is_no_eviction s.eviction_policy ≡ false
      → total s.entries + needed < word
      → ((evict_for_space choose c needed s).0
          ≡ (if leb needed s.memory_limit then ok tt else err out_of_memory))
        × (needed ≤ s.memory_limit
            → ((evict_for_space choose c needed s).1).memory_used + needed ≤ s.memory_limit)
        × (s.memory_limit < needed → IsVoid (evict_for_space choose c needed s).1)
        × OnlyRemoves s (evict_for_space choose c needed s).1
  unfolding evict_for_space
  evict_for_space_lem needed s h p room =
      let to_free = (s.memory_used + needed) % word - s.memory_limit in
      let used : s.memory_used ≡ total s.entries = ground (arith, h.accounted) in
      let made = make_room-Made to_free s h p (omega arith) in
      elim (Bool-cases (leb ((s.memory_used + needed) % word) s.memory_limit)) [
        | inl fits ↦ (
          ground arith,
          ground arith,
          ground arith,
          rw (p, evict_for_space) (rw fits (λ j. inr refl)),
        )
        | inr tight ↦ (
          ground (arith, made.result),
          ground (arith, made.room),
          ground (arith, made.void),
          rw (p, evict_for_space) (rw tight made.only),
        )
      ]

  module _ (needed : ℕ) (s : InMemoryCacheStore N) (h : IsConsistent s)
      (evicts : is_no_eviction s.eviction_policy ≡ false) (fits : total s.entries + needed < word)
      (j : Text) where
    -- On a consistent store with a policy that evicts, and with no sum passing the width of a word,
    -- a request no larger than the limit succeeds: the request then fits below the limit, and an
    -- entry of the store is as it was or gone.
    pub evict_for_space-ok :
        needed ≤ s.memory_limit
        → ((evict_for_space choose c needed s).0 ≡ ok tt)
          × (((evict_for_space choose c needed s).1).memory_used + needed ≤ s.memory_limit)
          × ((HashMap.get j ((evict_for_space choose c needed s).1).entries ≡ none)
              ⊎ (HashMap.get j ((evict_for_space choose c needed s).1).entries
                  ≡ HashMap.get j s.entries))
    evict_for_space-ok small =
        let (result, room, void, only) = evict_for_space_lem needed s h evicts fits in
        (ground (arith, result), room small, only j)

    -- On a consistent store with a policy that evicts, and with no sum passing the width of a
    -- word, a request larger than the limit fails, after every entry of the store has been
    -- evicted for it.
    pub evict_for_space-err :
        s.memory_limit < needed
        → ((evict_for_space choose c needed s).0 ≡ err out_of_memory)
          × (HashMap.get j ((evict_for_space choose c needed s).1).entries ≡ none)
    evict_for_space-err large =
        let (result, room, void, only) = evict_for_space_lem needed s h evicts fits in
        (
          ground (arith, result),
          get-void j ((evict_for_space choose c needed s).1).entries (void large),
        )
