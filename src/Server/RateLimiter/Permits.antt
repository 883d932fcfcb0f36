-- ===== src/Server/RateLimiter/Permits.antt =====
-- crates/sqrld/src/server/rate_limiter.rs: query permits. A counter is shared by the map and by the
-- permits that were given out (`Arc`), so it has an address; the locks and the atomic operations of
-- several tasks are steps that come in any order.
use squirreldb.Base.{
  ℕ, ◌+◌, ◌-◌, ◌%◌, ◌≤◌, ◌<◌, ◌≡◌, inl, inr, arith, ltb, leb, Option, none, some, Option-cases,
  Bool-cases, ◌==◌, if◌then◌else◌,
}
use squirreldb.Base.Results.{Result, ok, err}
use squirreldb.Server.RateLimiter.{
  Uuid, write, LimitsSection, RateLimitError, too_many_concurrent_queries,
}

abbrev pub Address : Type 0
Address = ℕ

abbrev pub u32_mod : ℕ
u32_mod = 4294967296

-- The map of counters, their values, and the first address that is free. `permits` and `refused` count,
-- for each counter, the permits that are held and the tasks that have added one too many and have not
-- taken it back: they are what the tasks hold, not what the limiter stores.
pub record Queries : Type 0 where
  pub concurrent_queries : Uuid → Option Address
  pub value : Address → ℕ
  pub free : Address
  pub permits : Address → ℕ
  pub refused : Address → ℕ

unfoldable pub new_queries : Queries
new_queries = record {
  concurrent_queries = λ c. none;
  value = λ a. 0;
  free = 0;
  permits = λ a. 0;
  refused = λ a. 0;
}

-- `acquire_query_permit`, under the lock of the map: the counter of the client, which may be new.
unfoldable pub find_counter : Uuid → Queries → Address × Queries
find_counter client_id s = elim (s.concurrent_queries client_id) [
  | some a ↦ (a, s)
  | none ↦ (
    s.free,
    record s {
      concurrent_queries = write client_id (some s.free) s.concurrent_queries;
      value = write s.free 0 s.value;
      free = s.free + 1;
    },
  )
]

-- How `acquire_query_permit` begins: without a limit a permit is given at once, that has no counter.
unfoldable pub begin_query : LimitsSection → Uuid → Queries → Option Address × Queries
unfolding find_counter
begin_query config client_id s =
    if config.max_concurrent_queries == 0
    then (none, s)
    else (some (find_counter client_id s).0, (find_counter client_id s).1)

-- `fetch_add` and the test of what it returned: a permit, or an addition to be taken back.
unfoldable pub add_one :
    LimitsSection → Uuid → Address → Queries → Result RateLimitError Address × Queries
add_one config client_id a s =
    let added = write a ((s.value a + 1) % u32_mod) s.value in
    if leb config.max_concurrent_queries (s.value a)
    then (
      err (too_many_concurrent_queries client_id config.max_concurrent_queries),
      record s { value = added; refused = write a (s.refused a + 1) s.refused },
    )
    else (ok a, record s { value = added; permits = write a (s.permits a + 1) s.permits })

-- `fetch_sub`
abbrev pub take_one : Address → Queries → Address → ℕ
take_one a s = write a ((s.value a + (u32_mod - 1)) % u32_mod) s.value

-- A refused task takes its addition back.
unfoldable pub back_out : Address → Queries → Queries
back_out a s = record s { value = take_one a s; refused = write a (s.refused a - 1) s.refused }

-- `Drop` of a permit.
unfoldable pub drop_permit : Address → Queries → Queries
drop_permit a s = record s { value = take_one a s; permits = write a (s.permits a - 1) s.permits }

-- `queries.retain` of `cleanup`.
unfoldable pub cleanup_queries : Queries → Queries
cleanup_queries s = record s {
  concurrent_queries = λ c. elim (s.concurrent_queries c) [
    | some a ↦ if ltb 0 (s.value a) then some a else none
    | none ↦ none
  ];
}

-- The steps of the tasks. One that adds has found the counter before, perhaps long before; there are
-- fewer tasks and permits than a `u32` counts.
pub data Step (config : LimitsSection) : Queries → Queries → Type 0 where
  find : {s : Queries} (client_id : Uuid) → Step config s (begin_query config client_id s).1
  add :
      {s : Queries} (client_id : Uuid) (a : Address)
      → a < s.free
      → s.permits a + s.refused a + 1 < u32_mod
      → Step config s (add_one config client_id a s).1
  back : {s : Queries} (a : Address) → 0 < s.refused a → Step config s (back_out a s)
  drop : {s : Queries} (a : Address) → 0 < s.permits a → Step config s (drop_permit a s)
  clean : {s : Queries} → Step config s (cleanup_queries s)

pub data Reach (config : LimitsSection) : Queries → Type 0 where
  start : Reach config new_queries
  next : {s t : Queries} → Reach config s → Step config s t → Reach config t

-- Each counter counts its permits and the additions to be taken back, and no more permits than allowed
-- are held; counters that are not made yet count nothing.
abbrev pub IsCounted : LimitsSection → Queries → Type 0
IsCounted config s =
    (a : Address)
    → (s.value a ≡ s.permits a + s.refused a)
      × (s.permits a ≤ config.max_concurrent_queries)
      × (s.value a < u32_mod)
      × (s.free ≤ a → s.value a ≡ 0)

Step-IsCounted :
    (config : LimitsSection) {s t : Queries}
    → Step config s t
    → IsCounted config s
    → IsCounted config t
unfolding begin_query find_counter add_one back_out drop_permit cleanup_queries
Step-IsCounted config (find {s} client_id) h a =
    elim (Bool-cases (config.max_concurrent_queries == 0)) [
      | inl unlimited ↦ rw (unlimited) (h a)
      | inr limited ↦ rw (limited) (elim (Option-cases (s.concurrent_queries client_id)) [
        | inl new ↦ rw (new, find_counter) (ground (arith, h a, h s.free))
        | inr (b, known) ↦ rw (known, find_counter) (h a)
      ])
    ]
Step-IsCounted config (add {s} client_id b old few) h a = ground (arith, h a, h b)
Step-IsCounted config (back {s} b some_one) h a = ground (arith, h a, h b)
Step-IsCounted config (drop {s} b some_one) h a = ground (arith, h a, h b)
Step-IsCounted config clean h a = h a

-- In every state that tasks reach by looking counters up, adding to them, taking refused additions back,
-- dropping permits and cleaning up, in whatever order these come, a counter is the number of its
-- permits and of the additions still to be taken back, and no more permits of it are held than the
-- configuration allows.
pub Reach-IsCounted : (config : LimitsSection) {s : Queries} → Reach config s → IsCounted config s
unfolding new_queries
Reach-IsCounted config {s} start = λ a. ground arith
Reach-IsCounted config {s} (next r st) = λ a. Step-IsCounted config st (Reach-IsCounted config r) a

-- In every state that tasks reach and in which no refused addition is still to be taken back, a task
-- gets a permit exactly if fewer permits of the counter are held than allowed: permits that were
-- dropped are given out again.
pub add_one_lem :
    (config : LimitsSection) {s : Queries}
    → Reach config s
    → (client_id : Uuid) (a : Address) → s.refused a ≡ 0
    → (add_one config client_id a s).0 ≡ (
        if ltb (s.permits a) config.max_concurrent_queries
        then ok a
        else err (too_many_concurrent_queries client_id config.max_concurrent_queries))
unfolding add_one
add_one_lem config {s} r client_id a none_pending = ground (arith, Reach-IsCounted config r a)
