-- ===== src/Subscriptions/Delivery.antt =====
-- Who is told of a change.
use Prim.Native.Nat.{zero, suc}
use squirreldb.Base.{
  ℕ, ◌+◌, ◌≡◌, inl, inr, refl, sym, ◌∙◌, ap, arith, Text, text_eq, text_eq_iff, ◌==◌, true, false,
  ◌&&◌, Bool-cases, Option, none, some, Option-cases, List, [], ◌∷◌, ◌++◌, if◌then◌else◌,
}
use mathlib.Core.List.{append-nil}
use squirreldb.Subscriptions.{
  Uuid, Entry, SubscriptionManager, or_default, find, Engine, Change, ChangeEvent, message_for,
  messages, process_change,
}
use squirreldb.Subscriptions.Index.{Reach, Reach-IsIndexed}
use squirreldb.Subscriptions.Counts.{count, is_for}

-- The events that were sent for a subscription of a client, in order.
unfoldable pub sent_to :
    {N : Type 0} → Uuid → Text → List (Uuid × Text × ChangeEvent N) → List (ChangeEvent N)
sent_to c id [] = []
sent_to c id ((d, s, event) ∷ out) =
    let rest = sent_to c id out in if d == c && text_eq s id then event ∷ rest else rest

sent_to-append :
    {N : Type 0} (c : Uuid) (id : Text) (xs ys : List (Uuid × Text × ChangeEvent N))
    → sent_to c id (xs ++ ys) ≡ sent_to c id xs ++ sent_to c id ys
unfolding sent_to
sent_to-append c id [] ys = refl
sent_to-append c id ((d, s, event) ∷ xs) ys = elim (Bool-cases (d == c && text_eq s id)) [
  | inl same ↦ rw (same) (ap (◌∷◌ event) (sent_to-append c id xs ys))
  | inr other ↦ rw (other) (sent_to-append c id xs ys)
]

abbrev pub repeat {ℓ} : {A : Type ℓ} → ℕ → A → List A
repeat zero a = []
repeat (suc n) a = a ∷ repeat n a

abbrev repeated {ℓ} : {A : Type ℓ} → ℕ → Option A → List A
repeated n (some a) = repeat n a
repeated n none = []

repeated-zero {ℓ} : {A : Type ℓ} (o : Option A) → repeated 0 o ≡ []
repeated-zero (some a) = refl
repeated-zero none = refl

-- The message for an entry, in front of those for the entries behind it.
abbrev with_message :
    {N : Type 0}
    → Entry
    → Option (ChangeEvent N)
    → List (Uuid × Text × ChangeEvent N)
    → List (Uuid × Text × ChangeEvent N)
with_message (d, s) (some event) rest = (d, s, event) ∷ rest
with_message e none rest = rest

module _ {N : Type 0} (c d : Uuid) (id s : Text) (rest : List (Uuid × Text × ChangeEvent N)) where
  message_counts :
      (o : Option (ChangeEvent N)) (n : ℕ)
      → d == c && text_eq s id ≡ true
      → sent_to c id rest ≡ repeated n o
      → sent_to c id (with_message (d, s) o rest) ≡ repeated (1 + n) o
  unfolding sent_to
  message_counts (some event) n same h =
      let next : 1 + n ≡ suc n = ground arith in rw (same, next) (ap (◌∷◌ event) h)
  message_counts none n same h = h

  message_passes :
      (o : Option (ChangeEvent N))
      → d == c && text_eq s id ≡ false
      → sent_to c id (with_message (d, s) o rest) ≡ sent_to c id rest
  unfolding sent_to
  message_passes (some event) other = rw (other) refl
  message_passes none other = refl

module _ {N : Type 0} (engine : Engine N) (change : Change N) where
  -- What a subscription to the collection is to be told of the change.
  unfoldable pub due : Uuid → Text → SubscriptionManager N → List (ChangeEvent N)
  due c id m =
      if is_for change.collection (find c id m.subs)
      then elim (message_for engine change (c, id) m.subs) [ some event ↦ event ∷ [] | none ↦ [] ]
      else []

  messages-cons :
      (e : Entry) (es : List Entry) (m : SubscriptionManager N)
      → messages engine change (e ∷ es) m.subs
        ≡ with_message e (message_for engine change e m.subs) (messages engine change es m.subs)
  unfolding messages
  messages-cons (d, s) es m = elim (Option-cases (message_for engine change (d, s) m.subs)) [
    | inl silent ↦ rw (silent, messages) refl
    | inr (event, told) ↦ rw (told, messages) refl
  ]

  messages_none :
      (c : Uuid) (id : Text) (m : SubscriptionManager N)
      → sent_to c id (messages engine change [] m.subs) ≡ []
  unfolding messages sent_to
  messages_none c id m = refl

  due_lem :
      (c : Uuid) (id : Text) (m : SubscriptionManager N)
      → due c id m
        ≡ repeated
            (if is_for change.collection (find c id m.subs) then 1 else 0)
            (message_for engine change (c, id) m.subs)
  unfolding due
  due_lem c id m = elim (Bool-cases (is_for change.collection (find c id m.subs))) [
    | inl is ↦ rw (is) (elim (Option-cases (message_for engine change (c, id) m.subs)) [
      | inl silent ↦ rw (silent) refl
      | inr (event, told) ↦ rw (told) refl
    ])
    | inr isnt ↦ rw (isnt) (sym (repeated-zero (message_for engine change (c, id) m.subs)))
  ]

  out_tx-process_change :
      (m : SubscriptionManager N)
      → (process_change engine change m).out_tx
        ≡ m.out_tx
          ++ messages engine change (or_default (m.collection_index change.collection)) m.subs
  unfolding process_change messages
  out_tx-process_change m = elim (Option-cases (m.collection_index change.collection)) [
    | inl unknown ↦ rw (unknown, process_change) (sym (append-nil m.out_tx))
    | inr (es, known) ↦ rw (known, process_change) refl
  ]

  sent_to-messages :
      (c : Uuid) (id : Text) (es : List Entry) (m : SubscriptionManager N)
      → sent_to c id (messages engine change es m.subs)
        ≡ repeated (count c id es) (message_for engine change (c, id) m.subs)
  unfolding count
  sent_to-messages c id [] m =
      messages_none c id m ∙ sym (repeated-zero (message_for engine change (c, id) m.subs))
  sent_to-messages c id ((d, s) ∷ es) m =
      let rest = messages engine change es m.subs in
      let ind = sent_to-messages c id es m in
      elim (Bool-cases (d == c && text_eq s id)) [
        | inl same ↦
            let is : (d ≡ c) × (s ≡ id) = ground (arith, text_eq_iff s id) in
            let one : message_for engine change (d, s) m.subs
                ≡ message_for engine change (c, id) m.subs =
              rw (is.0, is.1) refl in
            rw (messages-cons (d, s) es m, one, same)
              (message_counts c d id s rest _ (count c id es) same ind)
        | inr other ↦
            let none_added : 0 + count c id es ≡ count c id es = ground arith in
            rw (messages-cons (d, s) es m, other, none_added)
              (message_passes c d id s rest _ other ∙ ind)
      ]

  -- A change adds to what was sent for a subscription what is due to it.
  pub process_change_lem :
      {m : SubscriptionManager N}
      → Reach engine m
      → (c : Uuid) (id : Text)
      → sent_to c id (process_change engine change m).out_tx ≡ sent_to c id m.out_tx ++ due c id m
  process_change_lem {m} r c id =
      let (unique, indexed) = Reach-IsIndexed engine r in
      let es = or_default (m.collection_index change.collection) in
      ap (sent_to c id) (out_tx-process_change m)
      ∙ sent_to-append c id m.out_tx (messages engine change es m.subs)
      ∙ ap (λ sent. sent_to c id m.out_tx ++ sent)
          (sent_to-messages c id es m
            ∙ ap (λ n. repeated n (message_for engine change (c, id) m.subs))
                (indexed c id change.collection)
            ∙ sym (due_lem c id m))

  pub subs-process_change :
      (m : SubscriptionManager N) → (process_change engine change m).subs ≡ m.subs
  unfolding process_change
  subs-process_change m = elim (Option-cases (m.collection_index change.collection)) [
    | inl unknown ↦ rw (unknown, process_change) refl
    | inr (es, known) ↦ rw (known, process_change) refl
  ]
