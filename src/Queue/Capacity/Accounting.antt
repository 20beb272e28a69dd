-- ===== src/Queue/Capacity/Accounting.antt =====
-- The accounting of internal/queue/capacity.go counts what is stored, for the queue and each owner.
use outboxd.Common.{
  ℕ, ◌+◌, ◌≡◌, ◌≢◌, refl, inl, inr, Bytes, Option, none, some, [], ◌∷◌, arith, str_eq, str_eq_iff,
  str_eq_cases, if◌then◌else◌, ◌==◌, Option-cases, Bool-cases,
}
use outboxd.Common.Map.{
  Map, get, insert, remove, get-insert, get-remove, total, total-insert, total-remove, Distinct,
  insert-Distinct, remove-Distinct,
}
use outboxd.Queue.Envelope.{Envelope}
use outboxd.Queue.State.{Queue, AccountedEntry, UserUsage, max_int, checked_add, or_no_usage}
use outboxd.Queue.Capacity.{
  accounted_entry, add_message, drop_message, note_added_found, note_fresh, note_added,
  note_removed_found, note_removed, add_usage, drop_usage, release_reserve, drop_reservation,
}

abbrev one : Bytes → AccountedEntry → ℕ
one id e = 1

abbrev sized : Bytes → AccountedEntry → ℕ
sized id e = e.size

abbrev one_of : Bytes → Bytes → AccountedEntry → ℕ
one_of owner id e = if str_eq e.owner owner then 1 else 0

abbrev sized_of : Bytes → Bytes → AccountedEntry → ℕ
sized_of owner id e = if str_eq e.owner owner then e.size else 0

-- The counters are the number and the size of the entries accounted for, and for each owner but
-- the empty one, which pays for no quota, those of the owner's entries.
pub record Accounts (q : Queue) : Type 0 where
  pub distinct : Distinct q.accounted
  pub count : q.count ≡ total one q.accounted
  pub bytes : q.bytes ≡ total sized q.accounted
  pub user_messages :
      (owner : Bytes)
      → owner ≢ []
      → (or_no_usage (get owner q.users)).messages ≡ total (one_of owner) q.accounted
  pub user_bytes :
      (owner : Bytes)
      → owner ≢ []
      → (or_no_usage (get owner q.users)).bytes ≡ total (sized_of owner) q.accounted

-- An owner without entries has no bytes.
unowned :
    (owner : Bytes) (m : Map AccountedEntry)
    → total (one_of owner) m ≡ 0
    → total (sized_of owner) m ≡ 0
unfolding total
unowned owner [] h = refl
unowned owner ((id, e) ∷ m) h = ground (arith, unowned owner m)

checked_add-eq : (a b c : ℕ) → checked_add a b ≡ some c → c ≡ a + b
unfolding checked_add
checked_add-eq a b c h = ground arith

module _ (e : Envelope) (q : Queue) (a : Accounts q) (fresh : get e.id q.accounted ≡ none) where
  abbrev entry : AccountedEntry
  entry = accounted_entry e

  added_users : Map UserUsage
  added_users = add_usage entry.owner entry.size q.users

  added_usage :
      (owner : Bytes)
      → owner ≢ []
      → (or_no_usage (get owner added_users)) ≡ (
          if str_eq entry.owner owner
          then add_message (or_no_usage (get owner q.users)) entry.size
          else or_no_usage (get owner q.users))
  unfolding added_users
  added_usage owner n = ground (
    arith,
    str_eq_iff entry.owner [],
    str_eq_iff entry.owner owner,
    get-insert entry.owner owner (add_message (or_no_usage (get entry.owner q.users)) entry.size)
        q.users,
  )

  added-Accounts : Accounts (record q {
    accounted = insert e.id entry q.accounted;
    count = q.count + 1;
    bytes = q.bytes + e.size;
    users = added_users;
  })
  unfolding accounted_entry add_message
  added-Accounts = record {
    distinct = insert-Distinct e.id entry q.accounted a.distinct;
    count = ground (arith, a.count, total-insert one e.id entry q.accounted);
    bytes = ground (arith, a.bytes, total-insert sized e.id entry q.accounted);
    user_messages = λ owner n. ground (
      arith,
      a.user_messages owner n,
      added_usage owner n,
      total-insert (one_of owner) e.id entry q.accounted,
    );
    user_bytes = λ owner n. ground (
      arith,
      a.user_bytes owner n,
      added_usage owner n,
      total-insert (sized_of owner) e.id entry q.accounted,
    );
  }

  note_fresh-Accounts :
      (o : Option ℕ) → checked_add q.bytes e.size ≡ o → Accounts (note_fresh o e q).0
  unfolding note_fresh added_users accounted_entry
  note_fresh-Accounts none h = a
  note_fresh-Accounts (some b) h = elim (Bool-cases (q.count == max_int)) [
    | inl m ↦ rw m a
    | inr m ↦ rw (m, checked_add-eq q.bytes e.size b h) added-Accounts
  ]

-- Where the counters of the queue and of each owner are the number and the size of the accounted
-- entries, they are so after a message is accounted for, also where it is refused or was counted
-- before.
pub note_added-Accounts : (e : Envelope) (q : Queue) → Accounts q → Accounts (note_added e q).0
unfolding note_added
note_added-Accounts e q a = elim (Option-cases (get e.id q.accounted)) [
  | inl f ↦ rw (f, note_added_found) (note_fresh-Accounts e q a f (checked_add q.bytes e.size) refl)
  | inr (x, f) ↦ rw (f, note_added_found) a
]

module _ (id : Bytes) (q : Queue) (a : Accounts q) (entry : AccountedEntry)
    (found : get id q.accounted ≡ some entry) where
  left_users : Map UserUsage
  left_users = drop_usage entry.owner entry.size q.users

  left : Map AccountedEntry
  left = remove id q.accounted

  left_usage :
      (owner : Bytes)
      → owner ≢ []
      → ((or_no_usage (get owner left_users)).messages ≡ total (one_of owner) left)
        × ((or_no_usage (get owner left_users)).bytes ≡ total (sized_of owner) left)
  unfolding left_users left drop_message
  left_usage owner n = ground (
    arith,
    str_eq_iff entry.owner [],
    str_eq_iff entry.owner owner,
    a.user_messages owner n,
    a.user_bytes owner n,
    total-remove (one_of owner) id q.accounted a.distinct,
    total-remove (sized_of owner) id q.accounted a.distinct,
    found,
    unowned owner (remove id q.accounted),
    get-remove entry.owner owner q.users,
    get-insert entry.owner owner (drop_message (or_no_usage (get entry.owner q.users)) entry.size)
        q.users,
  )

-- Where the counters of the queue and of each owner are the number and the size of the accounted
-- entries, they are so after an entry is removed, also where its owner, left without messages and
-- reservations, is deleted.
pub note_removed-Accounts : (id : Bytes) (q : Queue) → Accounts q → Accounts (note_removed id q)
unfolding note_removed left left_users drop_message
note_removed-Accounts id q a = elim (Option-cases (get id q.accounted)) [
  | inl f ↦ rw (f, note_removed_found) a
  | inr (entry, f) ↦
      rw (f, note_removed_found)
        (record {
          distinct = remove-Distinct id q.accounted a.distinct;
          count = ground (arith, a.count, total-remove one id q.accounted a.distinct, f);
          bytes = ground (arith, a.bytes, total-remove sized id q.accounted a.distinct, f);
          user_messages = λ owner n. (left_usage id q a entry f owner n).0;
          user_bytes = λ owner n. (left_usage id q a entry f owner n).1;
        })
]

-- Where the counters of the queue and of each owner are the number and the size of the accounted
-- entries, they are so after the release of a reservation.
pub release_reserve-Accounts :
    (size physical : ℕ) (owner : Bytes) (q : Queue)
    → Accounts q
    → Accounts (release_reserve size physical owner q)
unfolding release_reserve
release_reserve-Accounts size physical owner q a = elim (str_eq_cases owner []) [
  | inl (e, _) ↦ rw e (record {
    distinct = a.distinct;
    count = a.count;
    bytes = a.bytes;
    user_messages = a.user_messages;
    user_bytes = a.user_bytes;
  })
  | inr (e, _) ↦ rw e (record {
    distinct = a.distinct;
    count = a.count;
    bytes = a.bytes;
    user_messages = λ o n. ground (
      arith,
      a.user_messages o n,
      str_eq_iff owner o,
      get-insert owner o (drop_reservation (or_no_usage (get owner q.users)) size) q.users,
    );
    user_bytes = λ o n. ground (
      arith,
      a.user_bytes o n,
      str_eq_iff owner o,
      get-insert owner o (drop_reservation (or_no_usage (get owner q.users)) size) q.users,
    );
  })
]
