-- ===== src/Queue/Capacity/Steps.antt =====
-- internal/queue/capacity.go: sequences of accountings and releases.
use outboxd.Common.{ℕ, Bytes, List, [], ◌∷◌}
use outboxd.Queue.Envelope.{Envelope}
use outboxd.Queue.State.{Queue}
use outboxd.Queue.Capacity.{note_added, note_removed, release_reserve}
use outboxd.Queue.Capacity.Accounting.{
  Accounts, note_added-Accounts, note_removed-Accounts, release_reserve-Accounts,
}

pub data Change : Type 0 where
  added : Envelope → Change
  removed : Bytes → Change
  released : ℕ → ℕ → Bytes → Change

unfoldable pub change : Change → Queue → Queue
change (added e) q = (note_added e q).0
change (removed id) q = note_removed id q
change (released size physical owner) q = release_reserve size physical owner q

unfoldable pub changes : List Change → Queue → Queue
changes [] q = q
changes (c ∷ cs) q = changes cs (change c q)

change-Accounts : (c : Change) (q : Queue) → Accounts q → Accounts (change c q)
unfolding change
change-Accounts (added e) q a = note_added-Accounts e q a
change-Accounts (removed id) q a = note_removed-Accounts id q a
change-Accounts (released size physical owner) q a =
    release_reserve-Accounts size physical owner q a

-- Where the counters of the queue and of each owner are the number and the size of the accounted
-- entries, they are so after any sequence of messages accounted for, also refused or counted before,
-- of entries removed, and of reservations released.
pub changes-Accounts : (cs : List Change) (q : Queue) → Accounts q → Accounts (changes cs q)
unfolding changes
changes-Accounts [] q a = a
changes-Accounts (c ∷ cs) q a = changes-Accounts cs (change c q) (change-Accounts c q a)
