-- ===== src/Queue/Capacity/Effects.antt =====
-- What noteAddedLocked and noteRemoved of internal/queue/capacity.go do to the maps by ID.
use outboxd.Common.{
  ◌≡◌, refl, ◌⊎◌, inl, inr, Bytes, none, some, arith, if◌then◌else◌, str_eq, str_eq_iff,
  Option-cases,
}
use outboxd.Common.Map.{get, get-insert, get-remove}
use outboxd.Queue.Envelope.{Envelope}
use outboxd.Queue.State.{AccountedEntry, Queue}
use outboxd.Queue.Capacity.{
  note_added, note_added_found, note_fresh, note_removed, note_removed_found, accounted_entry,
}

pub note_removed_effects :
    (id j : Bytes) (q : Queue)
    → (get id q.accounted ≡ none) × (note_removed id q ≡ q)
      ⊎ (get j (note_removed id q).scheduled ≡ (if str_eq id j then none else get j q.scheduled))
        × (get j (note_removed id q).accounted ≡ (if str_eq id j then none else get j q.accounted))
        × ((note_removed id q).blocked ≡ q.blocked)
unfolding note_removed note_removed_found
note_removed_effects id j q = elim (Option-cases (get id q.accounted)) [
  | inl e ↦ inl (e, rw (e, note_removed_found) refl)
  | inr (a, e) ↦
      inr (rw e (get-remove id j q.scheduled), rw e (get-remove id j q.accounted), rw e refl)
]

pub note_added_effects :
    (e : Envelope) (q : Queue)
    → ((note_added e q).0.scheduled ≡ q.scheduled) × ((note_added e q).0.blocked ≡ q.blocked)
unfolding note_added note_added_found note_fresh
note_added_effects e q = (ground arith, ground arith)

-- An entry that is accounted stays as it is.
pub note_added_keeps :
    (e : Envelope) (q : Queue) (j : Bytes) (a : AccountedEntry)
    → get j q.accounted ≡ some a
    → get j (note_added e q).0.accounted ≡ some a
unfolding note_added note_added_found note_fresh
note_added_keeps e q j a h =
    ground (arith, str_eq_iff e.id j, get-insert e.id j (accounted_entry e) q.accounted)
