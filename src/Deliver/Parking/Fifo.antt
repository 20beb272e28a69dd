-- ===== src/Deliver/Parking/Fifo.antt =====
-- Who is woken in internal/deliver/admission.go, and when.
use outboxd.Common.{
  ℕ, ◌≤◌, ◌≡◌, ◌⊎◌, refl, ap, ◌∙◌, ◌-◌, inl, inr, Bool, true, false, Bytes, some, List, [], ◌∷◌,
  ◌++◌, arith, str_eq_refl, if◌then◌else◌, Bool-cases,
}
use outboxd.Common.Map.{get, get-insert, get-remove}
use outboxd.Queue.Envelope.{Envelope}
use outboxd.Queue.Transitions.{requeue}
use outboxd.Deliver.Limiter.{DomainLimiter, available, release}
use outboxd.Deliver.Parking.{
  AdmissionKind, admission_user, admission_domain, AdmissionWait, Admission, limiter_of, waits_for,
  take_waiter, wake_admission, preferring, park_admission, with_limiter, release_waking,
}

abbrev pub nobody_waits : AdmissionKind → Bytes → List AdmissionWait → Bool
nobody_waits kind key [] = true
nobody_waits kind key (w ∷ ws) = if waits_for kind key w then false else nobody_waits kind key ws

take_waiter-first :
    (kind : AdmissionKind) (key : Bytes) (before after : List AdmissionWait) (w : AdmissionWait)
    → nobody_waits kind key before ≡ true
    → waits_for kind key w ≡ true
    → take_waiter kind key (before ++ w ∷ after) ≡ some (w.envelope, before ++ after)
unfolding take_waiter
take_waiter-first kind key [] after w n h = rw h refl
take_waiter-first kind key (b ∷ before) after w n h = elim (Bool-cases (waits_for kind key b)) [
  | inl e ↦ cc (rw e at n)
  | inr e ↦ rw (e, take_waiter-first kind key before after w (rw e at n) h) refl
]

waits_for_self :
    (kind : AdmissionKind) (key : Bytes) (e : Envelope)
    → waits_for kind key (record { envelope = e; kind = kind; key = key }) ≡ true
waits_for_self admission_user key e = str_eq_refl key
waits_for_self admission_domain key e = str_eq_refl key

release-available :
    (key : Bytes) (l : DomainLimiter) (holders : ℕ)
    → get key l.slots ≡ some holders
    → 1 ≤ holders
    → holders ≤ l.limit
    → available key (release key l) ≡ true
unfolding release available
release-available key l holders g p m =
    ground
      (arith, get-remove key key l.slots, get-insert key key (holders - 1) l.slots, str_eq_refl key)

-- Where there is room, the first one that waits for the capacity goes back to the queue.
wake_admission-first :
    (kind : AdmissionKind) (key : Bytes) (before after : List AdmissionWait) (w : AdmissionWait)
    (s : Admission)
    → s.waiting ≡ before ++ w ∷ after
    → nobody_waits kind key before ≡ true
    → waits_for kind key w ≡ true
    → available key (limiter_of kind s) ≡ true
    → ((wake_admission kind key s).waiting ≡ before ++ after)
      × ((wake_admission kind key s).queue ≡ (requeue w.envelope s.queue).0)
unfolding wake_admission
wake_admission-first kind key before after w s l n h a =
    let taken : take_waiter kind key s.waiting ≡ some (w.envelope, before ++ after) =
      ap (take_waiter kind key) l ∙ take_waiter-first kind key before after w n h in
    rw (a, taken) (refl, refl)

with_limiter-limiter_of :
    (kind : AdmissionKind) (l : DomainLimiter) (s : Admission)
    → (limiter_of kind (with_limiter kind l s) ≡ l)
      × ((with_limiter kind l s).waiting ≡ s.waiting)
      × ((with_limiter kind l s).queue ≡ s.queue)
with_limiter-limiter_of admission_user l s = (refl, refl, refl)
with_limiter-limiter_of admission_domain l s = (refl, refl, refl)

waiting-limiter_of :
    (kind : AdmissionKind) (s : Admission) (ws : List AdmissionWait)
    → limiter_of kind (record s { waiting = ws }) ≡ limiter_of kind s
waiting-limiter_of admission_user s ws = refl
waiting-limiter_of admission_domain s ws = refl

-- The release of a slot that has a holder and no more than the limit lets the first of the
-- envelopes that wait for this very capacity go back to the queue, and keeps the others in order.
pub release_waking-first :
    (kind : AdmissionKind) (key : Bytes) (before after : List AdmissionWait) (w : AdmissionWait)
    (s : Admission) (holders : ℕ)
    → s.waiting ≡ before ++ w ∷ after
    → nobody_waits kind key before ≡ true
    → waits_for kind key w ≡ true
    → get key (limiter_of kind s).slots ≡ some holders
    → 1 ≤ holders
    → holders ≤ (limiter_of kind s).limit
    → ((release_waking kind key s).waiting ≡ before ++ after)
      × ((release_waking kind key s).queue ≡ (requeue w.envelope s.queue).0)
unfolding release_waking
release_waking-first kind key before after w s holders l n h g p m =
    let (same, waiting, queue) = with_limiter-limiter_of kind (release key (limiter_of kind s)) s in
    let room = ap (available key) same ∙ release-available key (limiter_of kind s) holders g p m in
    let (left, requeued) =
      wake_admission-first kind key before after w
        (with_limiter kind (release key (limiter_of kind s)) s) (waiting ∙ l) n h room in
    rw g (left, requeued ∙ ap (λ q. (requeue w.envelope q).0) queue)

-- What an envelope is parked as: for a domain, it prefers this one.
abbrev pub Prefers : AdmissionKind → Bytes → Envelope → Envelope → Type 0
Prefers admission_user key e parked = parked ≡ e
Prefers admission_domain key e parked = parked ≡ record e { preferred_domain = key }

preferring-Prefers :
    (kind : AdmissionKind) (key : Bytes) (e : Envelope) → Prefers kind key e (preferring kind key e)
preferring-Prefers admission_user key e = refl
preferring-Prefers admission_domain key e = refl

-- The first of some waiters that waits for the capacity.
abbrev pub First : AdmissionKind → Bytes → List AdmissionWait → Type 0
First kind key ws =
    (before : List AdmissionWait) × (x : AdmissionWait) × (after : List AdmissionWait) × (ws
      ≡ before ++ x ∷ after)
    × (nobody_waits kind key before ≡ true)
    × (waits_for kind key x ≡ true)

first_waiter_lem :
    (kind : AdmissionKind) (key : Bytes) (ws : List AdmissionWait) (w : AdmissionWait)
    → waits_for kind key w ≡ true
    → First kind key (ws ++ w ∷ [])
first_waiter_lem kind key [] w h = ([], w, [], refl, refl, h)
first_waiter_lem kind key (x ∷ ws) w h = elim (Bool-cases (waits_for kind key x)) [
  | inl e ↦ ([], x, ws ++ w ∷ [], refl, refl, e)
  | inr e ↦
      let (before, y, after, same, nobody, waits) = first_waiter_lem kind key ws w h in
      (x ∷ before, y, after, ap (λ ys. x ∷ ys) same, rw e nobody, waits)
]

-- What `park_admission` does with the waiters, the new one at their end included.
abbrev pub Parks : AdmissionKind → Bytes → List AdmissionWait → Admission → Admission → Type 0
Parks kind key ws s t =
    ((available key (limiter_of kind s) ≡ false) × (t.waiting ≡ ws) × (t.queue ≡ s.queue))
    ⊎ ((available key (limiter_of kind s) ≡ true)
        × ((f : First kind key ws) × (t.waiting ≡ f.0 ++ f.2)
            × (t.queue ≡ (requeue f.1.envelope s.queue).0)))

-- An envelope that is parked, with no other call between the steps of this one, is put at the end of
-- those that wait, and if it waits for a domain it prefers this domain from then on. Without room for
-- what it waits for that is all. With room the first one that waits for the same, which may be the
-- envelope itself, goes back to the queue, and the others keep their order.
pub park_admission-Parks :
    (e : Envelope) (kind : AdmissionKind) (key : Bytes) (s : Admission)
    → (parked : Envelope) × Prefers kind key e parked
      × Parks kind key
          (s.waiting ++ record { envelope = parked; kind = kind; key = key } ∷ [])
          s
          (park_admission e kind key s)
unfolding park_admission wake_admission
park_admission-Parks e kind key s =
    let parked = preferring kind key e in
    let w : AdmissionWait = record { envelope = parked; kind = kind; key = key } in
    let start : Admission = record s { waiting = s.waiting ++ w ∷ [] } in
    let same = ap (available key) (waiting-limiter_of kind s (s.waiting ++ w ∷ [])) in
    (
      parked,
      preferring-Prefers kind key e,
      elim (Bool-cases (available key (limiter_of kind s))) [
        | inr full ↦
            let kept : wake_admission kind key start ≡ start =
              rw (wake_admission, same ∙ full) refl in
            inl (full, ap (λ (t : Admission). t.waiting) kept, ap (λ (t : Admission). t.queue) kept)
        | inl room ↦
            let found = first_waiter_lem kind key s.waiting w (waits_for_self kind key parked) in
            let (before, x, after, split, nobody, waits) = found in
            let (left, requeued) =
              wake_admission-first kind key before after x start split nobody waits (same ∙ room) in
            inr (room, (found, left, requeued))
      ],
    )
