-- ===== src/Deliver/Outcome/Ends.antt =====
-- What the end of an attempt guarantees.
use outboxd.Common.{
  ◌+◌, ◌≤◌, ◌<◌, ◌≡◌, ◌≢◌, refl, ◌⊎◌, inl, inr, true, false, not, ◌&&◌, Bytes, List, [], ◌∷◌, arith,
  ltb, leb, ◌==◌, map, Bool-cases,
}
use outboxd.Queue.Envelope.{
  Recipient, Envelope, is_pending, is_sent, is_failed, count_status, pending_count,
}
use outboxd.Deliver.Outcome.{
  Action, finishes, buries, retries, parks, expire_recipient, expire_pending, complete, Ending,
  exhaust_recipient, end_attempt, is_empty, is_lifetime,
}

expired-pending : (rs : List Recipient) → count_status is_pending (map expire_recipient rs) ≡ 0
unfolding count_status expire_recipient
expired-pending [] = refl
expired-pending (r ∷ rs) = ground (arith, expired-pending rs)

exhausted-pending : (rs : List Recipient) → count_status is_pending (map exhaust_recipient rs) ≡ 0
unfolding count_status exhaust_recipient
exhausted-pending [] = refl
exhausted-pending (r ∷ rs) = ground (arith, exhausted-pending rs)

-- What an end of the attempt promises of the envelope that goes to the queue.
abbrev pub Promises : Ending → Envelope → Envelope × Action → Type 0
Promises x e (out, finishes) = (pending_count out ≡ 0) × (out ≡ e)
Promises x e (out, buries) = (pending_count out ≡ 0) × (count_status is_failed out.recipients ≢ 0)
Promises x e (out, retries) =
    (pending_count out ≢ 0)
    × (out.recipients ≡ e.recipients)
    × (x.canceled ≡ true
        ⊎ (out.next_attempt ≤ e.created + x.lifetime) × (out.attempts < x.max_attempts))
Promises x e (out, parks domain) =
    (domain ≢ [])
    × (x.canceled ≡ false)
    × (is_lifetime x.cause ≡ false)
    × (pending_count out ≢ 0)
    × (out.recipients ≡ e.recipients)
    × (out.attempts ≡ e.attempts)
    × (out.next_attempt ≡ x.now)

expired-failed :
    (rs : List Recipient)
    → count_status is_failed (map expire_recipient rs)
      ≡ count_status is_pending rs + count_status is_failed rs
unfolding count_status expire_recipient
expired-failed [] = refl
expired-failed (r ∷ rs) = ground (arith, expired-failed rs)

exhausted-failed :
    (rs : List Recipient)
    → count_status is_failed (map exhaust_recipient rs)
      ≡ count_status is_pending rs + count_status is_failed rs
unfolding count_status exhaust_recipient
exhausted-failed [] = refl
exhausted-failed (r ∷ rs) = ground (arith, exhausted-failed rs)

given : (d : Bytes) → not (is_empty d) ≡ true → d ≢ []
given [] h p = cc
given (c ∷ d) h p = cc

complete-Promises : (x : Ending) (e : Envelope) → pending_count e ≡ 0 → Promises x e (complete e)
unfolding complete pending_count
complete-Promises x e p =
    elim (Bool-cases
      (count_status is_sent e.recipients == 0 && ltb 0 (count_status is_failed e.recipients))) [
        | inl b ↦ rw b (p, ground arith)
        | inr b ↦ rw b (p, refl)
      ]

module _ (x : Ending) (e : Envelope) (p : pending_count e ≢ 0) where
  expire-Promises : Promises x e (expire_pending e)
  unfolding expire_pending pending_count
  expire-Promises =
      (expired-pending e.recipients, λ z. p (omega (arith, expired-failed e.recipients)))

  exhaust-Promises :
      Promises x e (record e { recipients = map exhaust_recipient e.recipients }, buries)
  unfolding pending_count
  exhaust-Promises =
      (exhausted-pending e.recipients, λ z. p (omega (arith, exhausted-failed e.recipients)))

-- Every end of an attempt keeps its promise. The envelope that is finished has nobody pending and is
-- left as it is. The one that is buried has nobody pending either, and has a recipient that
-- failed. One that is retried still has a recipient pending and keeps its recipients,
-- and unless the attempt was canceled it comes up again within its lifetime and has attempts left. One
-- that is parked for a domain is so in an attempt that was neither canceled nor ended by the lifetime,
-- names the domain, still has a recipient pending, keeps its recipients and its count of attempts, and
-- is due at once; its attempts may be used up.
pub end_attempt-Promises : (x : Ending) (e : Envelope) → Promises x e (end_attempt x e)
unfolding end_attempt expire_pending
end_attempt-Promises x e = elim (Bool-cases (pending_count e == 0)) [
  | inl p ↦ rw p (complete-Promises x e (ground (arith, p)))
  | inr p ↦
      let q : pending_count e ≢ 0 = λ z. ground (arith, p) in
      simp p (elim (Bool-cases x.canceled) [
        | inl c ↦ simp c (q, refl, inl refl)
        | inr c ↦ simp c (elim (Bool-cases (is_lifetime x.cause)) [
          | inl l ↦ simp l (expire-Promises x e q)
          | inr l ↦ simp l (elim (Bool-cases (not (is_empty x.blocked))) [
            | inl b ↦ simp b (given x.blocked b, c, l, q, refl, refl, refl)
            | inr b ↦ simp b (elim (Bool-cases (leb x.max_attempts e.attempts)) [
              | inl m ↦ simp m (exhaust-Promises x e q)
              | inr m ↦ simp m (q, refl, inr (ground arith, ground arith))
            ])
          ])
        ])
      ])
]
