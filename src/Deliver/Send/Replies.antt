-- ===== src/Deliver/Send/Replies.antt =====
-- internal/deliver/send.go: the recipients after the replies to RCPT.
use outboxd.Common.{
  ℕ, true, ◌&&◌, ◌||◌, codes, Option, none, some, List, [], ◌∷◌, ◌++◌, length, get_elem?, ltb, ◌==◌,
  ==_iff, ◌≡◌, inl, inr, refl, subst, arith, All, Bool-cases, Option-cases,
}
use outboxd.Queue.Envelope.{Recipient, is_pending}
use outboxd.Deliver.Response.{permanent}
use outboxd.Deliver.Connect.{Failure, as_smtp, Client, extension}
use outboxd.Deliver.Send.{
  Peer, Progress, pending_indexes, rcpt_each, rcpt_batch, rcpt_all, note_result, note_results,
  set_detail, is_transport,
}
use outboxd.Deliver.Send.Fates.{
  among, to_rcpt, AreTaken, HaveFates, modify_at-HaveFates, reject_smtp-HaveFates, set_detail-Fate,
}

module _ (p : Peer) (size : ℕ) (before : List Recipient) (indexes : List ℕ) where
  abbrev pub IsTarget : ℕ → Type 0
  IsTarget j =
      (among j indexes ≡ true)
      × ((r : Recipient) → get_elem? before j ≡ some r → is_pending r.status ≡ true)

  -- A result is the reply for a pending recipient of the group.
  abbrev pub IsReply : ℕ × Option Failure → Type 0
  IsReply (i, result) = IsTarget i × (p.rcpt_reply i ≡ result)

  abbrev pub Progresses : Progress → Type 0
  Progresses s =
      HaveFates p size before indexes s.recipients × AreTaken p size before indexes s.accepted

  among-append : (xs : List ℕ) (i j : ℕ) → among j (xs ++ i ∷ []) ≡ (among j xs || i == j)
  among-append [] i j = ground arith
  among-append (x ∷ xs) i j = ground (arith, among-append xs i j)

  append-AreTaken :
      (xs : List ℕ) (i : ℕ)
      → IsTarget i
      → p.rcpt_reply i ≡ none
      → AreTaken p size before indexes xs
      → AreTaken p size before indexes (xs ++ i ∷ [])
  append-AreTaken xs i (known, waits) took taken = λ j m. elim (Bool-cases (i == j)) [
    | inl e ↦
        let same : i ≡ j = (==_iff i j).0 e in
        (
          subst (λ k. among k indexes ≡ true) same known,
          subst (λ k. p.rcpt_reply k ≡ none) same took,
          subst (λ k. (r : Recipient) → get_elem? before k ≡ some r → is_pending r.status ≡ true)
              same waits,
        )
    | inr e ↦ taken j (ground (arith, among-append xs i j))
  ]

  note_result-Progresses :
      (i : ℕ) (result : Option Failure) (s : Progress)
      → IsReply (i, result)
      → Progresses s
      → Progresses (note_result i result s)
  unfolding note_result
  note_result-Progresses i none s (target, replied) (h, taken) =
      (h, append-AreTaken s.accepted i target replied taken)
  note_result-Progresses i (some f) s (target, replied) (h, taken) =
      elim (Bool-cases (permanent (as_smtp f))) [
        | inl e ↦
            rw (e, note_result)
              (
                reject_smtp-HaveFates p size before indexes s.recipients (i ∷ []) f e
                    (λ j m.
                      let same : i ≡ j = ground arith in
                      (
                        subst (λ k. among k indexes ≡ true) same target.0,
                        to_rcpt (subst (λ k. p.rcpt_reply k ≡ some f) same replied),
                      ))
                    h,
                taken,
              )
        | inr e ↦
            rw (e, note_result)
              (
                modify_at-HaveFates p size before indexes s.recipients i (set_detail f)
                    (λ r r' _ fate. set_detail-Fate p size before indexes f i r r' fate) h,
                taken,
              )
      ]

  pub note_results-Progresses :
      (results : List (ℕ × Option Failure)) (s : Progress)
      → All IsReply results
      → Progresses s
      → Progresses (note_results results s)
  unfolding note_results
  note_results-Progresses [] s replies h = h
  note_results-Progresses ((i, result) ∷ results) s replies h =
      note_results-Progresses results (note_result i result s) replies.1
        (note_result-Progresses i result s replies.0 h)

  pub pending_indexes-AreTargets :
      (is : List ℕ)
      → ((j : ℕ) → among j is ≡ true → among j indexes ≡ true)
      → All IsTarget (pending_indexes before is)
  unfolding pending_indexes
  pending_indexes-AreTargets [] within = tt
  pending_indexes-AreTargets (i ∷ is) within =
      let rest = pending_indexes-AreTargets is (λ j m. within j (ground arith)) in
      elim (Option-cases (get_elem? before i)) [
        | inl e ↦ rw (pending_indexes, e) rest
        | inr (r, e) ↦ elim (Bool-cases (is_pending r.status)) [
          | inl w ↦
              rw (pending_indexes, e, w)
                (
                  (
                    within i (ground arith),
                    λ q at. let same : r ≡ q = cc in subst (λ v. is_pending v.status ≡ true) same w,
                  ),
                  rest,
                )
          | inr w ↦ rw (pending_indexes, e, w) rest
        ]
      ]

  rcpt_each-AreReplies : (is : List ℕ) → All IsTarget is → All IsReply (rcpt_each p is)
  unfolding rcpt_each
  rcpt_each-AreReplies [] h = tt
  rcpt_each-AreReplies (i ∷ is) h = ((h.0, refl), rcpt_each-AreReplies is h.1)

  rcpt_batch-AreReplies : (is : List ℕ) → All IsTarget is → All IsReply (rcpt_batch p is).0
  unfolding rcpt_batch
  rcpt_batch-AreReplies [] h = tt
  rcpt_batch-AreReplies (i ∷ is) h = elim (Bool-cases (is_transport (p.rcpt_reply i))) [
    | inl e ↦ rw (rcpt_batch, e) ((h.0, refl), tt)
    | inr e ↦ rw (rcpt_batch, e) ((h.0, refl), rcpt_batch-AreReplies is h.1)
  ]

  pub rcpt_all-AreReplies :
      (c : Client) (is : List ℕ) → All IsTarget is → All IsReply (rcpt_all p c is).0
  unfolding rcpt_all
  rcpt_all-AreReplies c is h =
      elim (Bool-cases (extension c (codes "PIPELINING") && ltb 1 (length is))) [
        | inr e ↦ rw (rcpt_all, e) (rcpt_each-AreReplies is h)
        | inl e ↦ elim (Option-cases p.batch_write) [
          | inr (text, f) ↦ rw (rcpt_all, e, f) tt
          | inl f ↦ rw (rcpt_all, e, f) (rcpt_batch-AreReplies is h)
        ]
      ]
