-- ===== src/Smtpd/Tracker/Shutdown.antt =====
-- The shutdown of internal/smtpd/connlimit.go leaves no connection open.
use outboxd.Common.{
  ℕ, zero, suc, ◌<◌, ◌≡◌, refl, ap, ◌⊎◌, inl, inr, Bool, true, false, ◌||◌, List, [], ◌∷◌, ◌++◌,
  arith, ◌==◌, Bool-cases,
}
use Prim.{absurd}
use outboxd.Smtpd.Tracker.{
  ConnectionTracker, new_connection_tracker, accept_tracked, close_tracked, snapshot,
  begin_close_all, close_pending, close_next,
}

pub data Step : Type 0 where
  accepts begins_close_all closes_next : Step
  -- A session closes its own connection.
  closes : ℕ → Step

unfoldable pub step : Step → ConnectionTracker → ConnectionTracker
step accepts t = accept_tracked t
step begins_close_all t = begin_close_all t
step closes_next t = close_next t
step (closes i) t = close_tracked i t

unfoldable pub run : List Step → ConnectionTracker → ConnectionTracker
run [] t = t
run (x ∷ xs) t = run xs (step x t)

unfoldable member : ℕ → List ℕ → Bool
member i [] = false
member i (j ∷ js) = j == i || member i js

-- A connection that is open is in the map before the shutdown, or its Close is still to come.
abbrev Watched : ConnectionTracker → Type 0
Watched t =
    (i : ℕ)
    → t.opened i ≡ true
    → (t.closed ≡ false) × (t.conns i ≡ true) × (i < t.next) ⊎ (member i t.pending ≡ true)

member-append : (i : ℕ) (xs ys : List ℕ) → member i (xs ++ ys) ≡ (member i xs || member i ys)
unfolding member
member-append i [] ys = refl
member-append i (x ∷ xs) ys = ground (arith, member-append i xs ys)

member-snapshot :
    (n : ℕ) (conns : ℕ → Bool) (i : ℕ) → i < n → conns i ≡ true → member i (snapshot n conns) ≡ true
unfolding member snapshot
member-snapshot zero conns i l h = absurd (omega arith)
member-snapshot (suc n) conns i l h = ground (arith, member-snapshot n conns i)

accept-Watched : (t : ConnectionTracker) → Watched t → Watched (accept_tracked t)
unfolding accept_tracked member
accept-Watched t w i o = ground (arith, w i, member-append i t.pending (t.next ∷ []))

close-Watched : (k : ℕ) (t : ConnectionTracker) → Watched t → Watched (close_tracked k t)
unfolding close_tracked
close-Watched k t w i o = ground (arith, w i)

begin-Watched : (t : ConnectionTracker) → Watched t → Watched (begin_close_all t)
unfolding begin_close_all
begin-Watched t w i o = inr (
    ground (
      arith,
      w i o,
      member-append i (snapshot t.next t.conns) t.pending,
      member-snapshot t.next t.conns i,
    ))

pending-Watched :
    (ps : List ℕ) (t : ConnectionTracker)
    → t.pending ≡ ps
    → Watched t
    → Watched (close_pending ps t)
unfolding close_tracked member
pending-Watched [] t e w i o = w i o
pending-Watched (j ∷ rest) t e w i o =
    let same : member i t.pending ≡ (j == i || member i rest) = ap (member i) e in
    ground (arith, w i, same)

step-Watched : (x : Step) (t : ConnectionTracker) → Watched t → Watched (step x t)
unfolding step close_next
step-Watched accepts t w = accept-Watched t w
step-Watched begins_close_all t w = begin-Watched t w
step-Watched closes_next t w = pending-Watched t.pending t refl w
step-Watched (closes i) t w = close-Watched i t w

run-Watched : (xs : List Step) (t : ConnectionTracker) → Watched t → Watched (run xs t)
unfolding run
run-Watched [] t w = w
run-Watched (x ∷ xs) t w = run-Watched xs (step x t) (step-Watched x t w)

-- Whatever connections come in and close before, during and after closeAll, and however its calls of
-- Close mix with them: where it has begun and no such call is left to be made, no connection is open.
pub run-new_connection_tracker :
    (xs : List Step) (i : ℕ)
    → (run xs new_connection_tracker).closed ≡ true
    → (run xs new_connection_tracker).pending ≡ []
    → (run xs new_connection_tracker).opened i ≡ false
unfolding member
run-new_connection_tracker xs i c p =
    let w = run-Watched xs new_connection_tracker (λ j o. cc) i in
    let none : member i (run xs new_connection_tracker).pending ≡ false = ap (member i) p in
    elim (Bool-cases ((run xs new_connection_tracker).opened i)) [
      | inl o ↦ absurd (ground (arith, w o, none))
      | inr o ↦ o
    ]
