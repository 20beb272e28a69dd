-- ===== src/Smtpd/Submission/Runs.antt =====
-- internal/smtpd/data.go: the steps of session.Data that cannot run out of an index.
use Prim.{⊥}
use outboxd.Common.{Bool, true, false, ◌≡◌, refl}
use outboxd.Common.Result.{Result, ok, err, ◌>>=◌, ◌>>◌}
use outboxd.Smtpd.Session.{Reply}
use outboxd.Smtpd.Variants.{
  VariantError, key_lookup_failed, encryption_failed, key_disappeared, signing_failed,
  message_too_large,
}
use outboxd.Smtpd.Submission.{
  Stop, replies, closes, index_out_of_range, or_stop, stop_if, stop_at, prepare_reply, sign_reply,
  variant_reply, PrepareFailure, data_too_large, rejected, SignError, signed_too_large, sign_failed,
}

-- A step does not run out of an index.
abbrev pub Runs : {A : Type 0} → Result Stop A → Type 0
Runs (ok a) = Unit
Runs (err (replies r)) = Unit
Runs (err (closes r)) = Unit
Runs (err index_out_of_range) = ⊥

pub Runs-bind :
    {A B : Type 0} (m : Result Stop A) (f : A → Result Stop B)
    → Runs m
    → ((a : A) → m ≡ ok a → Runs (f a))
    → Runs (m >>= f)
Runs-bind (ok a) f h k = k a refl
Runs-bind (err (replies r)) f h k = tt
Runs-bind (err (closes r)) f h k = tt
Runs-bind (err index_out_of_range) f h k = h

-- A stop with a reply.
abbrev pub Answers : Stop → Type 0
Answers (replies r) = Unit
Answers (closes r) = Unit
Answers index_out_of_range = ⊥

pub Answers-Runs : (A : Type 0) (stop : Stop) → Answers stop → Runs {A = A} (err stop)
Answers-Runs A (replies r) h = tt
Answers-Runs A (closes r) h = tt
Answers-Runs A index_out_of_range h = h

pub Runs-or_stop :
    {E A : Type 0} (f : E → Stop) (m : Result E A) → ((e : E) → Answers (f e)) → Runs (or_stop f m)
Runs-or_stop f (ok a) h = tt
Runs-or_stop {A = A} f (err e) h = Answers-Runs A (f e) (h e)

pub prepare_reply-Answers :
    (expired : Bool) (e : PrepareFailure) → Answers (prepare_reply expired e)
prepare_reply-Answers true e = tt
prepare_reply-Answers false data_too_large = tt
prepare_reply-Answers false (rejected text) = tt

pub sign_reply-Answers : (expired : Bool) (e : SignError) → Answers (sign_reply expired e)
sign_reply-Answers true e = tt
sign_reply-Answers false signed_too_large = tt
sign_reply-Answers false sign_failed = tt

pub variant_reply-Answers : (expired : Bool) (e : VariantError) → Answers (variant_reply expired e)
variant_reply-Answers true e = tt
variant_reply-Answers false message_too_large = tt
variant_reply-Answers false key_lookup_failed = tt
variant_reply-Answers false encryption_failed = tt
variant_reply-Answers false key_disappeared = tt
variant_reply-Answers false signing_failed = tt

pub Runs-stop_at : (expired : Bool) → Runs (stop_at expired)
Runs-stop_at true = tt
Runs-stop_at false = tt

pub Runs-stop_if : (bad : Bool) (r : _) → Runs (stop_if bad r)
Runs-stop_if true r = tt
Runs-stop_if false r = tt

pub stops-Runs :
    (a b c e : Bool) (p q r t : Reply)
    → Runs (stop_if a p >> (stop_if b q >> (stop_if c r >> stop_if e t)))
stops-Runs true b c e p q r t = tt
stops-Runs false true c e p q r t = tt
stops-Runs false false true e p q r t = tt
stops-Runs false false false true p q r t = tt
stops-Runs false false false false p q r t = tt
