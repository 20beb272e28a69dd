-- ===== src/Queue/Identity.antt =====
-- internal/queue/storage.go: which updates of a stored envelope matchReadyUpdate lets through. What is
-- stored, or the error of loading it, is an argument. incrementRevision is in validation.go.
pub mod Fixed
mod Tests
use outboxd.Common.{
  ℕ, ◌+◌, ◌-◌, ◌^◌, Bool, true, false, not, ◌&&◌, ◌||◌, Bytes, Option, none, some, List, [], ◌∷◌,
  length, leb, ◌==◌, if◌then◌else◌, str_eq,
}
use outboxd.Common.Result.{Result, ok, err}
use outboxd.Queue.Envelope.{Body, Recipient, Envelope}
use outboxd.Queue.State.{QueueError, id_conflict}

abbrev bool_eq : Bool → Bool → Bool
bool_eq true b = b
bool_eq false b = not b

unfoldable pub same_body : Body → Body → Bool
same_body a b =
    a.offset == b.offset
    && (a.size == b.size && (str_eq a.digest b.digest && bool_eq a.eight_bit b.eight_bit))

-- The loops end at the first pair that differs; lists of different lengths are refused before them.
unfoldable pub same_bodies : List Body → List Body → Bool
unfolding same_body
same_bodies [] [] = true
same_bodies (a ∷ xs) (b ∷ ys) = same_body a b && same_bodies xs ys
same_bodies _ _ = false

unfoldable pub same_recipients : List Recipient → List Recipient → Bool
same_recipients [] [] = true
same_recipients (a ∷ xs) (b ∷ ys) =
    (str_eq a.address b.address && (str_eq a.domain b.domain && a.body == b.body))
    && same_recipients xs ys
same_recipients _ _ = false

unfoldable pub same_message_content : Envelope → Envelope → Bool
unfolding same_bodies same_recipients
same_message_content current updated =
    str_eq current.username updated.username
    && (str_eq current.sender updated.sender
        && (current.created == updated.created
            && (bool_eq current.smtp_utf8 updated.smtp_utf8
                && (bool_eq current.eight_bit updated.eight_bit
                    && (same_bodies current.bodies updated.bodies
                        && same_recipients current.recipients updated.recipients)))))

unfoldable pub same_dsn_source_linkage : Envelope → Envelope → Bool
same_dsn_source_linkage current updated =
    str_eq current.dsn_source_id updated.dsn_source_id
    && (str_eq current.dsn_source_incarnation updated.dsn_source_incarnation
        && (current.dsn_source_revision == updated.dsn_source_revision
            && current.dsn_generation == updated.dsn_generation))

unfoldable pub same_dsn_linkage : Envelope → Envelope → Bool
unfolding same_dsn_source_linkage
same_dsn_linkage current updated =
    str_eq current.dsn_id updated.dsn_id && same_dsn_source_linkage current updated

unfoldable pub same_message_identity : Envelope → Envelope → Bool
unfolding same_message_content same_dsn_linkage
same_message_identity current updated =
    same_message_content current updated && same_dsn_linkage current updated

unfoldable pub adds_dsn_link : Envelope → Envelope → Bool
unfolding same_dsn_source_linkage
adds_dsn_link current updated =
    str_eq current.dsn_id []
    && (not (str_eq updated.dsn_id []) && same_dsn_source_linkage current updated)

-- matchReadyUpdate, once the stored envelope is loaded.
unfoldable pub match_loaded : Bool → Envelope → Envelope → Result QueueError (Unit {0})
unfolding same_message_content same_message_identity adds_dsn_link
match_loaded allow_dsn_link current e =
    if not (str_eq current.incarnation e.incarnation)
    then err id_conflict
    else if not (current.revision == e.revision)
    then err id_conflict
    else if not (current.size == e.size && str_eq current.body_digest e.body_digest)
    then err id_conflict
    else if (if allow_dsn_link
        then same_message_content current e && adds_dsn_link current e
        else same_message_identity current e)
    then ok tt
    else err id_conflict

unfoldable pub match_ready_update :
    Bool → Result QueueError Envelope → Envelope → Result QueueError (Unit {0})
match_ready_update allow_dsn_link (err x) e = err x
match_ready_update allow_dsn_link (ok current) e = match_loaded allow_dsn_link current e

-- matchReady
unfoldable pub match_ready : Result QueueError Envelope → Envelope → Result QueueError (Unit {0})
unfolding match_ready_update
match_ready current e = match_ready_update false current e
