-- ===== src/Queue/Identity/Tests.antt =====
-- An update of a stored envelope of internal/queue/storage.go after an attempt.
use outboxd.Common.{◌≡◌, refl, false, codes, str_eq}
use outboxd.Common.Result.{ok}
use outboxd.Queue.Envelope.{Envelope}
use outboxd.Queue.Samples.{letter}
use outboxd.Queue.Identity.{
  same_bodies, same_recipients, same_message_content, same_dsn_source_linkage, same_dsn_linkage,
  same_message_identity, match_loaded, match_ready_update,
}
use outboxd.Queue.Identity.Fixed.{Kept, match_ready_update-Kept}

abbrev attempted : Envelope
attempted = record letter { attempts = 2; next_attempt = 9000; last_error = codes "timeout" }

let_through : match_ready_update false (ok letter) attempted ≡ ok tt
unfolding match_ready_update match_loaded same_message_identity same_message_content
    same_dsn_linkage same_dsn_source_linkage same_bodies same_recipients str_eq
let_through = refl

match_ready_update-Kept_example : Kept letter attempted × (attempted.dsn_id ≡ letter.dsn_id)
match_ready_update-Kept_example = match_ready_update-Kept false letter attempted let_through
