-- ===== src/Deliver/Send/Tests.antt =====
-- Transactions of internal/deliver/send.go with concrete peers.
use outboxd.Common.{ℕ, zero, suc, true, codes, str_eq, Option, none, some, List, [], ◌∷◌, ◌≡◌, refl}
use outboxd.Common.Map.{get}
use outboxd.Common.Result.{ok}
use outboxd.Common.Utf8.{decode_rune, trim_left_after, trim_right_after, trim_space, runes_after}
use outboxd.Queue.Envelope.{
  Recipient, sent, failed, pending, message_size, message_eight_bit, body_of,
}
use outboxd.Queue.Ids.{decimal, decimal_digits}
use outboxd.Deliver.Samples.{letter, two}
use outboxd.Deliver.Response.{smtp_code, smtp_enhanced_code, permanent}
use outboxd.Deliver.Connect.{Failure, reply, extension, to_upper_ascii}
use outboxd.Deliver.Diagnostic.{to_valid_after, write_runes, normalize_diagnostic, describe_reply}
use outboxd.Deliver.Send.{
  Peer, done, fails, temporary_rcpt, describe, mail_command, modify_at, reject_recipient,
  reject_smtp, pending_indexes, rcpt_each, rcpt_batch, rcpt_all, note_result, note_results,
  mark_sent, refuse, send_body, send_rcpt, transact, send,
}
use outboxd.Deliver.Send.Fates.{HaveFates}
use outboxd.Deliver.Send.Outcomes.{send-HaveFates}

abbrev later : Failure
later = reply (record { code = 450; enhanced_code = []; message = codes "later" })

abbrev never : Failure
never = reply (record { code = 550; enhanced_code = codes "5.7.1"; message = codes "no" })

abbrev rcpt_reply : ℕ → Option Failure
rcpt_reply zero = none
rcpt_reply (suc i) = some later

-- The first recipient is accepted, the second one is not yet.
abbrev peer : Peer
peer = record {
  session = ok (record { ext = (codes "PIPELINING", []) ∷ []; tls = true; verified = true });
  mail_reply = λ command. none;
  batch_write = none;
  rcpt_reply = rcpt_reply;
  open_error = none;
  data_reply = none;
  body_length = 700;
  copy_error = none;
  final_reply = ok (codes "250 ok");
}

abbrev after : List Recipient
after =
    record {
      address = codes "x@a.org";
      domain = codes "a.org";
      body = 0;
      status = sent;
      detail = codes "mx: 250 ok";
      code = 0;
      enhanced_code = [];
    }
    ∷ record {
      address = codes "y@b.org";
      domain = codes "b.org";
      body = 0;
      status = pending;
      detail = codes "450 later";
      code = 0;
      enhanced_code = [];
    }
    ∷ []

half_sent :
    send peer (codes "mx") letter (0 ∷ 1 ∷ [])
    ≡ some (after, fails (temporary_rcpt (codes "y@b.org: 450 later" ∷ [])))
unfolding send transact send_rcpt send_body refuse mark_sent note_results note_result rcpt_all
    rcpt_batch rcpt_each pending_indexes reject_smtp reject_recipient modify_at mail_command
    describe describe_reply normalize_diagnostic write_runes to_valid_after extension to_upper_ascii
    get str_eq trim_space trim_left_after trim_right_after runes_after decode_rune decimal
    decimal_digits message_size message_eight_bit body_of smtp_code smtp_enhanced_code permanent
half_sent = refl

-- The next candidate refuses the sender: the recipient that is sent becomes failed.
sent_then_failed :
    send
      (record peer { mail_reply = λ command. some never })
      (codes "mx2")
      (record letter { recipients = after })
      (0 ∷ 1 ∷ [])
    ≡ some (
      record {
        address = codes "x@a.org";
        domain = codes "a.org";
        body = 0;
        status = failed;
        detail = codes "550 no";
        code = 550;
        enhanced_code = codes "5.7.1";
      }
          ∷ record {
            address = codes "y@b.org";
            domain = codes "b.org";
            body = 0;
            status = failed;
            detail = codes "550 no";
            code = 550;
            enhanced_code = codes "5.7.1";
          }
          ∷ [],
      done,
    )
unfolding send transact send_rcpt send_body refuse mark_sent note_results note_result rcpt_all
    rcpt_batch rcpt_each pending_indexes reject_smtp reject_recipient modify_at mail_command
    describe describe_reply normalize_diagnostic write_runes to_valid_after extension to_upper_ascii
    get str_eq trim_space trim_left_after trim_right_after runes_after decode_rune decimal
    decimal_digits message_size message_eight_bit body_of smtp_code smtp_enhanced_code permanent
sent_then_failed = refl

send-HaveFates_example :
    (size : ℕ) × (message_size letter 0 ≡ some size) × HaveFates peer size two (0 ∷ 1 ∷ []) after
send-HaveFates_example =
    send-HaveFates peer (codes "mx") letter 0 (1 ∷ []) after
      (fails (temporary_rcpt (codes "y@b.org: 450 later" ∷ []))) half_sent
