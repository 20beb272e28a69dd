-- ===== src/Smtpd/Session/Tests.antt =====
-- internal/smtpd/session.go: runs of a mail transaction.
use outboxd.Common.{true, false, codes, str_eq, none, some, List, [], ◌∷◌, ◌≡◌, refl}
use outboxd.Common.Strings.{
  has_prefix, has_suffix, contains, last_index_byte, split_at_byte, to_lower_ascii,
}
use outboxd.Common.Utf8.{
  valid_utf8, valid_after, decode_rune, trim_space, trim_left_after, trim_right_after, runes_after,
  has_high_bit,
}
use outboxd.Config.Senders.{allows}
use outboxd.Mailbox.{
  routing_domain, ascii_domain, check_domain, check_ascii, convert, domain_of, split_address,
  validate_address, check_mailbox_domain, address,
}
use outboxd.Mailbox.AsciiNames.{ascii_names}
use outboxd.Smtpd.Authentication.{User}
use outboxd.Smtpd.Session.{
  Session, Server, check_mail, mail, check_rcpt, add_rcpt, rcpt, start, route, needs_utf8, after_at,
  seven_bit, auth_required, sender_not_allowed, too_many_recipients,
}
use outboxd.Smtpd.Session.Transaction.{
  Command, mail_from, rcpt_to, step, run, IsSound, run-start-IsSound,
}

abbrev alice : User
alice = record {
  username = codes "alice";
  password_hash = [];
  allowed_senders = codes "*@a.org" ∷ [];
  enabled = true;
}

abbrev server : Server
server = record {
  parse = λ value. some ([], value);
  to_ascii = ascii_names;
  equal_fold = str_eq;
  max_message_bytes = 1000;
  max_recipients = 1;
}

abbrev commands : List Command
commands =
    rcpt_to (codes "b@b.net")
    ∷ mail_from (codes "al@a.org") none
    ∷ rcpt_to (codes "b@b.net")
    ∷ rcpt_to (codes "b@b.net")
    ∷ rcpt_to (codes "c@b.net")
    ∷ []

abbrev ready : Session
ready = record {
  user = alice;
  sender = codes "al@a.org";
  recipients = codes "b@b.net" ∷ [];
  smtp_utf8 = false;
  body = seven_bit;
}

-- The first recipient comes before the sender, the second is repeated and the third is one too many.
transaction : run server (start alice) commands ≡ ready
unfolding run step mail rcpt check_mail check_rcpt add_rcpt route after_at needs_utf8 start allows
    address validate_address check_mailbox_domain routing_domain ascii_domain check_domain
    check_ascii convert ascii_names domain_of split_address valid_utf8 valid_after decode_rune
    trim_space trim_left_after trim_right_after runes_after has_prefix has_suffix contains
    split_at_byte last_index_byte to_lower_ascii str_eq has_high_bit
transaction = refl

other_sender : (mail server (start alice) (codes "al@b.org") none).1 ≡ some sender_not_allowed
unfolding mail check_mail needs_utf8 start allows address validate_address check_mailbox_domain
    ascii_domain check_domain check_ascii convert ascii_names split_address valid_utf8 valid_after
    decode_rune trim_space trim_left_after trim_right_after runes_after has_prefix has_suffix
    contains split_at_byte last_index_byte to_lower_ascii str_eq has_high_bit
other_sender = refl

no_user :
    (mail server (start (record alice { username = [] })) (codes "al@a.org") none).1
    ≡ some auth_required
unfolding mail check_mail start
no_user = refl

one_too_many : (add_rcpt server ready (codes "c@b.net")).1 ≡ some too_many_recipients
unfolding add_rcpt str_eq
one_too_many = refl

run-start-IsSound_example : IsSound server (run server (start alice) commands)
run-start-IsSound_example = run-start-IsSound server alice commands
