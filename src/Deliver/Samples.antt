-- ===== src/Deliver/Samples.antt =====
-- An envelope with a recipient at each of two domains, for the tests of internal/deliver.
use outboxd.Common.{false, List, [], ◌∷◌, codes}
use outboxd.Queue.Envelope.{Recipient, Envelope, pending}

abbrev pub two : List Recipient
two =
    record {
      address = codes "x@a.org";
      domain = codes "a.org";
      body = 0;
      status = pending;
      detail = [];
      code = 0;
      enhanced_code = [];
    }
    ∷ record {
      address = codes "y@b.org";
      domain = codes "b.org";
      body = 0;
      status = pending;
      detail = [];
      code = 0;
      enhanced_code = [];
    }
    ∷ []

abbrev pub letter : Envelope
letter = record {
  id = codes "m1";
  incarnation = codes "i1";
  revision = 1;
  username = codes "alice";
  sender = codes "alice@example.org";
  recipients = two;
  bodies = [];
  size = 700;
  created = 1000;
  attempts = 1;
  next_attempt = 2000;
  last_error = [];
  smtp_utf8 = false;
  eight_bit = false;
  body_digest = [];
  dsn_id = [];
  dsn_source_id = [];
  dsn_source_incarnation = [];
  dsn_source_revision = 0;
  dsn_generation = 0;
  preferred_domain = codes "b.org";
}
