-- ===== src/Queue/Samples.antt =====
-- A small envelope and an empty queue, for the tests of internal/queue.
use outboxd.Common.{false, [], codes}
use outboxd.Queue.Envelope.{Envelope}
use outboxd.Queue.State.{Limits, Queue}
use outboxd.Queue.Schedule.{empty_schedule}

abbrev pub letter : Envelope
letter = record {
  id = codes "m1";
  incarnation = codes "i1";
  revision = 1;
  username = codes "alice";
  sender = codes "alice@example.org";
  recipients = [];
  bodies = [];
  size = 700;
  created = 1000;
  attempts = 1;
  next_attempt = 2000;
  last_error = [];
  smtp_utf8 = false;
  eight_bit = false;
  body_digest = [];
  dsn_id = [];
  dsn_source_id = [];
  dsn_source_incarnation = [];
  dsn_source_revision = 0;
  dsn_generation = 0;
  preferred_domain = [];
}

abbrev pub limits : Limits
limits = record {
  max_messages = 10;
  max_bytes = 5000;
  max_messages_per_user = 2;
  max_bytes_per_user = 1000;
  max_spool_bytes = 1000000;
  spool_emergency_bytes = 1000;
  min_free_disk = 0;
}

abbrev pub empty : Queue
empty = record {
  limits = limits;
  count = 0;
  bytes = 0;
  accounted = [];
  scheduled = [];
  transitioning = [];
  requeues = [];
  reserved = 0;
  res_bytes = 0;
  users = [];
  spool_bytes = 0;
  spool_reserved = 0;
  blocked = [];
  pending = empty_schedule;
  closing = false;
  active = 0;
}
