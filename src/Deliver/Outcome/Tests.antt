-- ===== src/Deliver/Outcome/Tests.antt =====
-- The end of an attempt of internal/deliver at concrete values.
use outboxd.Common.{false, []}
use outboxd.Deliver.Samples.{letter}
use outboxd.Deliver.Outcome.{Ending, no_cause, end_attempt}
use outboxd.Deliver.Outcome.Ends.{Promises, end_attempt-Promises}

abbrev over : Ending
over = record {
  now = 1500;
  lifetime = 9000;
  max_attempts = 3;
  delay = 600;
  canceled = false;
  cause = no_cause;
  blocked = [];
}

end_attempt-Promises_example : Promises over letter (end_attempt over letter)
end_attempt-Promises_example = end_attempt-Promises over letter
