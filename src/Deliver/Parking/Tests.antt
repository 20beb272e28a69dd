-- ===== src/Deliver/Parking/Tests.antt =====
-- The parking of internal/deliver/admission.go with two envelopes that wait for one domain.
use outboxd.Common.{◌≡◌, [], ◌∷◌, codes}
use outboxd.Queue.Samples.{empty}
use outboxd.Deliver.Samples.{letter}
use outboxd.Deliver.Limiter.{new_domain_limiter}
use outboxd.Deliver.Parking.{AdmissionWait, Admission, admission_domain, park_admission}
use outboxd.Deliver.Parking.Fifo.{Parks, park_admission-Parks}
use outboxd.Queue.Envelope.{Envelope}

abbrev first : AdmissionWait
first = record { envelope = letter; kind = admission_domain; key = codes "b.org" }

abbrev second : AdmissionWait
second = record {
  envelope = record letter { id = codes "m2" };
  kind = admission_domain;
  key = codes "b.org";
}

abbrev busy : Admission
busy = record {
  users = new_domain_limiter 4;
  domains = record { limit = 1; slots = (codes "b.org", 1) ∷ [] };
  waiting = first ∷ second ∷ [];
  queue = empty;
}

-- There is room again: the first one that waits is woken, and not the one that parks.
abbrev free : Admission
free = record busy { domains = new_domain_limiter 1 }

park_admission-Parks_example :
    (parked : Envelope) × (parked ≡ record letter { preferred_domain = codes "b.org" })
    × Parks admission_domain
        (codes "b.org")
        (first
          ∷ second
          ∷ record { envelope = parked; kind = admission_domain; key = codes "b.org" }
          ∷ [])
        free
        (park_admission letter admission_domain (codes "b.org") free)
park_admission-Parks_example = park_admission-Parks letter admission_domain (codes "b.org") free
