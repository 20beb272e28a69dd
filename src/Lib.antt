-- ===== src/Lib.antt =====
-- outboxd, an outbound mail server: it takes submissions by SMTP, keeps them in a durable queue
-- and delivers them to the hosts of the recipients' domains.
--
-- Smtpd models internal/smtpd. ConnLimit is connlimit.go (connectionLimiter.acquire and release,
-- limitListener.Accept, limitedConn.Close), and Tracker its connectionTracker. AuthLimiter is
-- limiter.go: the three maps byIP, byKey and byUser with reserve, failed, canceled and succeeded;
-- Sweep has the pruning and the evictions, Reserve the admission, Steps what happens between two
-- admissions. Login is login.go, AuthDeadline authdeadline.go. Authentication is
-- session.authenticate of session.go, which takes the limiter through an attempt. Session is the
-- mail transaction of session.go (mail, rcpt and reset are Mail, Rcpt and Reset), whose end is
-- Submission: session.Data of data.go. It takes Variants, which is prepareVariants of data.go:
-- the bodies of the recipients, one after the other in what the queue stores. The addresses go
-- through Mailbox (internal/mailbox/mailbox.go) and Config.Senders (User.Allows of
-- internal/config/helpers.go). Config.Domains is DomainFor of internal/config/domains.go, the
-- domain that signs for a sender.
--
-- Queue models internal/queue. Validation is validateEnvelope of validation.go, and Ids
-- identity.go. Envelope is envelope.go. State is the record of what the mutex of Queue guards.
-- Capacity is capacity.go and spool.go with AllocationSize of internal/disk/disk.go (reserve is
-- reserveLocked, note_added is noteAddedLocked). Spool is the rest of spool.go. Identity is
-- matchReady of storage.go. Schedule is schedule.go (push, pop_due and remove_envelope).
-- Transitions is transitions.go with Requeue and RequeueAfter of delivery.go; it works on the
-- state and the schedule of the two modules before it.
--
-- Deliver models internal/deliver. Limiter is limiter.go and Parking admission.go. Selection is
-- the choice of a domain in run.go and the groups of recipients in attempt.go. Domain is the loop
-- over the hosts of a domain in domain.go. Outcome is outcome.go and the switch that ends an
-- attempt in attempt.go. Selection and Outcome work on the envelopes of the queue. Response is
-- the bound on a reply in response.go. Discovery is discovery.go (hosts and lookup_host_ips) over
-- Netpolicy, which models internal/netpolicy. Connect is connect.go with the TLS policy of
-- internal/config/config.go; it dials the addresses that Discovery selects. Send is send.go with
-- the commands of client.go, over the session of Connect. Diagnostic is what a reply leaves
-- behind as text, in response.go.
--
-- Message models internal/message/message.go. Normalize is normalize and split, Fields is scan
-- with the questions about a field, Trace is traceValue, and Prepare is PrepareContext.
--
-- A string is a list of bytes, and a time or a duration a number of nanoseconds. A Go map is an
-- association list in which a key has one entry; the order of the list is some order in which
-- `range` may visit the map. Counters are natural numbers: where the source can subtract below
-- zero the definition writes out what it does there, and where it checks for overflow the largest
-- integer is max_int. A function that holds a mutex throughout is one step, so goroutines
-- interleave as sequences of steps; Parking runs the steps of parkAdmission and of wakeAdmission,
-- which take several locks in turn, without a call of another goroutine in between. The clock,
-- random numbers, the case folding of names beyond ASCII, hashes, IDNA and the answers of the
-- operating system are arguments.
--
-- PopDue's loop moves users out of a heap; its recursion is on fuel, and the number of users in
-- the heap is enough, since each round takes one out. The loop of scan takes a line in each
-- round, and has the number of the header's bytes as fuel. All other recursion follows a list, or
-- the number of rounds of a counted loop.
--
-- Not modelled: sockets, TLS, DNS, files, the cancellation of contexts inside a loop over bytes,
-- and the packages around the queue and the delivery (OpenPGP, DKIM, certificates, the loading of
-- the configuration, commands). The token bucket of rate.go counts with floating-point numbers,
-- which the language does not have.
pub mod Common
pub mod Config
pub mod Deliver
pub mod Mailbox
pub mod Message
pub mod Netpolicy
pub mod Queue
pub mod Smtpd
