-- ===== src/Lib.antt =====
-- doevoe, a small service that sends email: an API queues emails in SQLite, a worker delivers them
-- over SMTP with retries, an operator cancels and retries them, and a notifier reports failures.
--
-- The parts, and the files that model them:
--   Store (internal/store): the rows, the database, and one SQL statement as a function of the
--     database. A method runs its statements through `exec`, which the driver may refuse. Store/Emails
--     has the queue (EnqueueEmail, ClaimDue, RequeueStaleSending, MarkSent, MarkRetry, MarkFailed),
--     Store/Operator CancelEmail and RequeueEmail, Store/Listing ListEmails and ListAPIKeys,
--     Store/Attempts, Store/Domains, Store/ApiKeys and Store/Notify the other tables, Store/Stats
--     the counts for the dashboard and the mails, Store/Open Open and migrate on a file.
--   Delivery (internal/delivery): Backoff (backoff.go), Classify (classify.go), Worker (worker.go:
--     Tick, process, retryOrFail), Worker/Schedule (the goroutines and semaphores of a tick, run
--     by a schedule, which is the list of the places of those that take the steps), Message
--     (message.go: BuildMessage and the header checks), Sender (sender.go: Send, deliverTo,
--     connect), Sender/Signing (SignMessage, NewSender), Sender/Deadline (ctxBoundConn).
--   Api (internal/api/api.go): Requests has auth and the checks of a request, Post postEmail, Get
--     getEmail.
--   DnsCheck (internal/dnscheck/dnscheck.go): Check. DkimKeys (internal/dkimkeys/dkimkeys.go):
--     keys and DNS records. Config (internal/config/config.go): Load.
--   Notify (internal/notify/notifier.go): enqueue, PermanentFailure, DigestTick; Rates has
--     KeyCreated, KeyRevoked and RateTick, Monthly StatsTick and a round of Run, and
--     the files named Kept show which calls leave the time of the last digest alone.
--   Server (cmd/doevoe/main.go): checkDomain and the hourly recheck of the DNS records. Server/Routes
--     has the patterns of the mux (also api.go, admin.go: Routes), Server/Serve their handlers,
--     Server/Shutdown the end of the process.
--   Admin (internal/admin/admin.go): the operator's handlers. Session has login, logout and auth,
--     Emails the page of an email, retry and cancel, Periods the period of the list of emails,
--     Listing the list with its links, Domains, Keys and Dashboard those pages. A page is the data
--     that its template is given.
--   System: the steps of these parts on the shared store, one handler at a time, and what they reach.
--     System/Live: the same with the goroutines of the worker, whose steps come between the statements
--     of the others; Growth has the life of an email, Repeated two requests of one Idempotency-Key.
--     Live/Served: the responses of the server as runs of it. Store/Calls has the calls of the store
--     that they are made of, and the files named Stepwise show, module by module, that they are made
--     of those alone.
--     Base has the shared helpers, Examples the concrete runs.
--
-- State is passed explicitly: `Store` has the database, the clock and the faults of the driver that
-- are to come. A handler maps a store to its result and the next store. Text is a list of byte codes;
-- case folding and white space are those of ASCII. Times are numbers of nanoseconds, and stored
-- timestamps numbers of whole seconds, of which 0 is the empty string. Integers are unbounded: ids,
-- attempts and durations stay far below 2 ^ 63, and are natural numbers; the number of a domain in a
-- query is an integer, as it may be negative.
--
-- Parameters, as code outside of the repository: parsing of addresses and JSON, word encoding and
-- quoting (records `Formats` and `Env`), the network of a send (`Session`), MX lookup and DKIM
-- signing (`Sender`), the DNS resolver, printing of numbers and times (`Printing`), the hash of an
-- API key, random bytes, RSA, PEM and base64 (`Crypto`), the parsing of dates and numbers and the
-- LIKE of the email list (`Parsing`), quotients in floating point (`Rates`, `Calendar`), months, also
-- monthRange (`Calendar`), and the numbers of the environment (`Numbers`).
--
-- Not modelled: calendar arithmetic and floating point, which are parameters; templates
-- of the admin pages; the timers of the loops Run; the wiring of the start-up. The loops
-- over lists are structural recursion, so no fuel is needed but for `read_head`, which takes one
-- more than the number of headers that it is to read. A schedule of a tick is finite; six rounds
-- for each email of the batch are enough, as a goroutine has six steps at most.
pub mod Base
pub mod Store
pub mod Delivery
pub mod Api
pub mod DnsCheck
pub mod Notify
pub mod DkimKeys
pub mod Config
pub mod Server
pub mod Admin
pub mod System
pub mod Examples
