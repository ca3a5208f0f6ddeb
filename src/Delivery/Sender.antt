-- ===== src/Delivery/Sender.antt =====
-- internal/delivery/sender.go: one Send, which walks the recipient's MX hosts. The network is a
-- parameter, `Net`: how each step of a connection to a host ends, `none` for success. Composing and
-- signing the message is the parameter `prepare`.
pub mod Reports
pub mod Hosts
pub mod Deadline
pub mod Signing
use doevoe.Base.{
  ℕ, Text, Bool, true, false, Option, none, some, List, [], ◌∷◌, codes, leb, if◌then◌else◌, take,
  after_last_at, trim_dot,
}
use doevoe.Store.{Email, Domain}
use doevoe.Delivery.Classify.{SendError, smtp_error, temp, perm, classify, send_error_text}
use doevoe.Delivery.Worker.{SendResult}

-- net.MX
pub record Mx : Type 0 where
  pub host : Text
  pub pref : ℕ

-- One connection: dialing, the commands of go-smtp's client, and the QUIT.
pub record Session : Type 0 where
  pub dial : Option SendError
  pub start_tls : Option SendError  -- NewClientStartTLS
  pub hello_tls : Option SendError  -- Hello after it
  pub redial : Option SendError  -- the second dial, for plaintext
  pub hello_plain : Option SendError
  pub mail : Option SendError
  pub rcpt : Option SendError
  pub data_command : Option SendError
  pub write : Option SendError
  pub close : Option SendError  -- the reply to the end of the data
  pub quit : Option SendError

pub data Connected : Type 0 where
  connected : Bool → Connected  -- whether TLS is used
  not_connected : SendError → Connected

abbrev pub is_smtp_error : SendError → Bool
is_smtp_error (smtp_error code message text) = true
is_smtp_error _ = false

-- plaintext(): a dial and the EHLO.
plaintext : Option SendError → Option SendError → Connected
plaintext (some e) hello = not_connected e
plaintext none (some e) = not_connected e
plaintext none none = connected false

-- After a failed STARTTLS or a failed EHLO under TLS: an SMTP-level rejection is final.
or_plaintext : Session → SendError → Connected
unfolding plaintext
or_plaintext n e = if is_smtp_error e then not_connected e else plaintext n.redial n.hello_plain

connect_tls : Session → Option SendError → Option SendError → Option SendError → Connected
unfolding or_plaintext
connect_tls n (some e) tls hello = not_connected e
connect_tls n none (some e) hello = or_plaintext n e
connect_tls n none none (some e) = or_plaintext n e
connect_tls n none none none = connected true

-- connect, with or without a TLS configuration.
unfoldable pub connect : Bool → Session → Connected
unfolding connect_tls plaintext
connect true n = connect_tls n n.dial n.start_tls n.hello_tls
connect false n = plaintext n.dial n.hello_plain

-- The first error of the commands after EHLO, QUIT included.
first_error : List (Option SendError) → Option SendError
first_error [] = none
first_error (some e ∷ rest) = some e
first_error (none ∷ rest) = first_error rest

pub data Delivered : Type 0 where
  delivered : Bool → Delivered
  undelivered : SendError → Delivered

conclude : Bool → Option SendError → Delivered
conclude tls none = delivered tls
conclude tls (some e) = undelivered e

talk : Session → Connected → Delivered
unfolding first_error conclude
talk n (not_connected e) = undelivered e
talk n (connected tls) =
    conclude tls (first_error (n.mail ∷ n.rcpt ∷ n.data_command ∷ n.write ∷ n.close ∷ n.quit ∷ []))

-- deliverTo
unfoldable pub deliver_to : Bool → Session → Delivered
unfolding talk connect
deliver_to tls_config n = talk n (connect tls_config n)

-- sort.Slice by preference; hosts of one preference in the order of the lookup, as the insertion sort
-- leaves them that it uses for up to twelve elements. For more it does not say in which order.
unfoldable pub insert_mx : Mx → List Mx → List Mx
insert_mx m [] = m ∷ []
insert_mx m (x ∷ xs) =
    let rest = insert_mx m xs in if leb m.pref x.pref then m ∷ x ∷ xs else x ∷ rest

unfoldable pub sort_mx : List Mx → List Mx
unfolding insert_mx
sort_mx [] = []
sort_mx (m ∷ ms) = insert_mx m (sort_mx ms)

abbrev pub max_mx_attempts : ℕ
max_mx_attempts = 3

-- The hosts that Send walks; without an MX record the domain itself.
unfoldable pub targets : Text → List Mx → List Mx
unfolding sort_mx
targets rcpt_domain [] =
    take max_mx_attempts (sort_mx (record { host = rcpt_domain; pref = 0 } ∷ []))
targets rcpt_domain (m ∷ ms) = take max_mx_attempts (sort_mx (m ∷ ms))

-- How the walk over the hosts ends: accepted by a host, or the last error and its host; beside it
-- the hosts that were tried.
pub data Walked : Type 0 where
  accepted_by : Text → Bool → Walked
  failed_at : Text → SendError → Walked
  no_host : Walked

pub record Walk : Type 0 where
  pub ended : Walked
  pub tried : List Text

abbrev also_tried : Text → Walk → Walk
also_tried host w = record { ended = w.ended; tried = host ∷ w.tried }

-- A later host decides, unless there is none.
abbrev or_last : Text → SendError → Walk → Walk
or_last host e w = also_tried host (record w {
  ended = elim w.ended [
    | accepted_by h t ↦ accepted_by h t
    | failed_at h x ↦ failed_at h x
    | no_host ↦ failed_at host e
  ];
})

step_walk : Text → Walk → Delivered → Walk
step_walk host later (delivered tls) = record { ended = accepted_by host tls; tried = host ∷ [] }
step_walk host later (undelivered e) = elim (classify e) [
  | perm ↦ record { ended = failed_at host e; tried = host ∷ [] }
  | temp ↦ or_last host e later
]

-- The loop over the hosts of Send.
unfoldable pub walk : (Text → Delivered) → List Mx → Walk
unfolding step_walk
walk deliver [] = record { ended = no_host; tried = [] }
walk deliver (m ∷ ms) =
    let host = trim_dot m.host in let later = walk deliver ms in step_walk host later (deliver host)

-- fail(): code and response of an SMTP error, the text of another.
unfoldable pub failure : Text → ℕ → SendError → SendResult
failure host duration (smtp_error code message text) = record {
  mx_host = host;
  code = code;
  response = message;
  duration = duration;
  error = some (smtp_error code message text);
  tls = false;
}
failure host duration e = record {
  mx_host = host;
  code = 0;
  response = send_error_text e;
  duration = duration;
  error = some e;
  tls = false;
}

pub data Prepared : Type 0 where
  prepared : Text → Prepared
  unprepared : SendError → Prepared

pub data MxLookup : Type 0 where
  mx_records : List Mx → MxLookup
  mx_failed : SendError → MxLookup

pub record Sender : Type 0 where
  pub prepare : Email → Domain → Prepared  -- BuildMessage and SignMessage
  pub lookup_mx : Text → MxLookup
  pub has_tls_config : Bool
  pub session : Text → Text → Text → Text → Session  -- of host, from, to and message

-- The walk over at least one host ends with an error or an acceptance.
abbrev pub result_of : ℕ → Walked → SendResult
result_of duration (accepted_by host tls) = record {
  mx_host = host;
  code = 250;
  response = codes "accepted";
  duration = duration;
  error = none;
  tls = tls;
}
result_of duration (failed_at host e) = failure host duration e
result_of duration no_host = record {
  mx_host = [];
  code = 0;
  response = [];
  duration = duration;
  error = none;
  tls = false;
}

unfoldable pub send_hosts : Sender → Email → ℕ → Text → MxLookup → SendResult
unfolding walk deliver_to failure targets
send_hosts s e duration msg (mx_failed x) = failure [] duration x
send_hosts s e duration msg (mx_records mxs) =
    result_of duration
      (walk (λ host. deliver_to s.has_tls_config (s.session host e.from e.to msg))
        (targets (after_last_at e.to) mxs)).ended

unfoldable pub send_prepared : Sender → Email → ℕ → Prepared → SendResult
unfolding send_hosts
send_prepared s e duration (unprepared x) = failure [] duration x
send_prepared s e duration (prepared msg) =
    send_hosts s e duration msg (s.lookup_mx (after_last_at e.to))

-- Send; `duration` is the time that it takes.
unfoldable pub send : Sender → ℕ → Email → Domain → SendResult
unfolding send_prepared
send s duration e d = send_prepared s e duration (s.prepare e d)
