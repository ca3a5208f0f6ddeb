-- ===== src/Delivery/Sender/Signing/Sent.antt =====
-- What a Send that reports no error has done.
use doevoe.Base.{
  ℕ, ◌≤◌, ◌≡◌, refl, sym, ◌∙◌, arith, Text, Bool, true, none, some, List, [], map, length,
  length-map, IsIn, inl, inr, Fallible, value, failure, ◌>>=◌, after_last_at,
}
use doevoe.Store.{Email, Domain}
use doevoe.DkimKeys.{Crypto, parse_private_key}
use doevoe.Delivery.Classify.{SendError, smtp_error, dns_error, other_error}
use doevoe.Delivery.Message.{Formats, Built, built, invalid, build_message}
use doevoe.Delivery.Worker.{SendResult}
use doevoe.Delivery.Sender.{
  Mx, Session, Prepared, prepared, unprepared, MxLookup, mx_records, mx_failed, Sender, Delivered,
  delivered, deliver_to, Walked, accepted_by, failed_at, no_host, walk, targets,
  failure as send_failure, result_of, send_hosts, send_prepared, send,
}
use doevoe.Delivery.Sender.Reports.{Accepted, deliver_to-Accepted}
use doevoe.Delivery.Sender.Hosts.{
  Tried, nowhere, accepted, rejected, exhausted, onward, host_of, walk-Tried, targets-length,
}
use doevoe.Delivery.Sender.Signing.{
  SignOptions, options, sign_message, of_signed, of_built, prepare_message, new_sender,
}

-- The host that a walk ends with is one of its hosts, and took the delivery.
accepted-IsIn :
    (deliver : Text → Delivered) (hosts tried : List Text) (ended : Walked) (host : Text)
    (tls : Bool)
    → Tried deliver hosts tried ended
    → ended ≡ accepted_by host tls
    → IsIn host hosts × (deliver host ≡ delivered tls)
accepted-IsIn deliver _ _ _ host tls nowhere h = cc
accepted-IsIn deliver _ _ _ host tls (accepted {host = g} {tls = u} d) h =
    let same : g ≡ host = cc in
    let same_tls : u ≡ tls = cc in (inl (sym same), rw (sym same, sym same_tls) d)
accepted-IsIn deliver _ _ _ host tls (rejected d p) h = cc
accepted-IsIn deliver _ _ _ host tls (exhausted d p) h = cc
accepted-IsIn deliver _ _ _ host tls (onward d p t) h =
    let (there, took) = accepted-IsIn deliver _ _ _ host tls t h in (inr there, took)

-- A walk over some host has a decision.
decided :
    (deliver : Text → Delivered) (hosts tried : List Text) (ended : Walked)
    → Tried deliver hosts tried ended
    → 1 ≤ length hosts
    → ended ≡ no_host
    → ⊥
decided deliver _ _ _ nowhere some_host h = omega (arith, some_host)
decided deliver _ _ _ (accepted d) some_host h = cc
decided deliver _ _ _ (rejected d p) some_host h = cc
decided deliver _ _ _ (exhausted d p) some_host h = cc
decided deliver _ _ _ (onward d p t) some_host h = decided deliver _ _ _ t (omega arith) h

failure-error :
    (host : Text) (duration : ℕ) (e : SendError) → (send_failure host duration e).error ≡ some e
unfolding send_failure
failure-error host duration (smtp_error code message text) = refl
failure-error host duration (dns_error not_found text) = refl
failure-error host duration (other_error text) = refl

failure_none :
    (host : Text) (duration : ℕ) (e : SendError) → (send_failure host duration e).error ≡ none → ⊥
failure_none host duration e h = cc (failure-error host duration e)

module _ (c : Crypto) (sign : SignOptions c → Text → Fallible Text) (fm : Formats) (hostname : Text)
    (at : ℕ) (id_bytes boundary_bytes : List ℕ) (network : ℕ → Text → Text → Text → Text → Session)
    (port : ℕ) (lookup : Text → MxLookup) where
  -- The message of the email, built and signed with the key of its domain, was accepted by one of
  -- the first three hosts for the recipient's domain.
  pub record Sent (e : Email) (d : Domain) (res : SendResult) : Type 0 where
    pub msg : Text
    pub is_built : build_message fm e hostname at id_bytes boundary_bytes ≡ built msg
    pub key : c.Key
    pub is_key : parse_private_key c d.dkim_private_key ≡ value key
    pub signed : Text
    pub is_signed : sign (options c sign d key) msg ≡ value signed
    pub mxs : List Mx
    pub looked_up : lookup (after_last_at e.to) ≡ mx_records mxs
    pub is_target : IsIn res.mx_host (map host_of (targets (after_last_at e.to) mxs))
    pub is_accepted : Accepted (network port res.mx_host e.from e.to signed)

  abbrev pub sender : Sender
  sender = new_sender c sign fm hostname network port lookup at id_bytes boundary_bytes

  -- How the signed text came about.
  record Signed (e : Email) (d : Domain) (signed : Text) : Type 0 where
    msg : Text
    is_built : build_message fm e hostname at id_bytes boundary_bytes ≡ built msg
    key : c.Key
    is_key : parse_private_key c d.dkim_private_key ≡ value key
    is_signed : sign (options c sign d key) msg ≡ value signed

  prepared-Signed :
      (e : Email) (d : Domain) (signed : Text)
      → prepare_message c sign fm hostname at id_bytes boundary_bytes e d ≡ prepared signed
      → Signed e d signed
  unfolding prepare_message
  prepared-Signed e d signed =
      of_build (build_message fm e hostname at id_bytes boundary_bytes) refl
    where
      of_sign :
          (msg : Text)
          → build_message fm e hostname at id_bytes boundary_bytes ≡ built msg
          → (key : c.Key) → parse_private_key c d.dkim_private_key ≡ value key
          → (r : Fallible Text) → sign (options c sign d key) msg ≡ r
          → of_signed c sign r ≡ prepared signed
          → Signed e d signed
      of_sign msg is_built key is_key (value text) is_signed h = record {
        msg = msg;
        is_built = is_built;
        key = key;
        is_key = is_key;
        is_signed = is_signed ∙ cc;
      }
      of_sign msg is_built key is_key (failure x) is_signed h = cc

      of_key :
          (msg : Text)
          → build_message fm e hostname at id_bytes boundary_bytes ≡ built msg
          → (k : Fallible c.Key) → parse_private_key c d.dkim_private_key ≡ k
          → of_signed c sign (k >>= λ (key : c.Key). sign (options c sign d key) msg)
            ≡ prepared signed
          → Signed e d signed
      of_key msg is_built (value key) is_key h =
          of_sign msg is_built key is_key (sign (options c sign d key) msg) refl h
      of_key msg is_built (failure x) is_key h = cc

      of_build :
          (b : Built)
          → build_message fm e hostname at id_bytes boundary_bytes ≡ b
          → of_built c sign d b ≡ prepared signed
          → Signed e d signed
      of_build (built msg) is_built h =
          unfold of_built sign_message in
          of_key msg is_built (parse_private_key c d.dkim_private_key) refl h
      of_build (invalid x) is_built h = unfold of_built in cc

  of_walk :
      (duration : ℕ) (e : Email) (d : Domain) (signed : Text) (mxs : List Mx) (ended : Walked)
      → Signed e d signed
      → lookup (after_last_at e.to) ≡ mx_records mxs
      → (walk
          (λ host. deliver_to true (network port host e.from e.to signed))
          (targets (after_last_at e.to) mxs)).ended
        ≡ ended
      → (result_of duration ended).error ≡ none
      → Sent e d (result_of duration ended)
  of_walk duration e d signed mxs (accepted_by host tls) done looked eq h =
      let (there, took) =
        accepted-IsIn _ _ _ _ host tls
          (walk-Tried (λ host. deliver_to true (network port host e.from e.to signed))
            (targets (after_last_at e.to) mxs))
          eq in
      record {
        msg = done.msg;
        is_built = done.is_built;
        key = done.key;
        is_key = done.is_key;
        signed = signed;
        is_signed = done.is_signed;
        mxs = mxs;
        looked_up = looked;
        is_target = there;
        is_accepted = deliver_to-Accepted true (network port host e.from e.to signed) tls took;
      }
  of_walk duration e d signed mxs (failed_at host x) done looked eq h =
      absurd (failure_none host duration x h)
  of_walk duration e d signed mxs no_host done looked eq h = absurd (
      decided _ _ _ _
        (walk-Tried (λ host. deliver_to true (network port host e.from e.to signed))
          (targets (after_last_at e.to) mxs))
        (omega (
          arith,
          length-map host_of (targets (after_last_at e.to) mxs),
          (targets-length (after_last_at e.to) mxs).0,
        ))
        eq)

  -- If a Send of a sender that NewSender makes reports no error, then BuildMessage has composed the
  -- email, the private key of the domain parses, the DKIM library has signed the message with that
  -- key, the domain's name and its selector, the MX lookup for the recipient's domain has an
  -- answer, and one of the first three hosts of that answer by preference, or, where the answer is
  -- empty, the recipient's domain itself, which the result names, has accepted the sender, the
  -- recipient, the signed message and QUIT.
  pub send-Sent :
      (duration : ℕ) (e : Email) (d : Domain)
      → (send sender duration e d).error ≡ none
      → Sent e d (send sender duration e d)
  unfolding send new_sender
  send-Sent duration e d =
      of_prepared (prepare_message c sign fm hostname at id_bytes boundary_bytes e d) refl
    where
      of_lookup :
          (signed : Text)
          → Signed e d signed
          → (l : MxLookup) → lookup (after_last_at e.to) ≡ l
          → (send_hosts sender e duration signed l).error ≡ none
          → Sent e d (send_hosts sender e duration signed l)
      of_lookup signed done (mx_records mxs) looked h =
          unfold send_hosts new_sender in of_walk duration e d signed mxs _ done looked refl h
      of_lookup signed done (mx_failed x) looked h =
          unfold send_hosts in absurd (failure_none [] duration x h)

      of_prepared :
          (p : Prepared)
          → prepare_message c sign fm hostname at id_bytes boundary_bytes e d ≡ p
          → (send_prepared sender e duration p).error ≡ none
          → Sent e d (send_prepared sender e duration p)
      of_prepared (prepared signed) eq h =
          unfold send_prepared new_sender in
          of_lookup signed (prepared-Signed e d signed eq) (lookup (after_last_at e.to)) refl h
      of_prepared (unprepared x) eq h =
          unfold send_prepared in absurd (failure_none [] duration x h)
