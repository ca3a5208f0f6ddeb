-- ===== src/Delivery/Sender/Reports.antt =====
-- What deliverTo, internal/delivery/sender.go, reports.
use doevoe.Base.{
  Bool, true, false, Option, none, some, [], ◌∷◌, ◌≡◌, ◌≢◌, refl, Bool-cases, inl, inr,
}
use doevoe.Delivery.Classify.{SendError}
use doevoe.Delivery.Sender.{
  Session, Connected, connected, not_connected, plaintext, or_plaintext, connect_tls, is_smtp_error,
  connect, first_error, conclude, talk, delivered, deliver_to,
}

-- Every command after EHLO succeeded, the reply to the data and QUIT included.
pub Accepted : Session → Type 0
Accepted n =
    (n.mail ≡ none)
    × (n.rcpt ≡ none)
    × (n.data_command ≡ none)
    × (n.write ≡ none)
    × (n.close ≡ none)
    × (n.quit ≡ none)

-- TLS is configured, and was negotiated on the first connection.
pub Secured : Bool → Session → Type 0
Secured tls_config n =
    (tls_config ≡ true) × (n.dial ≡ none) × (n.start_tls ≡ none) × (n.hello_tls ≡ none)

first_error_lem :
    (a b c d e f : Option SendError)
    → first_error (a ∷ b ∷ c ∷ d ∷ e ∷ f ∷ []) ≡ none
    → (a ≡ none) × (b ≡ none) × (c ≡ none) × (d ≡ none) × (e ≡ none) × (f ≡ none)
unfolding first_error
first_error_lem none none none none none none h = (refl, refl, refl, refl, refl, refl)
first_error_lem (some x) b c d e f h = cc
first_error_lem none (some x) c d e f h = cc
first_error_lem none none (some x) d e f h = cc
first_error_lem none none none (some x) e f h = cc
first_error_lem none none none none (some x) f h = cc
first_error_lem none none none none none (some x) h = cc

conclude_lem :
    (t tls : Bool) (o : Option SendError) → conclude t o ≡ delivered tls → (t ≡ tls) × (o ≡ none)
unfolding conclude
conclude_lem t tls none h = (cc, refl)
conclude_lem t tls (some e) h = cc

talk_lem :
    (n : Session) (c : Connected) (tls : Bool)
    → talk n c ≡ delivered tls
    → (c ≡ connected tls) × Accepted n
unfolding talk Accepted
talk_lem n (not_connected e) tls h = cc
talk_lem n (connected t) tls h =
    let (same, fine) =
      conclude_lem t tls
        (first_error (n.mail ∷ n.rcpt ∷ n.data_command ∷ n.write ∷ n.close ∷ n.quit ∷ [])) h in
    (cc, first_error_lem n.mail n.rcpt n.data_command n.write n.close n.quit fine)

plaintext_lem : (d h : Option SendError) → plaintext d h ≡ connected true → (A : Type 0) → A
unfolding plaintext
plaintext_lem (some e) h p A = cc
plaintext_lem none (some e) p A = cc
plaintext_lem none none p A = cc

or_plaintext_lem :
    (n : Session) (e : SendError) → or_plaintext n e ≡ connected true → (A : Type 0) → A
unfolding or_plaintext
or_plaintext_lem n e p A = elim (Bool-cases (is_smtp_error e)) [
  | inl final ↦ let q = rw final at p in cc
  | inr other ↦ plaintext_lem n.redial n.hello_plain (rw other at p) A
]

connect_tls_lem :
    (n : Session) (d t h : Option SendError)
    → connect_tls n d t h ≡ connected true
    → (d ≡ none) × (t ≡ none) × (h ≡ none)
unfolding connect_tls
connect_tls_lem n (some e) t h p = cc
connect_tls_lem n none (some e) h p = or_plaintext_lem n e p _
connect_tls_lem n none none (some e) p = or_plaintext_lem n e p _
connect_tls_lem n none none none p = (refl, refl, refl)

connect_lem : (cfg : Bool) (n : Session) → connect cfg n ≡ connected true → Secured cfg n
unfolding connect Secured
connect_lem true n p =
    let (a, b, c) = connect_tls_lem n n.dial n.start_tls n.hello_tls p in (refl, a, b, c)
connect_lem false n p = plaintext_lem n.dial n.hello_plain p _

-- If deliverTo reports a delivery, then every command after EHLO succeeded, the reply to the data
-- and QUIT included.
pub deliver_to-Accepted :
    (tls_config : Bool) (n : Session) (tls : Bool)
    → deliver_to tls_config n ≡ delivered tls
    → Accepted n
unfolding deliver_to
deliver_to-Accepted tls_config n tls h = (talk_lem n (connect tls_config n) tls h).1

-- If deliverTo reports a delivery over TLS, then TLS is configured, and the dial, STARTTLS and the
-- EHLO under TLS succeeded.
pub deliver_to-Secured :
    (tls_config : Bool) (n : Session)
    → deliver_to tls_config n ≡ delivered true
    → Secured tls_config n
unfolding deliver_to
deliver_to-Secured tls_config n h =
    connect_lem tls_config n (talk_lem n (connect tls_config n) true h).0

-- If QUIT ends with an error, then deliverTo reports no delivery, also where the host has accepted
-- the data before.
pub deliver_to-quit :
    (tls_config : Bool) (n : Session) (e : SendError) (tls : Bool)
    → n.quit ≡ some e
    → deliver_to tls_config n ≢ delivered tls
unfolding Accepted
deliver_to-quit tls_config n e tls failed h =
    let (m, r, d, w, c, q) = deliver_to-Accepted tls_config n tls h in cc
