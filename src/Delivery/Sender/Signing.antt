-- ===== src/Delivery/Sender/Signing.antt =====
-- internal/delivery/message.go: SignMessage, and what Send makes of an email before it looks up a
-- host. The DKIM library (dkim.Sign) is a parameter.
use doevoe.Base.{ℕ, Text, true, List, [], ◌∷◌, codes, Fallible, value, failure, ◌>>=◌}
use doevoe.Store.{Email, Domain}
use doevoe.DkimKeys.{Crypto, parse_private_key}
use doevoe.Delivery.Classify.{other_error}
use doevoe.Delivery.Message.{Formats, Built, built, invalid, build_message}
use doevoe.Delivery.Sender.{Prepared, prepared, unprepared, Session, MxLookup, Sender}
pub mod Sent

-- HeaderKeys
abbrev pub header_keys : List Text
header_keys =
    codes "From"
    ∷ codes "To"
    ∷ codes "Subject"
    ∷ codes "Date"
    ∷ codes "Message-ID"
    ∷ codes "MIME-Version"
    ∷ codes "Content-Type"
    ∷ []

module _ (c : Crypto) where
  open c use {Key}

  -- dkim.SignOptions
  pub record SignOptions : Type 0 where
    pub domain : Text
    pub selector : Text
    pub signer : Key
    pub header_keys : List Text

module _ (c : Crypto) (sign : SignOptions c → Text → Fallible Text) where
  abbrev pub options : Domain → c.Key → SignOptions c
  options d key = record {
    domain = d.name;
    selector = d.dkim_selector;
    signer = key;
    header_keys = header_keys;
  }

  -- SignMessage
  unfoldable pub sign_message : Text → Domain → Fallible Text
  sign_message msg d =
      parse_private_key c d.dkim_private_key >>= λ (key : c.Key). sign (options d key) msg

  -- The error of SignMessage is none of SMTP.
  abbrev pub of_signed : Fallible Text → Prepared
  of_signed (value signed) = prepared signed
  of_signed (failure e) = unprepared (other_error e)

  of_built : Domain → Built → Prepared
  unfolding sign_message
  of_built d (built msg) = of_signed (sign_message msg d)
  of_built d (invalid e) = unprepared (other_error e)

  -- BuildMessage and SignMessage in Send.
  unfoldable pub prepare_message : Formats → Text → ℕ → List ℕ → List ℕ → Email → Domain → Prepared
  unfolding of_built
  prepare_message fm hostname at id_bytes boundary_bytes e d =
      of_built d (build_message fm e hostname at id_bytes boundary_bytes)

  -- NewSender, whose resolver is the default one and whose TLS is configured, at a time and with the
  -- bytes that the random source gives. `session` is the network at the port of the sender.
  unfoldable pub new_sender :
      Formats
      → Text
      → (ℕ → Text → Text → Text → Text → Session)
      → ℕ
      → (Text → MxLookup)
      → ℕ
      → List ℕ
      → List ℕ
      → Sender
  unfolding prepare_message
  new_sender fm hostname network port lookup at id_bytes boundary_bytes = record {
    prepare = prepare_message fm hostname at id_bytes boundary_bytes;
    lookup_mx = lookup;
    has_tls_config = true;
    session = network port;
  }
