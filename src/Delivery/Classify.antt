-- ===== src/Delivery/Classify.antt =====
-- internal/delivery/classify.go. An error of a send is seen only through errors.As: whether it wraps
-- an *smtp.SMTPError (of go-smtp) or else a *net.DNSError, and its text.
use doevoe.Base.{ℕ, Text, Bool, true, false, leb, if◌then◌else◌}

pub data SendError : Type 0 where
  smtp_error : ℕ → Text → Text → SendError  -- Code, Message, Error()
  dns_error : Bool → Text → SendError  -- IsNotFound, Error()
  other_error : Text → SendError

pub data Class : Type 0 where
  temp perm : Class

unfoldable pub classify : SendError → Class
classify (smtp_error code message text) = if leb 500 code then perm else temp
classify (dns_error true text) = perm
classify (dns_error false text) = temp
classify (other_error text) = temp

-- err.Error()
unfoldable pub send_error_text : SendError → Text
send_error_text (smtp_error code message text) = text
send_error_text (dns_error not_found text) = text
send_error_text (other_error text) = text
