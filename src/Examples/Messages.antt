-- ===== src/Examples/Messages.antt =====
-- Runs of the composition, the network and the DNS check.
use doevoe.Base.{◌≡◌, ◌≢◌, refl, Text, true, ◌++◌, ◌||◌, some, none, [], ◌∷◌, codes, contains}
use doevoe.Delivery.Classify.{other_error}
use doevoe.Delivery.Message.{
  validate_header, validate_fields, validate_header_value, format_address, validate_custom,
  sort_headers, validate_header_name, is_reserved, write, line_end, Built, built, invalid,
  build_message,
}
use doevoe.Delivery.Message.Headers.{IsCleanFormat}
use doevoe.Delivery.Message.Composed.{HasHead, build_message-HasHead}
use doevoe.Delivery.Message.Reserved.{colon_passes_reserved}
use doevoe.Delivery.Sender.{Session, deliver_to, delivered}
use doevoe.Delivery.Sender.Reports.{deliver_to-quit}
use doevoe.Api.Requests.{request_error, check_headers}
use doevoe.Api.Post.Sendable.{RoundTrips, stored_email, request-built, request-invalid}
use doevoe.DnsCheck.{Lookup, records, check, texts_of, lookup_failed, strip_spaces, join}
use doevoe.DnsCheck.Verdicts.{any, fits_spf, fits_dmarc, spf_of_longer_address, check-verdicts}
use doevoe.Base.{List, map}
use doevoe.Delivery.Sender.{Mx, walk}
use doevoe.Delivery.Sender.Hosts.{Tried, host_of, walk-Tried}
use mathlib.Core.Quot
use doevoe.Delivery.Message.Unordered.{message_of_map, build_message-of_map}
use doevoe.Store.{Email}
use doevoe.Examples.Data.{
  a_time, waiting_email, a_domain, a_key, a_header, formats, an_env, from_address, to_address,
  send_with,
}

clean_formats : IsCleanFormat formats
clean_formats = record { word = λ s h. h; date = λ at. refl; quoted = λ s h. h }

abbrev text_of : Built → Text
text_of (built text) = text
text_of (invalid error) = error

composed_one :
    build_message formats waiting_email (codes "doevoe.example") a_time (1 ∷ 2 ∷ []) (3 ∷ [])
    ≡ built (
        text_of (
          build_message formats waiting_email
            (codes "doevoe.example")
            a_time
            (1 ∷ 2 ∷ [])
            (3 ∷ [])))
unfolding build_message validate_fields validate_header_value format_address validate_custom
    sort_headers
composed_one = refl

build_message-HasHead_example :
    HasHead formats waiting_email (codes "doevoe.example") a_time (1 ∷ 2 ∷ []) (3 ∷ []) (
      text_of
        (build_message formats waiting_email (codes "doevoe.example") a_time (1 ∷ 2 ∷ []) (3 ∷ [])))
build_message-HasHead_example =
    build_message-HasHead formats clean_formats waiting_email (codes "doevoe.example") refl a_time
      (1 ∷ 2 ∷ []) (3 ∷ []) composed_one

colon_passes_reserved_example :
    (validate_header formats (codes "From: " ++ codes "boss@bank.example") (codes "x") ≡ none)
    × (write (codes "From: " ++ codes "boss@bank.example") (codes "x")
        ≡ codes "From: " ++ (codes "boss@bank.example" ++ codes ": " ++ codes "x" ++ line_end))
colon_passes_reserved_example =
    colon_passes_reserved formats (codes "boss@bank.example") (codes "x") refl refl

abbrev a_session : Session
a_session = record {
  dial = none;
  start_tls = none;
  hello_tls = none;
  redial = none;
  hello_plain = none;
  mail = none;
  rcpt = none;
  data_command = none;
  write = none;
  close = none;
  quit = none;
}

abbrev hung_up : Session
hung_up = record a_session { quit = some (other_error (codes "EOF")) }

sent_over_tls : deliver_to true a_session ≡ delivered true
unfolding deliver_to
sent_over_tls = refl

deliver_to-quit_example : deliver_to true hung_up ≢ delivered true
deliver_to-quit_example = deliver_to-quit true hung_up (other_error (codes "EOF")) true refl

laws : RoundTrips formats a_header
laws = record { written = refl; read_back = refl; read_none = refl }

abbrev bad_reply_to : Text
bad_reply_to = codes "help@shop.example\nX"

fine : request_error an_env (send_with (codes "help@shop.example")) from_address to_address ≡ none
unfolding request_error validate_header_value format_address check_headers validate_header
    validate_header_name is_reserved
fine = refl

bad_is_fine : request_error an_env (send_with bad_reply_to) from_address to_address ≡ none
unfolding request_error validate_header_value format_address check_headers validate_header
    validate_header_name is_reserved
bad_is_fine = refl

request-built_example :
    (text : Text) × (build_message formats
        (stored_email an_env
          (send_with (codes "help@shop.example"))
          from_address
          to_address
          a_key
          a_domain
          []
          3
          a_time)
        (codes "doevoe.example")
        a_time
        []
        []
      ≡ built text)
request-built_example =
    request-built an_env (send_with (codes "help@shop.example")) laws from_address to_address a_key
      a_domain [] 3 a_time fine (codes "doevoe.example") a_time [] [] refl

request-invalid_example :
    build_message formats
      (stored_email an_env
        (send_with bad_reply_to)
        from_address
        to_address
        a_key
        a_domain
        []
        3
        a_time)
      (codes "doevoe.example")
      a_time
      []
      []
    ≡ invalid (codes "header Reply-To: value contains CR or LF")
request-invalid_example =
    request-invalid an_env (send_with bad_reply_to) laws from_address to_address a_key a_domain [] 3
      a_time bad_is_fine (codes "doevoe.example") a_time [] [] refl

abbrev a_resolver : Text → Lookup
a_resolver name = records (codes "v=spf1 ip4:192.0.2.10 -all" ∷ [])

spf_of_longer_address_example :
    (check a_resolver (codes "shop.example") (codes "s1") (codes "KEY") (codes "192.0.2.1")).spf.ok
    ≡ true
spf_of_longer_address_example =
    spf_of_longer_address a_resolver (codes "shop.example") (codes "s1") (codes "KEY")
      (codes "192.0.2.1") (codes "0") refl

check-verdicts_example :
    let r =
      check a_resolver (codes "shop.example") (codes "s1") (codes "KEY") (codes "192.0.2.1") in
    let spf = a_resolver (codes "shop.example") in
    let dkim = a_resolver (codes "s1._domainkey.shop.example") in
    let dmarc = a_resolver (codes "_dmarc.shop.example") in
    (r.spf.ok ≡ any (fits_spf (codes "192.0.2.1")) (texts_of spf))
    × (r.dkim.ok ≡ contains (strip_spaces (join (texts_of dkim))) (codes "p=KEY"))
    × (r.dmarc.ok ≡ any fits_dmarc (texts_of dmarc))
    × (r.indeterminate ≡ (lookup_failed spf || lookup_failed dkim || lookup_failed dmarc))
check-verdicts_example =
    check-verdicts a_resolver (codes "shop.example") (codes "s1") (codes "KEY") (codes "192.0.2.1")

abbrev two_hosts : List Mx
two_hosts =
    record { host = codes "mx1.mail.example."; pref = 10 }
    ∷ record { host = codes "mx2.mail.example."; pref = 20 }
    ∷ []

walk-Tried_example :
    let w = walk (λ host. deliver_to true hung_up) two_hosts in
    Tried (λ host. deliver_to true hung_up) (map host_of two_hosts) w.tried w.ended
walk-Tried_example = walk-Tried (λ host. deliver_to true hung_up) two_hosts

abbrev with_header : Email
with_header = record waiting_email { headers_json = codes "{one}" }

build_message-of_map_example :
    build_message formats with_header (codes "doevoe.example") a_time (1 ∷ []) (3 ∷ [])
    ≡ message_of_map formats with_header
        (codes "doevoe.example")
        a_time
        (1 ∷ [])
        (3 ∷ [])
        (Quot.mk a_header)
build_message-of_map_example =
    build_message-of_map formats with_header (codes "doevoe.example") a_time (1 ∷ []) (3 ∷ [])
      a_header refl
