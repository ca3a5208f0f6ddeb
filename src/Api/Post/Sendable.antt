-- ===== src/Api/Post/Sendable.antt =====
-- What the API lets in, seen from the delivery: BuildMessage composes the queued email, but for a
-- Reply-To with a line break.
use doevoe.Base.{
  ℕ, ◌≡◌, refl, Text, true, false, ◌||◌, ◌&&◌, Option, none, some, List, [], ◌∷◌, ◌++◌, codes,
  is_empty, if◌then◌else◌, ◌==◌, length, All, Bool-cases, inl, inr, has_line_break,
  line_break-is_empty,
}
use doevoe.Store.{Email, ApiKey, Domain}
use doevoe.Store.Emails.{inserted_row, with_defaults}
use doevoe.Store.Domains.{text_le}
use doevoe.Delivery.Message.{
  Formats, object, validate_header, validate_header_value, validate_fields, validate_custom,
  sort_headers, insert_header, then_check, prefix_error, format_address, built, invalid,
  build_message,
}
use doevoe.Api.Requests.{
  Env, SendRequest, Address, request_error, reply_to_error, check_headers, reject_if,
}
use doevoe.Api.Post.{requested_email}

-- encoding/json reads back the map `hs` that it wrote, and the empty object.
pub record RoundTrips (fm : Formats) (hs : List (Text × Text)) : Type 0 where
  pub written : is_empty (fm.marshal hs) ≡ false
  pub read_back : fm.unmarshal (fm.marshal hs) ≡ object hs
  pub read_none : fm.unmarshal (codes "{}") ≡ object []

-- The row that is stored for a request.
abbrev pub stored_email :
    Env → SendRequest → Address → Address → ApiKey → Domain → Text → ℕ → ℕ → Email
stored_email env req from to k d key id at =
    inserted_row id (with_defaults at (requested_email env req from to k d key))

then_check-none : (a b : Option Text) → then_check a b ≡ none → (a ≡ none) × (b ≡ none)
then_check-none none b h = (refl, h)
then_check-none (some x) b h = cc

prefix_none : (p : Text) (o : Option Text) → prefix_error p o ≡ none → o ≡ none
prefix_none p none h = refl
prefix_none p (some x) h = cc

custom_valid :
    (fm : Formats) (hs : List (Text × Text))
    → All (λ (h : Text × Text). validate_header fm h.0 h.1 ≡ none) hs
    → validate_custom fm hs ≡ none
unfolding validate_custom
custom_valid fm [] h = refl
custom_valid fm ((k, v) ∷ hs) h = rw h.0 (custom_valid fm hs h.1)

checked_all :
    (fm : Formats) (hs : List (Text × Text))
    → check_headers fm hs ≡ none
    → All (λ (h : Text × Text). validate_header fm h.0 h.1 ≡ none) hs
unfolding check_headers
checked_all fm [] h = tt
checked_all fm ((k, v) ∷ hs) h =
    let (one, rest) = then_check-none _ _ h in (one, checked_all fm hs rest)

insert_all :
    (P : Text × Text → Type 0) (h : Text × Text) (hs : List (Text × Text))
    → P h
    → All P hs
    → All P (insert_header h hs)
unfolding insert_header
insert_all P h [] p q = (p, tt)
insert_all P h (x ∷ xs) p q = elim (Bool-cases (text_le h.0 x.0)) [
  | inl first ↦ rw first (p, q)
  | inr later ↦ rw later (q.0, insert_all P h xs p q.1)
]

sort_all : (P : Text × Text → Type 0) (hs : List (Text × Text)) → All P hs → All P (sort_headers hs)
unfolding sort_headers
sort_all P [] h = tt
sort_all P (x ∷ xs) h = insert_all P x (sort_headers xs) h.0 (sort_all P xs h.1)

-- What BuildMessage makes of valid fields and valid custom headers.
module _ (fm : Formats) (e : Email) (hostname : Text) (at : ℕ)
    (id_bytes boundary_bytes : List ℕ) where
  pub built_if_valid :
      (custom : List (Text × Text))
      → validate_fields fm e ≡ none
      → fm.unmarshal e.headers_json ≡ object custom
      → All (λ (h : Text × Text). validate_header fm h.0 h.1 ≡ none) custom
      → (text : Text) × (build_message fm e hostname at id_bytes boundary_bytes ≡ built text)
  unfolding build_message
  built_if_valid custom fields parsed valid =
      rw (fields, parsed, custom_valid fm (sort_headers custom) (sort_all _ custom valid)) (_, refl)

-- The checks that a request has passed.
checks_none :
    (a b c d e f : Option Text)
    → then_check a (then_check b (then_check c (then_check d (then_check e f)))) ≡ none
    → (b ≡ none) × (d ≡ none) × (e ≡ none) × (f ≡ none)
checks_none none none none none none f h = (refl, refl, refl, h)
checks_none (some x) b c d e f h = cc
checks_none none (some x) c d e f h = cc
checks_none none none (some x) d e f h = cc
checks_none none none none (some x) e f h = cc
checks_none none none none none (some x) f h = cc

module _ (env : Env) (req : SendRequest) (from to : Address) where
  passed :
      request_error env req from to ≡ none
      → (validate_header_value (codes "Subject") req.subject ≡ none)
        × (validate_header_value (codes "From") (format_address env.formats from.name from.address)
            ≡ none)
        × (validate_header_value (codes "To") (format_address env.formats to.name to.address)
            ≡ none)
        × (check_headers env.formats req.headers ≡ none)
  unfolding request_error
  passed fine =
      let (subject, sender, recipient, custom) =
        checks_none
          (reject_if (is_empty req.subject || (is_empty req.html && is_empty req.text))
            (codes "subject and html or text are required"))
          (prefix_error (codes "invalid subject: ")
            (validate_header_value (codes "Subject") req.subject))
          (reply_to_error env req.reply_to)
          (prefix_error (codes "invalid from: ") (
            validate_header_value (codes "From")
              (format_address env.formats from.name from.address)))
          (prefix_error (codes "invalid to: ")
            (validate_header_value (codes "To") (format_address env.formats to.name to.address)))
          (prefix_error (codes "invalid header: ") (check_headers env.formats req.headers)) fine in
      (
        prefix_none (codes "invalid subject: ") _ subject,
        prefix_none (codes "invalid from: ") _ sender,
        prefix_none (codes "invalid to: ") _ recipient,
        prefix_none (codes "invalid header: ") _ custom,
      )

value_fine : (name v : Text) → has_line_break v ≡ false → validate_header_value name v ≡ none
unfolding validate_header_value
value_fine name v clean = rw clean

value_refused :
    (name v : Text)
    → has_line_break v ≡ true
    → validate_header_value name v
      ≡ some (codes "header " ++ name ++ codes ": value contains CR or LF")
unfolding validate_header_value
value_refused name v broken = rw broken

module _ (env : Env) (req : SendRequest) (laws : RoundTrips env.formats req.headers)
    (from to : Address) (k : ApiKey) (d : Domain) (key : Text) (id at : ℕ)
    (fine : request_error env req from to ≡ none) where
  read_back :
      (stored_email env req from to k d key id at).headers_json
      ≡ (if length req.headers == 0 then codes "{}" else env.formats.marshal req.headers)
  unfolding inserted_row with_defaults requested_email
  read_back = elim (Bool-cases (length req.headers == 0)) [
    | inl no_headers ↦ rw no_headers
    | inr some_headers ↦ rw (some_headers, laws.written)
  ]

  headers_of_row :
      (custom : List (Text × Text)) × (env.formats.unmarshal
          (stored_email env req from to k d key id at).headers_json
        ≡ object custom)
      × All (λ (h : Text × Text). validate_header env.formats h.0 h.1 ≡ none) custom
  headers_of_row = elim (Bool-cases (length req.headers == 0)) [
    | inl no_headers ↦ ([], rw (read_back, no_headers, laws.read_none), tt)
    | inr some_headers ↦ (
      req.headers,
      rw (read_back, some_headers, laws.read_back),
      checked_all env.formats req.headers (passed env req from to fine).3,
    )
  ]

  fields_of_row :
      has_line_break req.reply_to ≡ false
      → validate_fields env.formats (stored_email env req from to k d key id at) ≡ none
  unfolding inserted_row with_defaults requested_email validate_fields
  fields_of_row clean =
      let (subject, sender, recipient, custom) = passed env req from to fine in
      elim (Bool-cases (is_empty req.reply_to)) [
        | inl no_reply_to ↦ rw (sender, recipient, no_reply_to, subject)
        | inr some_reply_to ↦ rw (
          sender,
          recipient,
          some_reply_to,
          value_fine (codes "Reply-To") req.reply_to clean,
          subject,
        )
      ]

  -- If JSON reads back the headers that it wrote, then for a request that passes the checks of the
  -- API, and whose Reply-To has no line break, BuildMessage composes the email that is stored for
  -- it.
  pub request-built :
      (hostname : Text) (sent_at : ℕ) (id_bytes boundary_bytes : List ℕ)
      → has_line_break req.reply_to ≡ false
      → (text : Text) × (build_message env.formats
            (stored_email env req from to k d key id at)
            hostname
            sent_at
            id_bytes
            boundary_bytes
          ≡ built text)
  request-built hostname sent_at id_bytes boundary_bytes clean =
      let (custom, parsed, valid) = headers_of_row in
      built_if_valid env.formats (stored_email env req from to k d key id at) hostname sent_at
        id_bytes boundary_bytes custom (fields_of_row clean) parsed valid

  reply_to_refused :
      has_line_break req.reply_to ≡ true
      → validate_fields env.formats (stored_email env req from to k d key id at)
        ≡ some (codes "header Reply-To: value contains CR or LF")
  unfolding inserted_row with_defaults requested_email validate_fields
  reply_to_refused broken =
      let (subject, sender, recipient, custom) = passed env req from to fine in
      rw (
        sender,
        recipient,
        line_break-is_empty req.reply_to broken,
        value_refused (codes "Reply-To") req.reply_to broken,
      )

  -- If a request passes the checks of the API and its Reply-To has a line break, then BuildMessage
  -- refuses the email that is stored for it, at every attempt.
  pub request-invalid :
      (hostname : Text) (sent_at : ℕ) (id_bytes boundary_bytes : List ℕ)
      → has_line_break req.reply_to ≡ true
      → build_message env.formats
          (stored_email env req from to k d key id at)
          hostname
          sent_at
          id_bytes
          boundary_bytes
        ≡ invalid (codes "header Reply-To: value contains CR or LF")
  unfolding build_message
  request-invalid hostname sent_at id_bytes boundary_bytes broken = rw (reply_to_refused broken)
