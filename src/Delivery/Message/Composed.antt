-- ===== src/Delivery/Message/Composed.antt =====
-- A message that BuildMessage returns has the headers that the program wrote, and no others.
use doevoe.Base.{
  ℕ, suc, ◌≡◌, refl, ap, ◌∙◌, Text, Option, none, some, List, [], ◌∷◌, ◌++◌, arith, codes, is_empty,
  if◌then◌else◌, Bool-cases, Option-cases, inl, inr, All, All-append, All-map, length, map,
}
use doevoe.Store.{Email}
use doevoe.Delivery.Message.{
  Formats, Unmarshaled, object, malformed, validate_header_value, validate_header_name,
  validate_header, format_address, hex, validate_custom, validate_fields, content_of, fields_of,
  reply_to_field, sort_headers, built, build_message, with_custom, finish, compose, then_check,
}
use doevoe.Delivery.Message.Headers.{
  read_head, IsClean, HasCleanField, field_line, IsCleanFormat, append-IsClean, read_head-write_all,
}

-- What is said of a composed message: its custom headers passed the checks, and it reads as the
-- headers of `fields_of` and the content of `content_of`.
pub record HasHead (fm : Formats) (e : Email) (hostname : Text) (at : ℕ)
    (id_bytes boundary_bytes : List ℕ) (text : Text) : Type 0 where
  pub custom : List (Text × Text)
  pub unmarshaled : fm.unmarshal e.headers_json ≡ object custom
  pub checked : All (λ (h : Text × Text). validate_header fm h.0 h.1 ≡ none) (sort_headers custom)
  pub head :
      let (content_type, body) = content_of fm e (hex boundary_bytes) in
      let fields = fields_of fm e hostname at (hex id_bytes) (sort_headers custom) content_type in
      read_head (suc (length fields)) text ≡ (map field_line fields, body)

hex-IsClean : (bytes : List ℕ) → IsClean (hex bytes)
unfolding hex
hex-IsClean [] = refl
hex-IsClean (b ∷ bs) = let rest = hex-IsClean bs in ground arith

value-IsClean : (name v : Text) → validate_header_value name v ≡ none → IsClean v
unfolding validate_header_value
value-IsClean name v h = ground arith

header-IsClean : (fm : Formats) (k v : Text) → validate_header fm k v ≡ none → HasCleanField (k, v)
unfolding validate_header validate_header_name validate_header_value
header-IsClean fm k v h = ground arith

custom_checked :
    (fm : Formats) (hs : List (Text × Text))
    → validate_custom fm hs ≡ none
    → All (λ (h : Text × Text). validate_header fm h.0 h.1 ≡ none) hs
unfolding validate_custom
custom_checked fm [] h = tt
custom_checked fm ((k, v) ∷ hs) h = elim (Option-cases (validate_header fm k v)) [
  | inl fine ↦ (fine, custom_checked fm hs (rw fine at h))
  | inr (x, bad) ↦ cc (rw bad at h)
]

module _ (fm : Formats) (clean : IsCleanFormat fm) (e : Email) where
  content-IsClean : (bytes : List ℕ) → IsClean (content_of fm e (hex bytes)).0
  unfolding content_of
  content-IsClean bytes =
      let quoted : IsClean (fm.quote (hex bytes)) = clean.quoted (hex bytes) (hex-IsClean bytes) in
      ground arith

  reply-IsClean :
      (if is_empty e.reply_to then none else validate_header_value (codes "Reply-To") e.reply_to)
        ≡ none
      → All HasCleanField (reply_to_field e)
  unfolding reply_to_field
  reply-IsClean h = elim (Bool-cases (is_empty e.reply_to)) [
    | inl empty ↦ rw empty tt
    | inr given ↦ rw given ((refl, value-IsClean (codes "Reply-To") e.reply_to (rw given at h)), tt)
  ]

  then_check-none : (a b : Option Text) → then_check a b ≡ none → (a ≡ none) × (b ≡ none)
  then_check-none none b h = (refl, h)
  then_check-none (some x) b h = cc

  module _ (hostname : Text) (host : IsClean hostname) (at : ℕ)
      (id_bytes boundary_bytes : List ℕ) where
    fields-IsClean :
        (custom : List (Text × Text))
        → validate_fields fm e ≡ none
        → All (λ (h : Text × Text). validate_header fm h.0 h.1 ≡ none) custom
        → All HasCleanField (
            fields_of fm e hostname at
              (hex id_bytes)
              custom
              (content_of fm e (hex boundary_bytes)).0)
    unfolding fields_of validate_fields
    fields-IsClean custom valid checked =
        let (from_ok, valid1) = then_check-none _ _ valid in
        let (to_ok, valid2) = then_check-none _ _ valid1 in
        let (reply_ok, subject_ok) = then_check-none _ _ valid2 in
        let id_clean =
          append-IsClean (codes "<" ++ hex id_bytes ++ codes "@" ++ hostname) (codes ">")
            (append-IsClean (codes "<" ++ hex id_bytes ++ codes "@") hostname
              (append-IsClean (codes "<" ++ hex id_bytes) (codes "@") (hex-IsClean id_bytes) refl)
              host)
            refl in
        (
          (refl, value-IsClean (codes "From") (format_address fm e.from_name e.from) from_ok),
          (
            (refl, value-IsClean (codes "To") (format_address fm e.to_name e.to) to_ok),
            All-append HasCleanField (reply_to_field e) _ (reply-IsClean reply_ok) (
              (refl, clean.word e.subject (value-IsClean (codes "Subject") e.subject subject_ok)),
              (
                (refl, clean.date at),
                (
                  (refl, id_clean),
                  (
                    (refl, refl),
                    All-append HasCleanField custom _
                        (All-map _ _ (λ h ok_h. header-IsClean fm h.0 h.1 ok_h) custom checked)
                        ((refl, content-IsClean boundary_bytes), tt),
                  ),
                ),
              ),
            ),
          ),
        )

    composed :
        (u : Unmarshaled) {text : Text}
        → fm.unmarshal e.headers_json ≡ u
        → validate_fields fm e ≡ none
        → with_custom fm e hostname at id_bytes boundary_bytes u ≡ built text
        → HasHead fm e hostname at id_bytes boundary_bytes text
    unfolding with_custom finish
    composed (malformed m) parsed valid h = cc
    composed (object custom) {text} parsed valid h =
        elim (Option-cases (validate_custom fm (sort_headers custom))) [
          | inr (x, bad) ↦ cc (rw bad at h)
          | inl fine ↦
              let checked = custom_checked fm (sort_headers custom) fine in
              let (content_type, body) = content_of fm e (hex boundary_bytes) in
              let fields =
                fields_of fm e hostname at (hex id_bytes) (sort_headers custom) content_type in
              let same : built
                    (compose fm e hostname at id_bytes boundary_bytes (sort_headers custom))
                  ≡ built text =
                rw fine at h in
              record {
                custom = custom;
                unmarshaled = parsed;
                checked = checked;
                head =
                    ap (read_head (suc (length fields))) (built_text same)
                    ∙ unfold compose in
                      read_head-write_all fields body (suc (length fields))
                        (fields-IsClean (sort_headers custom) valid checked) (omega arith);
              }
        ]
      where
        built_text : {a b : Text} → built a ≡ built b → b ≡ a
        built_text p = cc

    -- If the formatting of words, dates and quotes puts no line break where there was none, and the
    -- host name has none, then each text that BuildMessage composes reads, line by line up to the
    -- empty line, as exactly the headers that `fields_of` lists, and then the content; and every
    -- custom header among them passed the checks of ValidateHeader.
    pub build_message-HasHead :
        {text : Text}
        → build_message fm e hostname at id_bytes boundary_bytes ≡ built text
        → HasHead fm e hostname at id_bytes boundary_bytes text
    unfolding build_message
    build_message-HasHead h = elim (Option-cases (validate_fields fm e)) [
      | inr (x, bad) ↦ cc (rw bad at h)
      | inl valid ↦ composed (fm.unmarshal e.headers_json) refl valid (rw valid at h)
    ]
