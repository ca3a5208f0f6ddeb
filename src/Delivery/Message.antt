-- ===== src/Delivery/Message.antt =====
-- internal/delivery/message.go: validation and composition of a message. What the program calls of
-- net/mail, mime, encoding/json, time and fmt is a parameter, the record `Formats`.
pub mod Newlines
pub mod Unordered
pub mod Headers
pub mod Composed
pub mod Reserved
use doevoe.Base.{
  ℕ, ◌+◌, ◌/◌, ◌%◌, ◌==◌, ltb, Text, Bool, true, false, ◌&&◌, ◌||◌, not, Option, none, some, List,
  [], ◌∷◌, ◌++◌, codes, text_eq, is_empty, if◌then◌else◌, has_line_break, to_lower,
}
use doevoe.Store.{Email}
use doevoe.Store.Domains.{text_le}

-- json.Unmarshal into a map[string]string: each key once, in any order; or the text of the error.
pub data Unmarshaled : Type 0 where
  object : List (Text × Text) → Unmarshaled
  malformed : Text → Unmarshaled

pub record Formats : Type 0 where
  pub address_string : Text → Text → Text  -- (&mail.Address{Name: name, Address: addr}).String()
  pub encode_word : Text → Text  -- mime.QEncoding.Encode("utf-8", s)
  pub format_date : ℕ → Text  -- now.Format(time.RFC1123Z)
  pub quote : Text → Text  -- the verb %q
  pub marshal : List (Text × Text) → Text  -- json.Marshal of a map[string]string
  pub unmarshal : Text → Unmarshaled

-- reservedHeaders
abbrev pub reserved_headers : List Text
reserved_headers =
    codes "from"
    ∷ codes "to"
    ∷ codes "cc"
    ∷ codes "bcc"
    ∷ codes "reply-to"
    ∷ codes "subject"
    ∷ codes "date"
    ∷ codes "message-id"
    ∷ codes "mime-version"
    ∷ codes "content-type"
    ∷ codes "dkim-signature"
    ∷ []

text_in : Text → List Text → Bool
text_in t [] = false
text_in t (x ∷ xs) = let rest = text_in t xs in text_eq t x || rest

unfoldable pub is_reserved : Text → Bool
unfolding text_in
is_reserved name = text_in (to_lower name) reserved_headers

-- An error is its text, and `none` is nil.
unfoldable pub validate_header_value : Text → Text → Option Text
validate_header_value name v =
    if has_line_break v
    then some (codes "header " ++ name ++ codes ": value contains CR or LF")
    else none

unfoldable pub validate_header_name : Text → Option Text
validate_header_name name =
    if has_line_break name then some (codes "header name contains CR or LF") else none

-- The first error of two checks.
abbrev pub then_check : Option Text → Option Text → Option Text
then_check (some e) next = some e
then_check none next = next

abbrev pub prefix_error : Text → Option Text → Option Text
prefix_error p none = none
prefix_error p (some e) = some (p ++ e)

check_reserved : Formats → Text → Option Text
check_reserved fm name =
    if is_reserved name
    then some (codes "header " ++ fm.quote name ++ codes " is reserved")
    else none

-- ValidateHeader, and the same three checks in BuildMessage.
unfoldable pub validate_header : Formats → Text → Text → Option Text
unfolding check_reserved
validate_header fm name value =
    then_check (validate_header_name name)
      (then_check (check_reserved fm name) (validate_header_value name value))

-- FormatAddress
unfoldable pub format_address : Formats → Text → Text → Text
format_address fm name addr = if is_empty name then addr else fm.address_string name addr

-- crlf: \r\n to \n, and then each \n to \r\n.
abbrev starts_lf : Text → Bool
starts_lf [] = false
starts_lf (c ∷ s) = c == 10

unfoldable pub to_lf : Text → Text
to_lf [] = []
to_lf (c ∷ s) = let rest = to_lf s in if c == 13 && starts_lf s then rest else c ∷ rest

unfoldable pub to_crlf : Text → Text
to_crlf [] = []
to_crlf (c ∷ s) = let rest = to_crlf s in if c == 10 then 13 ∷ 10 ∷ rest else c ∷ rest

unfoldable pub crlf : Text → Text
unfolding to_lf to_crlf
crlf s = to_crlf (to_lf s)

-- randHex, of the bytes that the random source gave.
abbrev hex_digit : ℕ → ℕ
hex_digit n = if ltb n 10 then b'0' + n else 87 + n

unfoldable pub hex : List ℕ → Text
hex [] = []
hex (b ∷ bs) = hex_digit (b / 16 % 16) ∷ hex_digit (b % 16) ∷ hex bs

-- sort.Strings of the keys; each is followed by its value.
unfoldable pub insert_header : Text × Text → List (Text × Text) → List (Text × Text)
insert_header h [] = h ∷ []
insert_header h (x ∷ xs) =
    let rest = insert_header h xs in if text_le h.0 x.0 then h ∷ x ∷ xs else x ∷ rest

unfoldable pub sort_headers : List (Text × Text) → List (Text × Text)
unfolding insert_header
sort_headers [] = []
sort_headers (h ∷ hs) = insert_header h (sort_headers hs)

unfoldable pub validate_custom : Formats → List (Text × Text) → Option Text
validate_custom fm [] = none
validate_custom fm ((k, v) ∷ hs) = then_check (validate_header fm k v) (validate_custom fm hs)

-- The validation that stands before the composition, but for the custom headers.
unfoldable pub validate_fields : Formats → Email → Option Text
validate_fields fm e =
    then_check (validate_header_value (codes "From") (format_address fm e.from_name e.from)) (
      then_check (validate_header_value (codes "To") (format_address fm e.to_name e.to)) (
        then_check
          (if is_empty e.reply_to
            then none
            else validate_header_value (codes "Reply-To") e.reply_to)
          (validate_header_value (codes "Subject") e.subject)))

abbrev pub line_end : Text
line_end = 13 ∷ 10 ∷ []

-- write(k, v)
unfoldable pub write : Text → Text → Text
write k v = k ++ codes ": " ++ v ++ line_end

unfoldable pub write_all : List (Text × Text) → Text
unfolding write
write_all [] = []
write_all ((k, v) ∷ hs) = write k v ++ write_all hs

unfoldable pub part : Text → Text → Text → Text
unfolding crlf
part boundary content_type body =
    codes "--"
    ++ boundary
    ++ line_end
    ++ codes "Content-Type: "
    ++ content_type
    ++ codes "; charset=utf-8"
    ++ line_end
    ++ line_end
    ++ crlf body
    ++ line_end

-- The value of Content-Type, and what follows the empty line.
unfoldable pub content_of : Formats → Email → Text → Text × Text
unfolding part crlf
content_of fm e boundary =
    if not (is_empty e.body_text) && not (is_empty e.body_html)
    then (
      codes "multipart/alternative; boundary=" ++ fm.quote boundary,
      part boundary (codes "text/plain") e.body_text
          ++ part boundary (codes "text/html") e.body_html
          ++ codes "--"
          ++ boundary
          ++ codes "--"
          ++ line_end,
    )
    else if not (is_empty e.body_html)
    then (codes "text/html; charset=utf-8", crlf e.body_html ++ line_end)
    else (codes "text/plain; charset=utf-8", crlf e.body_text ++ line_end)

reply_to_field : Email → List (Text × Text)
reply_to_field e = if is_empty e.reply_to then [] else (codes "Reply-To", e.reply_to) ∷ []

-- The headers in the order of the calls of `write`, Content-Type last.
unfoldable pub fields_of :
    Formats → Email → Text → ℕ → Text → List (Text × Text) → Text → List (Text × Text)
unfolding reply_to_field
fields_of fm e hostname at id_hex custom content_type =
    (codes "From", format_address fm e.from_name e.from)
    ∷ (codes "To", format_address fm e.to_name e.to)
    ∷ (reply_to_field e
        ++ (codes "Subject", fm.encode_word e.subject)
          ∷ (codes "Date", fm.format_date at)
          ∷ (codes "Message-ID", codes "<" ++ id_hex ++ codes "@" ++ hostname ++ codes ">")
          ∷ (codes "MIME-Version", codes "1.0")
          ∷ (custom ++ (codes "Content-Type", content_type) ∷ []))

pub data Built : Type 0 where
  built : Text → Built
  invalid : Text → Built

compose : Formats → Email → Text → ℕ → List ℕ → List ℕ → List (Text × Text) → Text
compose fm e hostname at id_bytes boundary_bytes custom =
    let (content_type, body) = content_of fm e (hex boundary_bytes) in
    write_all (fields_of fm e hostname at (hex id_bytes) custom content_type) ++ line_end ++ body

finish : Option Text → Text → Built
finish (some error) text = invalid error
finish none text = built text

with_custom : Formats → Email → Text → ℕ → List ℕ → List ℕ → Unmarshaled → Built
unfolding finish compose
with_custom fm e hostname at id_bytes boundary_bytes (malformed error) =
    invalid (codes "headers_json: " ++ error)
with_custom fm e hostname at id_bytes boundary_bytes (object custom) =
    let sorted = sort_headers custom in
    finish (prefix_error (codes "headers_json: ") (validate_custom fm sorted))
      (compose fm e hostname at id_bytes boundary_bytes sorted)

after_fields : Option Text → Built → Built
after_fields (some error) next = invalid error
after_fields none next = next

-- BuildMessage, with the bytes that the random source gives for the message id and the boundary.
unfoldable pub build_message : Formats → Email → Text → ℕ → List ℕ → List ℕ → Built
unfolding with_custom after_fields
build_message fm e hostname at id_bytes boundary_bytes =
    after_fields (validate_fields fm e)
      (with_custom fm e hostname at id_bytes boundary_bytes (fm.unmarshal e.headers_json))
