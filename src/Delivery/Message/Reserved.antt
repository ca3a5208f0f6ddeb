-- ===== src/Delivery/Message/Reserved.antt =====
-- The names of custom headers: what passes the check for reserved names.
use doevoe.Base.{◌≡◌, refl, Text, false, none, ◌++◌, codes, has_line_break}
use doevoe.Delivery.Message.{
  Formats, validate_header, validate_header_name, validate_header_value, is_reserved, write,
  line_end,
}

-- For an address and a value without a line break, a custom header whose name is "From: " and the
-- address passes ValidateHeader, and what is written for it begins with "From: " and the address.
pub colon_passes_reserved :
    (fm : Formats) (address value : Text)
    → has_line_break address ≡ false
    → has_line_break value ≡ false
    → (validate_header fm (codes "From: " ++ address) value ≡ none)
      × (write (codes "From: " ++ address) value
          ≡ codes "From: " ++ (address ++ codes ": " ++ value ++ line_end))
unfolding validate_header validate_header_name validate_header_value is_reserved write
colon_passes_reserved fm address value ha hv = (rw (ha, hv), refl)
