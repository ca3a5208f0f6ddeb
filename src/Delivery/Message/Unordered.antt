-- ===== src/Delivery/Message/Unordered.antt =====
-- json.Unmarshal gives the custom headers as a Go map, which has no order: BuildMessage is a function
-- of the map.
use doevoe.Base.{ℕ, ◌≡◌, refl, ap, Text, true, false, List, [], ◌∷◌, arith, text_eq, codes}
use mathlib.Core.Quot
use mathlib.Core.Quot.{Quot, Quot-set}
use doevoe.Store.Domains.{text_le}
use doevoe.Store.{Email}
use doevoe.Delivery.Message.{
  Formats, object, insert_header, sort_headers, validate_custom, validate_fields, prefix_error,
  compose, finish, after_fields, Built, build_message,
}

headers_set : IsSet (List (Text × Text))
headers_set = hlevel

-- The order of the bytes, with which sort.Strings compares.

text_le_total : (s t : Text) → text_le s t ≡ false → text_le t s ≡ true
unfolding text_le
text_le_total [] t h = cc
text_le_total (x ∷ xs) [] h = refl
text_le_total (x ∷ xs) (y ∷ ys) h = ground (arith, h, text_le_total xs ys)

text_le_antisymm : (s t : Text) → text_le s t ≡ true → text_le t s ≡ true → text_eq s t ≡ true
unfolding text_le
text_le_antisymm [] [] h k = refl
text_le_antisymm [] (y ∷ ys) h k = cc
text_le_antisymm (x ∷ xs) [] h k = cc
text_le_antisymm (x ∷ xs) (y ∷ ys) h k = ground (arith, h, k, text_le_antisymm xs ys)

text_le_trans : (s t u : Text) → text_le s t ≡ true → text_le t u ≡ true → text_le s u ≡ true
unfolding text_le
text_le_trans [] t u h k = refl
text_le_trans (x ∷ xs) [] u h k = cc
text_le_trans (x ∷ xs) (y ∷ ys) [] h k = cc
text_le_trans (x ∷ xs) (y ∷ ys) (z ∷ zs) h k = ground (arith, h, k, text_le_trans xs ys zs)

-- Headers of different names are put in their places in either order.
insert_header_comm :
    (a b : Text × Text) (l : List (Text × Text))
    → text_eq a.0 b.0 ≡ false
    → insert_header a (insert_header b l) ≡ insert_header b (insert_header a l)
unfolding insert_header
insert_header_comm a b [] differ =
    ground (arith, differ, text_le_total a.0 b.0, text_le_antisymm a.0 b.0)
insert_header_comm a b (x ∷ xs) differ = ground (
  arith,
  differ,
  text_le_total a.0 b.0,
  text_le_antisymm a.0 b.0,
  text_le_trans a.0 b.0 x.0,
  text_le_trans b.0 a.0 x.0,
  insert_header_comm a b xs differ,
)

-- The exchange of two neighbours of different names, at any place.
pub data Exchanged : List (Text × Text) → List (Text × Text) → Type 0 where
  exchange :
      {a b : Text × Text} {rest : List (Text × Text)}
      → text_eq a.0 b.0 ≡ false
      → Exchanged (a ∷ b ∷ rest) (b ∷ a ∷ rest)
  behind :
      {a : Text × Text} {hs ks : List (Text × Text)} → Exchanged hs ks → Exchanged (a ∷ hs) (a ∷ ks)

sort_headers-Exchanged :
    (hs ks : List (Text × Text)) → Exchanged hs ks → sort_headers hs ≡ sort_headers ks
unfolding sort_headers
sort_headers-Exchanged _ _ (exchange {a = a} {b = b} {rest = rest} differ) =
    insert_header_comm a b (sort_headers rest) differ
sort_headers-Exchanged _ _ (behind {a = a} {hs = hs} {ks = ks} e) =
    ap (insert_header a) (sort_headers-Exchanged hs ks e)

-- map[string]string: the entries, without their order.
abbrev pub HeaderMap : Type 0
HeaderMap = Quot Exchanged

-- The keys of a map as sort.Strings puts them, with their values.
sorted_entries : HeaderMap → List (Text × Text)
sorted_entries = Quot.lift headers_set sort_headers sort_headers-Exchanged

-- BuildMessage, of a map of custom headers.
pub message_of_map : Formats → Email → Text → ℕ → List ℕ → List ℕ → HeaderMap → Built
unfolding sorted_entries after_fields
message_of_map fm e hostname at id_bytes boundary_bytes custom =
    let sorted = sorted_entries custom in
    after_fields (validate_fields fm e) (
      finish (prefix_error (codes "headers_json: ") (validate_custom fm sorted))
        (compose fm e hostname at id_bytes boundary_bytes sorted))

-- If JSON reads the custom headers as a list, then BuildMessage is the message of that list as a
-- map, a function on lists of headers up to the exchange of neighbours of different names: the
-- message does not depend on the order in which the map of headers gives them.
pub build_message-of_map :
    (fm : Formats) (e : Email) (hostname : Text) (at : ℕ) (id_bytes boundary_bytes : List ℕ)
    (custom : List (Text × Text))
    → fm.unmarshal e.headers_json ≡ object custom
    → build_message fm e hostname at id_bytes boundary_bytes
      ≡ message_of_map fm e hostname at id_bytes boundary_bytes (Quot.mk custom)
unfolding build_message message_of_map
build_message-of_map fm e hostname at id_bytes boundary_bytes custom read = rw read refl
