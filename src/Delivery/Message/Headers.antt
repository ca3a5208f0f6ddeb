-- ===== src/Delivery/Message/Headers.antt =====
-- A message that is composed has the headers that the program wrote, and no others.
use doevoe.Base.{
  ℕ, ◌≡◌, refl, sym, ap, ◌∙◌, Text, false, ◌&&◌, Option, none, some, List, [], ◌∷◌, ◌++◌, arith,
  ◌==◌, codes, if◌then◌else◌, All, has_line_break, zero, suc, ◌<◌, length, map,
}
use mathlib.Core.List.{append_assoc}
use doevoe.Delivery.Message.{Formats, write, write_all, line_end}

-- How a recipient reads a head: lines that end in CR LF, up to the first empty one.
abbrev pub cons_line : ℕ → Option (Text × Text) → Option (Text × Text)
cons_line c none = none
cons_line c (some (l, rest)) = some (c ∷ l, rest)

abbrev pub split_line : Text → Option (Text × Text)
split_line [] = none
split_line (c ∷ []) = none
split_line (c ∷ d ∷ s) =
    let later = cons_line c (split_line (d ∷ s)) in
    if c == 13 && d == 10 then some ([], s) else later

-- The lines that are read, and the body; `fuel` bounds their number.
read_next : (Text → List Text × Text) → Text → Option (Text × Text) → List Text × Text
read_next go s none = ([], s)
read_next go s (some ([], rest)) = ([], rest)
read_next go s (some (c ∷ l, rest)) = let (ls, body) = go rest in ((c ∷ l) ∷ ls, body)

pub read_head : ℕ → Text → List Text × Text
unfolding read_next
read_head zero s = ([], s)
read_head (suc fuel) s = read_next (read_head fuel) s (split_line s)

abbrev pub IsClean : Text → Type 0
IsClean t = has_line_break t ≡ false

abbrev pub HasCleanField : Text × Text → Type 0
HasCleanField h = IsClean h.0 × IsClean h.1

abbrev pub field_line : Text × Text → Text
field_line h = h.0 ++ codes ": " ++ h.1

-- What the parameters document: they put no line break into what they make of text without one.
pub record IsCleanFormat (fm : Formats) : Type 0 where
  pub word : (s : Text) → IsClean s → IsClean (fm.encode_word s)
  pub date : (at : ℕ) → IsClean (fm.format_date at)
  pub quoted : (s : Text) → IsClean s → IsClean (fm.quote s)

pub append-IsClean : (a b : Text) → IsClean a → IsClean b → IsClean (a ++ b)
append-IsClean [] b ha hb = hb
append-IsClean (c ∷ a) b ha hb = ground (arith, append-IsClean a b)

split_line-append :
    (l rest : Text) → IsClean l → split_line (l ++ line_end ++ rest) ≡ some (l, rest)
split_line-append [] rest h = refl
split_line-append (c ∷ []) rest h = ground arith
split_line-append (c ∷ d ∷ l) rest h = ground (arith, split_line-append (d ∷ l) rest)

field_line-cons : (k v : Text) → (c : ℕ) × (l : Text) × (field_line (k, v) ≡ c ∷ l)
field_line-cons [] v = (b':', _, refl)
field_line-cons (c ∷ k) v = (c, k ++ codes ": " ++ v, refl)

split_here :
    (k v : Text) (hs : List (Text × Text)) (body : Text)
    → HasCleanField (k, v)
    → split_line (write k v ++ write_all hs ++ line_end ++ body)
      ≡ some (field_line (k, v), write_all hs ++ line_end ++ body)
unfolding write
split_here k v hs body clean =
    ap split_line (
      append_assoc (write k v ++ write_all hs) line_end body
      ∙ append_assoc (write k v) (write_all hs) (line_end ++ body)
      ∙ ap (λ (t : Text). write k v ++ t) (sym (append_assoc (write_all hs) line_end body)))
    ∙ split_line-append (field_line (k, v)) (write_all hs ++ line_end ++ body)
        (append-IsClean (k ++ codes ": ") v (append-IsClean k (codes ": ") clean.0 refl) clean.1)

read_next_line :
    (go : Text → List Text × Text) (s line rest : Text) (c : ℕ) (l : Text)
    → line ≡ c ∷ l
    → read_next go s (some (line, rest)) ≡ (line ∷ (go rest).0, (go rest).1)
unfolding read_next
read_next_line go s line rest c l h = rw h

pub read_head-write_all :
    (fields : List (Text × Text)) (body : Text) (fuel : ℕ)
    → All HasCleanField fields
    → length fields < fuel
    → read_head fuel (write_all fields ++ line_end ++ body) ≡ (map field_line fields, body)
unfolding read_head write_all
read_head-write_all fields body zero clean h = absurd (omega arith)
read_head-write_all [] body (suc fuel) clean h = refl
read_head-write_all ((k, v) ∷ hs) body (suc fuel) clean h =
    let rest = write_all hs ++ line_end ++ body in
    let (c, l, shape) = field_line-cons k v in
    rw (split_here k v hs body clean.0) (
      read_next_line (read_head fuel) (write k v ++ write_all hs ++ line_end ++ body)
        (field_line (k, v)) rest c l shape
      ∙ rw (read_head-write_all hs body fuel clean.1 (omega arith)))
