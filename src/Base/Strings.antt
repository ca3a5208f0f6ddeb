-- ===== src/Base/Strings.antt =====
-- Go strings as lists of bytes, with the functions of `strings` that the program calls.
use Prim.Native.Nat.{ℕ, ◌+◌}
use Prim.Native.Char.{code}
use Prim.Native.String.{String}
use mathlib.Core.Path.{◌≡◌, refl}
use mathlib.Core.Bool.{Bool, true, false, ◌&&◌, ◌||◌}
use mathlib.Core.List.{List, [], ◌∷◌, ◌++◌, map}
use native.Mathlib.Omega.{arith}
use doevoe.Base.Lists.{length, drop, drop-append}
use doevoe.Base.Tests.{leb, ◌==◌, ==_refl, if◌then◌else◌}

abbrev pub Text : Type 0
Text = List ℕ

-- A literal of ASCII characters.
abbrev pub codes : String → Text
codes String.[] = []
codes (String.◌∷◌ c s) = code c ∷ codes s

-- s == t
abbrev pub text_eq : Text → Text → Bool
text_eq [] [] = true
text_eq [] (y ∷ ys) = false
text_eq (x ∷ xs) [] = false
text_eq (x ∷ xs) (y ∷ ys) = let rest = text_eq xs ys in x == y && rest

-- s == ""
abbrev pub is_empty : Text → Bool
is_empty [] = true
is_empty (x ∷ xs) = false

pub text_eq_sound : (s t : Text) → text_eq s t ≡ true → s ≡ t
text_eq_sound [] [] h = refl
text_eq_sound [] (y ∷ ys) h = cc
text_eq_sound (x ∷ xs) [] h = cc
text_eq_sound (x ∷ xs) (y ∷ ys) h = ground (arith, text_eq_sound xs ys)

pub text_eq_refl : (s : Text) → text_eq s s ≡ true
text_eq_refl [] = refl
text_eq_refl (x ∷ xs) = ground (arith, text_eq_refl xs)

pub text_eq_comm : (s t : Text) → text_eq s t ≡ text_eq t s
text_eq_comm [] [] = refl
text_eq_comm [] (y ∷ ys) = refl
text_eq_comm (x ∷ xs) [] = refl
text_eq_comm (x ∷ xs) (y ∷ ys) = ground (arith, text_eq_comm xs ys)

-- strings.ToLower on ASCII
abbrev pub lower : ℕ → ℕ
lower c = if leb b'A' c && leb c b'Z' then c + 32 else c

abbrev pub to_lower : Text → Text
to_lower = map lower

-- strings.EqualFold on ASCII
abbrev pub equal_fold : Text → Text → Bool
equal_fold s t = text_eq (to_lower s) (to_lower t)

-- strings.ContainsAny(s, "\r\n")
abbrev pub has_line_break : Text → Bool
has_line_break [] = false
has_line_break (c ∷ s) = let rest = has_line_break s in c == 13 || c == 10 || rest

-- strings.HasPrefix
abbrev pub has_prefix : Text → Text → Bool
has_prefix s [] = true
has_prefix [] (p ∷ ps) = false
has_prefix (c ∷ s) (p ∷ ps) = let rest = has_prefix s ps in c == p && rest

-- strings.Contains
abbrev pub contains : Text → Text → Bool
contains [] t = is_empty t
contains (c ∷ s) t = let rest = contains s t in has_prefix (c ∷ s) t || rest

-- s[strings.LastIndex(s, "@")+1:], which is the whole of `s` if there is no "@".
abbrev pub has_at : Text → Bool
has_at [] = false
has_at (c ∷ s) = let rest = has_at s in c == b'@' || rest

abbrev pub after_last_at : Text → Text
after_last_at [] = []
after_last_at (c ∷ s) =
    let rest = after_last_at s in if has_at s then rest else if c == b'@' then s else c ∷ s

-- strings.TrimPrefix
abbrev pub trim_prefix : Text → Text → Text
trim_prefix s p = if has_prefix s p then drop (length p) s else s

-- strings.TrimSuffix(s, ".")
abbrev pub trim_dot : Text → Text
trim_dot [] = []
trim_dot (c ∷ s) = let rest = trim_dot s in if is_empty s && c == b'.' then [] else c ∷ rest

pub line_break-is_empty : (v : Text) → has_line_break v ≡ true → is_empty v ≡ false
line_break-is_empty [] h = cc
line_break-is_empty (c ∷ v) h = refl

pub has_prefix-append : (s t : Text) → has_prefix (s ++ t) s ≡ true
has_prefix-append [] t = refl
has_prefix-append (c ∷ s) t = ground (arith, has_prefix-append s t, ==_refl c)

pub contains_self : (s t : Text) → contains (s ++ t) s ≡ true
contains_self [] [] = refl
contains_self [] (c ∷ t) = refl
contains_self (c ∷ s) t = ground (arith, has_prefix-append (c ∷ s) t)

-- A text is found between any others.
pub contains_between : (before s after : Text) → contains (before ++ (s ++ after)) s ≡ true
contains_between [] s after = contains_self s after
contains_between (c ∷ before) s after = ground (arith, contains_between before s after)

-- strings.TrimPrefix takes off a prefix that was put on.
pub trim_prefix-append : (p s : Text) → trim_prefix (p ++ s) p ≡ s
trim_prefix-append p s = rw (has_prefix-append p s) (drop-append p s)
