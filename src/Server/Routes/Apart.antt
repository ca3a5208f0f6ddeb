-- ===== src/Server/Routes/Apart.antt =====
-- No two patterns of the mux match one request, so it does not matter which of two takes precedence.
use doevoe.Base.{
  ◌≤◌, ◌≡◌, refl, sym, arith, Text, Bool, true, false, ◌&&◌, ◌||◌, not, List, [], ◌∷◌, text_eq,
  text_eq_sound, text_eq_refl, is_empty, select, length,
}
use doevoe.Server.Routes.{
  Method, get, head, post, other_method, Segment, literal, id_param, Pattern, routes, accepts, fits,
  fits_all, matches,
}

-- Methods that no request has both.
abbrev differ : Method → Method → Bool
differ get post = true
differ post get = true
differ _ _ = false

abbrev clash : Segment → Segment → Bool
clash (literal t) (literal u) = not (text_eq t u)
clash (literal t) id_param = is_empty t
clash id_param (literal u) = is_empty u
clash id_param id_param = false

abbrev diverge : Bool → List Segment → Bool → List Segment → Bool
diverge sp [] sq [] = (sp && not sq) || (sq && not sp)
diverge sp [] sq (q ∷ qs) = not sp
diverge sp (p ∷ ps) sq [] = not sq
diverge sp (p ∷ ps) sq (q ∷ qs) = let rest = diverge sp ps sq qs in clash p q || rest

abbrev apart : Pattern → Pattern → Bool
apart p q = differ p.method q.method || diverge p.is_subtree p.segments q.is_subtree q.segments

differ_lem : (m n r : Method) → differ m n ≡ true → accepts m r ≡ true → accepts n r ≡ true → ⊥
differ_lem get post get h a b = cc
differ_lem get post head h a b = cc
differ_lem get post post h a b = cc
differ_lem get post other_method h a b = cc
differ_lem post get get h a b = cc
differ_lem post get head h a b = cc
differ_lem post get post h a b = cc
differ_lem post get other_method h a b = cc
differ_lem get get r h a b = cc
differ_lem get head r h a b = cc
differ_lem get other_method r h a b = cc
differ_lem post post r h a b = cc
differ_lem post head r h a b = cc
differ_lem post other_method r h a b = cc
differ_lem head n r h a b = cc
differ_lem other_method n r h a b = cc

empty_named : (s t : Text) → text_eq s t ≡ true → is_empty t ≡ true → not (is_empty s) ≡ true → ⊥
empty_named s t same h b = ground (arith, rw (sym (text_eq_sound s t same)) at h, b)

clash_lem : (p q : Segment) (s : Text) → clash p q ≡ true → fits p s ≡ true → fits q s ≡ true → ⊥
clash_lem (literal t) (literal u) s h a b = not_both (text_eq t u) same h
  where
    same : text_eq t u ≡ true
    same = rw (sym (text_eq_sound s t a), sym (text_eq_sound s u b)) (text_eq_refl s)

    not_both : (b : Bool) → b ≡ true → not b ≡ true → ⊥
    not_both b h k = ground (arith, h, k)
clash_lem (literal t) id_param s h a b = empty_named s t a h b
clash_lem id_param (literal u) s h a b = empty_named s u b h a
clash_lem id_param id_param s h a b = cc

diverge_lem :
    (sp : Bool) (ps : List Segment) (sq : Bool) (qs : List Segment) (path : List Text)
    → diverge sp ps sq qs ≡ true
    → fits_all sp ps path ≡ true
    → fits_all sq qs path ≡ true
    → ⊥
unfolding fits_all
diverge_lem sp [] sq [] [] h a b = ground (arith, h, a, b)
diverge_lem sp [] sq [] (s ∷ ss) h a b = ground (arith, h, a, b)
diverge_lem sp [] sq (q ∷ qs) [] h a b = cc
diverge_lem sp [] sq (q ∷ qs) (s ∷ ss) h a b = ground (arith, h, a)
diverge_lem sp (p ∷ ps) sq [] [] h a b = cc
diverge_lem sp (p ∷ ps) sq [] (s ∷ ss) h a b = ground (arith, h, b)
diverge_lem sp (p ∷ ps) sq (q ∷ qs) [] h a b = cc
diverge_lem sp (p ∷ ps) sq (q ∷ qs) (s ∷ ss) h a b =
    ground (arith, h, a, b, clash_lem p q s, diverge_lem sp ps sq qs ss)

apart_lem :
    (m : Method) (path : List Text) (p q : Pattern)
    → apart p q ≡ true
    → matches m path p ≡ true
    → matches m path q ≡ false
unfolding matches
apart_lem m path p q h a = ground (
  arith,
  h,
  a,
  differ_lem p.method q.method m,
  diverge_lem p.is_subtree p.segments q.is_subtree q.segments path,
)

abbrev all_apart_from : Pattern → List Pattern → Bool
all_apart_from p [] = true
all_apart_from p (q ∷ qs) = let rest = all_apart_from p qs in apart p q && rest

abbrev all_apart : List Pattern → Bool
all_apart [] = true
all_apart (p ∷ ps) = let rest = all_apart ps in all_apart_from p ps && rest

none_else :
    (m : Method) (path : List Text) (p : Pattern) (qs : List Pattern)
    → matches m path p ≡ true
    → all_apart_from p qs ≡ true
    → length (select (matches m path) qs) ≡ 0
none_else m path p [] a h = refl
none_else m path p (q ∷ qs) a h = ground (arith, a, h, apart_lem m path p q, none_else m path p qs)

at_most_one :
    (m : Method) (path : List Text) (ps : List Pattern)
    → all_apart ps ≡ true
    → length (select (matches m path) ps) ≤ 1
at_most_one m path [] h = omega arith
at_most_one m path (p ∷ ps) h = ground (arith, h, none_else m path p ps, at_most_one m path ps)

-- Whatever the method and the path of a request, at most one of the patterns that the server
-- registers matches it, so no request depends on which pattern takes precedence.
pub routes-matches : (m : Method) (path : List Text) → length (select (matches m path) routes) ≤ 1
routes-matches m path = at_most_one m path routes refl
