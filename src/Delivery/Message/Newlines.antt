-- ===== src/Delivery/Message/Newlines.antt =====
-- The line endings of a body: `crlf` leaves no bare line feed, and settles after one pass.
use doevoe.Base.{
  ℕ, ◌≡◌, refl, ap, Text, Bool, true, false, ◌&&◌, [], ◌∷◌, arith, ◌==◌, if◌then◌else◌, Bool-cases,
  inl, inr,
}
use doevoe.Delivery.Message.{starts_lf, to_lf, to_crlf, crlf}

starts_lf-to_crlf : (s : Text) → starts_lf (to_crlf s) ≡ false
unfolding to_crlf
starts_lf-to_crlf [] = refl
starts_lf-to_crlf (c ∷ s) = ground arith

to_lf-to_crlf : (s : Text) → to_lf (to_crlf s) ≡ s
unfolding to_crlf to_lf
to_lf-to_crlf [] = refl
to_lf-to_crlf (c ∷ s) = elim (Bool-cases (c == 10)) [
  | inl lf ↦ rw (lf, to_lf-to_crlf s) (ap (λ (d : ℕ). d ∷ s) (ground arith))
  | inr other ↦ rw (other, starts_lf-to_crlf s, to_lf-to_crlf s) (ground arith)
]

-- A text whose line feeds all follow a carriage return; `after_cr` says whether one stands before.
abbrev pub no_bare_lf : Bool → Text → Bool
no_bare_lf after_cr [] = true
no_bare_lf after_cr (c ∷ s) =
    let rest = no_bare_lf (c == 13) s in if c == 10 then after_cr && rest else rest

to_crlf-no_bare_lf : (after_cr : Bool) (s : Text) → no_bare_lf after_cr (to_crlf s) ≡ true
unfolding to_crlf
to_crlf-no_bare_lf b [] = refl
to_crlf-no_bare_lf b (c ∷ s) =
    ground
      (arith, to_crlf-no_bare_lf false s, to_crlf-no_bare_lf true s, to_crlf-no_bare_lf (c == 13) s)

-- For every text, `crlf` leaves no line feed without a carriage return before it, keeps the lines
-- of the text, and changes its own result no more.
pub crlf_lem :
    (s : Text)
    → (no_bare_lf false (crlf s) ≡ true) × (to_lf (crlf s) ≡ to_lf s) × (crlf (crlf s) ≡ crlf s)
unfolding crlf
crlf_lem s = (
  to_crlf-no_bare_lf false (to_lf s),
  to_lf-to_crlf (to_lf s),
  ap to_crlf (to_lf-to_crlf (to_lf s)),
)
