-- ===== src/Admin/Listing/Window.antt =====
-- The links of the email list keep its period.
use doevoe.Base.{
  ℕ, ◌≡◌, refl, sym, ap, ◌∙◌, Text, Option, none, some, List, [], ◌∷◌, arith, codes, text_eq,
  text_eq_sound, Bool-cases, Option-cases, inl, inr,
}
use mathlib.Core.Option.{some-injective}
use doevoe.Store.Listing.{EmailFilter}
use doevoe.Admin.Periods.{
  Parsing, Query, get, EmailRange, email_ranges, range_in, EmailWindow, preset_window, custom_of,
  custom_labelled, custom_window, preset_or_default, window_or, resolve_email_window, window_label,
  echoed,
}
use doevoe.Admin.Listing.{link_to}

-- What is read back of a link: the period, the two dates.
link_values :
    (p : Parsing) (f : EmailFilter) (win : EmailWindow) (n : ℕ)
    → let q = link_to p f win n in
      (get (codes "range") q ≡ win.range)
      × (get (codes "from") q ≡ win.from_date)
      × (get (codes "to") q ≡ win.to_date)
unfolding link_to
link_values p f win n = ground arith

-- A preset is found again under its own key.
range_in-key :
    (key : Text) (rs : List EmailRange) {r : EmailRange} → range_in key rs ≡ some r → r.key ≡ key
range_in-key key [] e = cc
range_in-key key (x ∷ xs) {r} e = elim (Bool-cases (text_eq x.key key)) [
  | inl same ↦
      ap (λ (y : EmailRange). y.key) (sym (some-injective x r (rw same at e)))
      ∙ text_eq_sound x.key key same
  | inr other ↦ range_in-key key xs (rw other at e)
]

date-echoed :
    (p : Parsing) (raw : Text) → p.date [] ≡ none → p.date (echoed raw (p.date raw)) ≡ p.date raw
date-echoed p raw h = elim (Option-cases (p.date raw)) [
  | inl absent ↦ rw absent h
  | inr (d, e) ↦ rw e e
]

echoed-echoed : (raw : Text) (d : Option ℕ) → echoed (echoed raw d) d ≡ echoed raw d
echoed-echoed raw none = refl
echoed-echoed raw (some d) = refl

-- A custom period has the dates that it echoes, and is built again from them.
labelled_fields :
    (a b : Text) (da db : Option ℕ) (label : Option Text) {w : EmailWindow}
    → custom_labelled a b da db label ≡ some w
    → (w.from_date ≡ echoed a da)
      × (w.to_date ≡ echoed b db)
      × (w.range ≡ codes "custom")
      × (custom_labelled (echoed a da) (echoed b db) da db label ≡ some w)
unfolding custom_labelled
labelled_fields a b da db none e = cc
labelled_fields a b da db (some label) e =
    let h = some-injective _ _ e in
    (
      sym (ap (λ (w : EmailWindow). w.from_date) h),
      sym (ap (λ (w : EmailWindow). w.to_date) h),
      sym (ap (λ (w : EmailWindow). w.range) h),
      rw (echoed-echoed a da, echoed-echoed b db) e,
    )

-- Without a date there is no custom period, and a preset is resolved from its key.
window_or-preset :
    (range : Text) (at : ℕ)
    → let w = preset_or_default at (range_in range email_ranges) in
      (w.from_date ≡ [])
      × (w.to_date ≡ [])
      × (preset_or_default at (range_in w.range email_ranges) ≡ w)
unfolding preset_or_default preset_window
window_or-preset range at = elim (Option-cases (range_in range email_ranges)) [
  | inl absent ↦ rw absent (refl, refl, refl)
  | inr (r, e) ↦ rw e (
    refl,
    refl,
    ap (preset_or_default at)
        (ap (λ k. range_in k email_ranges) (range_in-key range email_ranges {r = r} e) ∙ e),
  )
]

-- The period that two dates and a key give is given again by its own dates and key.
resolved_again :
    (p : Parsing) (from_raw to_raw range : Text) (at : ℕ) (o : Option EmailWindow)
    → p.date [] ≡ none
    → custom_window p from_raw to_raw ≡ o
    → let w = window_or at range o in
      window_or at w.range (custom_window p w.from_date w.to_date) ≡ w
unfolding window_or custom_window custom_of window_label
resolved_again p from_raw to_raw range at none h e =
    let fields = window_or-preset range at in
    let no_dates : custom_window p [] [] ≡ none = rw h refl in
    rw (fields.0, fields.1, no_dates) fields.2
resolved_again p from_raw to_raw range at (some w) h e =
    let fields = labelled_fields from_raw to_raw (p.date from_raw) (p.date to_raw) _ {w = w} e in
    let a = echoed from_raw (p.date from_raw) in
    let b = echoed to_raw (p.date to_raw) in
    let echo : custom_window p a b ≡ some w =
      rw
        (
          date-echoed p from_raw h,
          date-echoed p to_raw h,
          echoed-echoed from_raw (p.date from_raw),
          echoed-echoed to_raw (p.date to_raw),
        )
        fields.3 in
    let again : custom_window p w.from_date w.to_date ≡ some w =
      ap (λ t. custom_window p t w.to_date) fields.0
      ∙ (ap (λ t. custom_window p a t) fields.1 ∙ echo) in
    ap (window_or at w.range) again

pub resolved-link :
    (p : Parsing) (f : EmailFilter) (q : Query) (at n : ℕ)
    → p.date [] ≡ none
    → let win = resolve_email_window p q at in resolve_email_window p (link_to p f win n) at ≡ win
unfolding resolve_email_window
resolved-link p f q at n h =
    let win = resolve_email_window p q at in
    let values = link_values p f win n in
    rw (values.0, values.1, values.2) (resolved_again p _ _ (get (codes "range") q) at _ h refl)
