-- ===== src/Store/Operator/Addresses.antt =====
-- The address that an email was first sent to survives any number of corrections.
use doevoe.Base.{
  ℕ, ◌≡◌, refl, Text, false, List, [], ◌∷◌, arith, is_empty, text_eq_sound, if◌then◌else◌, ◌∙◌,
}
use doevoe.Store.{Email}
use doevoe.Store.Operator.{requeue_change}

-- What the detail page shows as the address that the email was first sent to.
abbrev pub first_address : Email → Text
first_address e = if is_empty e.original_to then e.to else e.original_to

-- One accepted requeue: the new address and name, of which an empty address keeps both, and the time.
pub record Requeue : Type 0 where
  pub new_to : Text
  pub new_to_name : Text
  pub at : ℕ

abbrev pub requeue_all : List Requeue → Email → Email
requeue_all [] e = e
requeue_all (q ∷ qs) e = requeue_all qs (requeue_change q.new_to q.new_to_name q.at e)

requeue_change-first_address :
    (new_to name : Text) (at : ℕ) (e : Email)
    → is_empty e.to ≡ false
    → (first_address (requeue_change new_to name at e) ≡ first_address e)
      × (is_empty (requeue_change new_to name at e).to ≡ false)
unfolding requeue_change
requeue_change-first_address new_to name at e h = ground (arith, text_eq_sound e.to new_to)

-- However often an email with an address is requeued, and to whichever addresses, the address that
-- it was first sent to is kept.
pub requeue_all-first_address :
    (qs : List Requeue) (e : Email)
    → is_empty e.to ≡ false
    → first_address (requeue_all qs e) ≡ first_address e
requeue_all-first_address [] e h = refl
requeue_all-first_address (q ∷ qs) e h =
    let (same, filled) = requeue_change-first_address q.new_to q.new_to_name q.at e h in
    requeue_all-first_address qs (requeue_change q.new_to q.new_to_name q.at e) filled ∙ same
