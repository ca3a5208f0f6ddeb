-- ===== src/Store/Domains.antt =====
-- internal/store/domains.go: the sending domains and their verification.
use Prim.Native.Nat.{compare, Ordering}
use doevoe.Base.{
  ℕ, Text, Bool, true, false, ◌&&◌, Option, none, some, List, [], ◌∷◌, ◌++◌, ◌==◌, text_eq, find?,
  update, if◌then◌else◌,
}
use doevoe.Store.{Domain, Store, ok, err, constraint, Result, Statement, Action, exec, now}
use doevoe.Store.Emails.{next_id, row_or_error, missing_is_nil}

unfoldable pub verified : Domain → Bool
verified d = d.spf_verified && d.dkim_verified && d.dmarc_verified

abbrev pub is_domain : ℕ → Domain → Bool
is_domain id d = d.id == id

unfoldable pub select_domain : ℕ → Statement Domain
select_domain id db = (row_or_error (find? (is_domain id) db.domains), db)

unfoldable pub get_domain : ℕ → Action Domain
unfolding select_domain
get_domain id = exec (select_domain id)

abbrev pub is_named : Text → Domain → Bool
is_named name d = text_eq d.name name

unfoldable pub select_domain_by_name : Text → Statement Domain
select_domain_by_name name db = (row_or_error (find? (is_named name) db.domains), db)

unfoldable pub get_domain_by_name : Text → Action (Option Domain)
unfolding select_domain_by_name
get_domain_by_name name s =
    let (r, s') = exec (select_domain_by_name name) s in (missing_is_nil r, s')

-- A new row has the defaults of the schema; name is UNIQUE.
domain_row : ℕ → Text → Text → Text → ℕ → Domain
domain_row id name selector private_key at = record {
  id = id;
  name = name;
  dkim_selector = selector;
  dkim_private_key = private_key;
  spf_verified = false;
  dkim_verified = false;
  dmarc_verified = false;
  last_checked_at = 0;
  created_at = at;
}

abbrev pub insert_unless_found : Option Domain → Domain → Statement ℕ
insert_unless_found (some _) d db = (err constraint, db)
insert_unless_found none d db = (ok d.id, record db { domains = db.domains ++ d ∷ [] })

unfoldable pub insert_domain : Text → Text → Text → ℕ → Statement ℕ
unfolding next_id domain_row
insert_domain name selector private_key at db =
    let id = next_id (λ (d : Domain). d.id) db.domains in
    insert_unless_found (find? (is_named name) db.domains)
      (domain_row id name selector private_key at) db

abbrev pub then_get : Result ℕ × Store → Result Domain × Store
then_get (ok id, s) = get_domain id s
then_get (err e, s) = (err e, s)

unfoldable pub create_domain : Text → Text → Text → Action Domain
unfolding insert_domain get_domain now
create_domain name selector private_key s =
    then_get (exec (insert_domain name selector private_key (now s)) s)

-- ORDER BY name compares bytes.
unfoldable pub text_le : Text → Text → Bool
text_le [] t = true
text_le (x ∷ xs) [] = false
text_le (x ∷ xs) (y ∷ ys) =
    let rest = text_le xs ys in
    elim (compare x y) [ Ordering.lt ↦ true | Ordering.eq ↦ rest | Ordering.gt ↦ false ]

insert_by_name : Domain → List Domain → List Domain
insert_by_name d [] = d ∷ []
insert_by_name d (x ∷ xs) =
    let rest = insert_by_name d xs in if text_le d.name x.name then d ∷ x ∷ xs else x ∷ rest

unfoldable pub order_by_name : List Domain → List Domain
unfolding insert_by_name text_le
order_by_name [] = []
order_by_name (d ∷ ds) = insert_by_name d (order_by_name ds)

unfoldable pub list_domains : Action (List Domain)
unfolding order_by_name
list_domains = exec (λ db. (ok (order_by_name db.domains), db))

unfoldable pub verification_row : Bool → Bool → Bool → ℕ → Domain → Domain
verification_row spf dkim dmarc checked_at d = record d {
  spf_verified = spf;
  dkim_verified = dkim;
  dmarc_verified = dmarc;
  last_checked_at = checked_at;
}

unfoldable pub set_domain_verification : ℕ → Bool → Bool → Bool → ℕ → Action (Unit {0})
unfolding verification_row
set_domain_verification id spf dkim dmarc checked_at = exec (λ db. (
  ok tt,
  record db {
    domains = update (is_domain id) (verification_row spf dkim dmarc checked_at) db.domains;
  },
))
