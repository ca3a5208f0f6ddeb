-- ===== src/Store/Listing.antt =====
-- internal/store/emails.go, ListEmails, and internal/store/apikeys.go, ListAPIKeys. SQLite's LIKE is
-- a parameter.
use doevoe.Base.{
  ℕ, ℤ, is_zero, is_nat, ◌==◌, ltb, leb, Text, Bool, ◌&&◌, ◌||◌, List, [], ◌∷◌, ◌++◌, codes,
  text_eq, is_empty, if◌then◌else◌, select, take, drop,
}
use doevoe.Store.{Status, queued, sending, sent, failed, canceled, Email, ApiKey, Action, ok, exec}

-- The text of the column `status`.
abbrev pub status_text : Status → Text
status_text queued = codes "queued"
status_text sending = codes "sending"
status_text sent = codes "sent"
status_text failed = codes "failed"
status_text canceled = codes "canceled"

-- EmailFilter; 0 stands for the empty string in the bounds.
pub record EmailFilter : Type 0 where
  pub status : Text
  pub domain_id : ℤ
  pub search : Text
  pub created_from : ℕ
  pub created_to : ℕ
  pub limit : ℕ
  pub offset : ℕ

-- The conditions that are joined by AND: each holds of every email if its field is not set.
unfoldable pub fits_filter : (Text → Text → Bool) → EmailFilter → Email → Bool
fits_filter like f e =
    (is_empty f.status || text_eq (status_text e.status) f.status)
    && (is_zero f.domain_id || is_nat f.domain_id e.domain_id)
    && (is_empty f.search
        || like e.to (codes "%" ++ f.search ++ codes "%")
        || like e.subject (codes "%" ++ f.search ++ codes "%"))
    && (f.created_from == 0 || leb f.created_from e.created_at)
    && (f.created_to == 0 || ltb e.created_at f.created_to)

-- ORDER BY created_at DESC, id DESC
unfoldable pub is_newer : Email → Email → Bool
is_newer a b = ltb b.created_at a.created_at || (a.created_at == b.created_at && leb b.id a.id)

unfoldable pub insert_newest : Email → List Email → List Email
unfolding is_newer
insert_newest e [] = e ∷ []
insert_newest e (x ∷ xs) =
    let rest = insert_newest e xs in if is_newer e x then e ∷ x ∷ xs else x ∷ rest

unfoldable pub newest_first : List Email → List Email
unfolding insert_newest
newest_first [] = []
newest_first (e ∷ es) = insert_newest e (newest_first es)

-- All rows of a filter, in order.
unfoldable pub matching : (Text → Text → Bool) → EmailFilter → List Email → List Email
unfolding fits_filter newest_first
matching like f es = newest_first (select (fits_filter like f) es)

-- ListEmails
unfoldable pub list_emails : (Text → Text → Bool) → EmailFilter → Action (List Email)
unfolding matching
list_emails like f = exec (λ db. (
  ok (take (if f.limit == 0 then 50 else f.limit) (drop f.offset (matching like f db.emails))),
  db,
))

-- ORDER BY created_at DESC, equal times in the order of the table
insert_newest_key : ApiKey → List ApiKey → List ApiKey
insert_newest_key k [] = k ∷ []
insert_newest_key k (x ∷ xs) =
    let rest = insert_newest_key k xs in
    if leb x.created_at k.created_at then k ∷ x ∷ xs else x ∷ rest

unfoldable pub newest_keys : List ApiKey → List ApiKey
unfolding insert_newest_key
newest_keys [] = []
newest_keys (k ∷ ks) = insert_newest_key k (newest_keys ks)

-- ListAPIKeys
unfoldable pub list_api_keys : Action (List ApiKey)
unfolding newest_keys
list_api_keys = exec (λ db. (ok (newest_keys db.api_keys), db))
