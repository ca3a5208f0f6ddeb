-- ===== src/Api/Get/Owned.antt =====
-- Who may read an email.
use doevoe.Base.{
  ℕ, ◌≡◌, ◌≢◌, ◌⊎◌, ◌∙◌, refl, ap, inl, inr, Text, Option, none, some, ◌==◌, ==_iff, arith, find?,
  Bool-cases,
}
use doevoe.Store.{Email, ApiKey, Db, Store, Result, ok, err}
use doevoe.Store.Emails.{has_id, get_email}
use doevoe.Api.Requests.{Env, Request, Response, Authed, auth, bearer_token, refuse_token}
use doevoe.Api.Requests.Auth.{IsCaller, auth_lem, auth-refused, get_email_lem}
use doevoe.Api.Get.{details, show_if_owned, get_authed, get_email_handler}

pub record Shown (env : Env) (r : Request) (id : Option ℕ) (s : Store) (res : Response)
    : Type 0 where
  pub key : ApiKey
  pub number : ℕ
  pub email : Email
  pub caller : IsCaller env r.authorization s (some key)
  pub asked : id ≡ some number
  pub found : find? (has_id number) s.emails ≡ some email
  pub owned : email.domain_id ≡ key.domain_id
  pub response : res ≡ details email

abbrev pub Read : Env → Request → Option ℕ → Store → Response → Store → Type 0
Read env r id s res s' = (s'.emails ≡ s.emails) × (Shown env r id s res ⊎ (res.code ≢ 200))

refused_code : (t : Option Text) → (refuse_token t).code ≢ 200
refused_code none = omega arith
refused_code (some token) = omega arith

module _ (env : Env) (r : Request) (s : Store) where
  show_if_owned-Shown :
      (k : ApiKey) (number : ℕ) (e : Result Email)
      → IsCaller env r.authorization s (some k)
      → ((x : Email) → e ≡ ok x → find? (has_id number) s.emails ≡ some x)
      → Shown env r (some number) s (show_if_owned k e) ⊎ ((show_if_owned k e).code ≢ 200)
  unfolding show_if_owned
  show_if_owned-Shown k number (err x) caller found = inr (omega arith)
  show_if_owned-Shown k number (ok e) caller found =
      elim (Bool-cases (e.domain_id == k.domain_id)) [
        | inl own ↦ inl (record {
          key = k;
          number = number;
          email = e;
          caller = caller;
          asked = refl;
          found = found e refl;
          owned = (==_iff e.domain_id k.domain_id).0 own;
          response = rw own;
        })
        | inr foreign ↦ inr (rw foreign (omega arith))
      ]

  -- A GET of an email changes no email, and either has another answer than 200, or shows the email
  -- of the given id, to a caller with the token of a live key on the domain of that email.
  pub get_email_handler-Read :
      (id : Option ℕ) → let (res, s') = get_email_handler env r id s in Read env r id s res s'
  unfolding get_email_handler
  get_email_handler-Read id =
      let (a, s1) = auth env r.authorization s in
      let (emails, domains, caller) = auth_lem env r.authorization s in
      of_caller id a s1 emails caller
    where
      of_caller :
          (id : Option ℕ) (a : Authed) (s1 : Store)
          → s1.emails ≡ s.emails
          → IsCaller env r.authorization s a
          → let (res, s') = get_authed r id (a, s1) in Read env r id s res s'
      of_caller id none s1 same caller =
          unfold get_authed in (same, inr (refused_code (bearer_token r.authorization)))
      of_caller none (some k) s1 same caller = unfold get_authed in (same, inr (omega arith))
      of_caller (some number) (some k) s1 same caller =
          unfold get_authed in
          (let (e, s2) = get_email number s1 in
            let (kept, found) = get_email_lem number s1 in
            (
              ap (λ (d : Db). d.emails) kept ∙ same,
              show_if_owned-Shown k number e caller (λ x h. rw (← same) (found x h)),
            ))

-- getEmail without an API key changes no table.
pub get_email_handler-refused :
    (env : Env) (r : Request) (id : Option ℕ) (s : Store)
    → (auth env r.authorization s).0 ≡ none
    → (get_email_handler env r id s).1.db ≡ s.db
unfolding get_email_handler
get_email_handler-refused env r id s h =
    let (a, s') = auth env r.authorization s in
    of_authed a s' h (auth-refused env r.authorization s h)
  where
    of_authed :
        (a : Authed) (s' : Store) → a ≡ none → s'.db ≡ s.db → (get_authed r id (a, s')).1.db ≡ s.db
    of_authed none s' h same = unfold get_authed in same
    of_authed (some k) s' h same = cc
