-- ===== src/Server/Recheck.antt =====
-- What a round of the DNS recheck, cmd/doevoe/main.go, does to the domains.
use doevoe.Base.{
  ℕ, ◌≡◌, refl, sym, ap, ◌∙◌, subst, inl, inr, false, List, [], ◌∷◌, Bool-cases, ==_iff, Related,
  All, IsIn, All-IsIn, Related-refl, Related-trans, Related-update,
}
use doevoe.Store.{Domain, Db, Store, Result, ok, err, now, exec-ends}
use doevoe.Store.Reads.{exec_read}
use doevoe.Store.Domains.{
  is_domain, set_domain_verification, verification_row, list_domains, order_by_name,
}
use doevoe.DnsCheck
use doevoe.Server.{store_verdict, recheck_all, on_domains, recheck}

abbrev pub took_row : DnsCheck.Result → ℕ → Domain → Domain
took_row r at d = verification_row r.spf.ok r.dkim.ok r.dmarc.ok at d

-- A domain is as it was, or it took the verdict of a check of it that was not indeterminate.
pub data Checked (asked : Domain → Type 0) (run_check : Domain → Store → DnsCheck.Result)
    (d d' : Domain) : Type 0 where
  kept : d' ≡ d → Checked asked run_check d d'
  took :
      (listed : Domain) (s : Store) (at : ℕ)
      → asked listed
      → listed.id ≡ d.id
      → (run_check listed s).indeterminate ≡ false
      → d' ≡ took_row (run_check listed s) at d
      → Checked asked run_check d d'

module _ (asked : Domain → Type 0) (run_check : Domain → Store → DnsCheck.Result) where
  Checked-refl : (d : Domain) → Checked asked run_check d d
  Checked-refl d = kept refl

  Checked-trans :
      (a b c : Domain)
      → Checked asked run_check a b
      → Checked asked run_check b c
      → Checked asked run_check a c
  unfolding verification_row
  Checked-trans a b c p (kept e) = subst (Checked asked run_check a) (sym e) p
  Checked-trans a b c (kept e) (took l s at inside same known q) =
      took l s at inside (same ∙ ap (λ (d : Domain). d.id) e) known
        (q ∙ ap (took_row (run_check l s) at) e)
  Checked-trans a b c (took l0 s0 at0 in0 same0 known0 e) (took l s at inside same known q) =
      took l s at inside (same ∙ ap (λ (d : Domain). d.id) e) known
        (q ∙ ap (took_row (run_check l s) at) e)

  abbrev pub Domains : Store → Store → Type 0
  Domains s t = Related (Checked asked run_check) s.domains t.domains × (t.emails ≡ s.emails)

  store_verdict-Checked :
      (d : Domain) (s : Store) → asked d → Domains s (store_verdict d (run_check d s) s)
  unfolding store_verdict set_domain_verification
  store_verdict-Checked d s a = elim (Bool-cases (run_check d s).indeterminate) [
    | inl unknown ↦ rw unknown (Related-refl (Checked asked run_check) Checked-refl s.domains, refl)
    | inr known ↦ rw known (
        exec-ends
          (λ r db. Related (Checked asked run_check) s.domains db.domains × (db.emails ≡ s.emails))
          _ s (λ m. (Related-refl (Checked asked run_check) Checked-refl s.domains, refl))
          (
            Related-update (Checked asked run_check) (is_domain d.id) _ Checked-refl
                (λ x met. took d s (now s) a (sym ((==_iff x.id d.id).0 met)) known refl) s.domains,
            refl,
          ))
  ]

  recheck_all-Checked :
      (ds : List Domain) (s : Store) → All asked ds → Domains s (recheck_all run_check ds s)
  unfolding recheck_all
  recheck_all-Checked [] s all =
      (Related-refl (Checked asked run_check) Checked-refl s.domains, refl)
  recheck_all-Checked (d ∷ ds) s all =
      let s' = store_verdict d (run_check d s) s in
      let (first, emails) = store_verdict-Checked d s all.0 in
      let (rest, emails') = recheck_all-Checked ds s' all.1 in
      (
        Related-trans (Checked asked run_check) Checked-trans s.domains s'.domains
            (recheck_all run_check ds s').domains first rest,
        emails' ∙ emails,
      )

-- A round of the recheck changes no email, and each row of the domains is as it was, or has the
-- verdict of a check of a listed domain of its id, and that check was not indeterminate.
pub recheck-Checked :
    (run_check : Domain → Store → DnsCheck.Result) (s : Store)
    → Domains (λ d. IsIn d (order_by_name s.domains)) run_check s (recheck run_check s)
unfolding recheck on_domains list_domains
recheck-Checked run_check s =
    let (r, s1) = list_domains s in
    let (same, listed) = exec_read (λ db. ok (order_by_name db.domains)) s in
    of_result r s1 same listed
  where
    plain : {a b : List Domain} → ◌≡◌ {A = Result (List Domain)} (ok a) (ok b) → a ≡ b
    plain p = cc

    of_result :
        (r : Result (List Domain)) (s1 : Store)
        → s1.db ≡ s.db
        → ((ds : List Domain)
            → r ≡ ok ds
            → ◌≡◌ {A = Result (List Domain)} (ok (order_by_name s.domains)) (ok ds))
        → Domains (λ d. IsIn d (order_by_name s.domains)) run_check s (on_domains run_check (r, s1))
    of_result (err e) s1 same listed =
        rw (ap (λ (d : Db). d.domains) same, ap (λ (d : Db). d.emails) same)
          (
            Related-refl _ (Checked-refl (λ d. IsIn d (order_by_name s.domains)) run_check)
                s.domains,
            refl,
          )
    of_result (ok ds) s1 same listed =
        let (rows, emails) =
          recheck_all-Checked (λ d. IsIn d (order_by_name s.domains)) run_check ds s1
            (subst (λ l. All (λ d. IsIn d (order_by_name s.domains)) l) (plain (listed ds refl))
              (All-IsIn (order_by_name s.domains))) in
        (
          subst
              (λ l.
                Related (Checked (λ d. IsIn d (order_by_name s.domains)) run_check) l
                  (recheck_all run_check ds s1).domains)
              (ap (λ (d : Db). d.domains) same) rows,
          emails ∙ ap (λ (d : Db). d.emails) same,
        )
