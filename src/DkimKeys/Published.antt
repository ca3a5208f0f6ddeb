-- ===== src/DkimKeys/Published.antt =====
-- The records that the operator is told to publish, against the check of the same domain.
use doevoe.Base.{
  ◌≡◌, refl, ap, sym, subst, ◌∙◌, contains_self, Text, Bool, true, false, none, some, List, [], ◌∷◌,
  ◌++◌, arith, codes, contains, contains_between, Fallible, value, failure, trim_prefix-append,
}
use doevoe.DkimKeys.{
  Crypto, generate, with_der, with_key, parse_block, parse_private_key, public_key_txt,
  public_b64_from_private_pem, dkim_prefix,
}
use mathlib.Core.List.{append_assoc}
use doevoe.Base.{ℕ, get_elem?}
use doevoe.DkimKeys.{DnsRecord, records}
use doevoe.DnsCheck.{Lookup, check, all_ok, strip_spaces, join}
use doevoe.DnsCheck
use doevoe.DnsCheck.Verdicts.{any, fits_spf, fits_dmarc, check-verdicts}

-- What is used of the codecs: a key that was written as PEM is read back.
pub record ReadsBack (c : Crypto) : Type 0 where
  pub block : c.Key → Text
  pub decoded : (k : c.Key) → c.decode_pem (c.to_pem k) ≡ some (block k)
  pub parsed : (k : c.Key) → c.parse_pkcs1 (block k) ≡ value k

abbrev found : List Text → Lookup
found = DnsCheck.records

module _ (c : Crypto) (laws : ReadsBack c) (k : c.Key) where
  of_der :
      (der : Fallible Text) {pem pub_base64 : Text}
      → c.marshal_pkix (c.public k) ≡ der
      → with_der c k der ≡ value (pem, pub_base64)
      → public_b64_from_private_pem c pem ≡ value pub_base64
  unfolding with_der public_b64_from_private_pem parse_private_key parse_block public_key_txt
  of_der (failure e) m h = cc
  of_der (value d) {pem} {pub_base64} m h =
      let same_pem : c.to_pem k ≡ pem = cc in
      let same_key : c.base64 d ≡ pub_base64 = cc in
      rw (← same_pem, laws.decoded k, laws.parsed k, m, trim_prefix-append dkim_prefix (c.base64 d))
        (ap value same_key)

-- If PEM and PKCS #1 read back what they wrote, then the public key that is found again in a private
-- key that Generate made is the one that Generate returned beside it.
pub generate-public_b64 :
    (c : Crypto) (laws : ReadsBack c) (pem pub_base64 : Text)
    → generate c ≡ value (pem, pub_base64)
    → public_b64_from_private_pem c pem ≡ value pub_base64
unfolding generate with_key
generate-public_b64 c laws pem pub_base64 h = of_key c.generate_key h
  where
    of_key :
        (key : Fallible c.Key)
        → with_key c key ≡ value (pem, pub_base64)
        → public_b64_from_private_pem c pem ≡ value pub_base64
    of_key (failure e) h = cc
    of_key (value k) h = of_der c laws k (c.marshal_pkix (c.public k)) refl h

strip_spaces-append : (s t : Text) → strip_spaces (s ++ t) ≡ strip_spaces s ++ strip_spaces t
unfolding strip_spaces
strip_spaces-append [] t = refl
strip_spaces-append (c ∷ s) t = ground (arith, strip_spaces-append s t)

join-append : (xs ys : List Text) → join (xs ++ ys) ≡ join xs ++ join ys
unfolding join
join-append [] ys = refl
join-append (x ∷ xs) ys = rw (join-append xs ys, append_assoc)

any-between :
    (p : Text → Bool) (xs : List Text) (y : Text) (zs : List Text)
    → p y ≡ true
    → any p (xs ++ y ∷ zs) ≡ true
any-between p [] y zs h = rw h
any-between p (x ∷ xs) y zs h = ground (arith, any-between p xs y zs h)

strip_joined :
    (before : List Text) (pre s : Text) (after : List Text)
    → strip_spaces (join (before ++ (pre ++ s) ∷ after))
      ≡ strip_spaces (join before)
        ++ (strip_spaces pre ++ (strip_spaces s ++ strip_spaces (join after)))
unfolding join
strip_joined before pre s after = rw (
  join-append before ((pre ++ s) ∷ after),
  strip_spaces-append (join before) ((pre ++ s) ++ join after),
  strip_spaces-append (pre ++ s) (join after),
  strip_spaces-append pre s,
  append_assoc,
)

-- A key without spaces is found in the published DKIM record, whichever other records stand beside it.
found_key :
    (before : List Text) (key : Text) (after : List Text)
    → strip_spaces key ≡ key
    → contains (strip_spaces (join (before ++ (dkim_prefix ++ key) ∷ after))) (codes "p=" ++ key)
      ≡ true
unfolding strip_spaces
found_key before key after spaceless =
    let b = strip_spaces (join before) in
    let a = strip_spaces (join after) in
    let name : Text = codes "v=DKIM1;k=rsa;" in
    subst (λ (t : Text). contains t (codes "p=" ++ key) ≡ true)
      (sym (
        strip_joined before dkim_prefix key after
        ∙ ap (λ (t : Text). b ++ (name ++ (codes "p=" ++ (t ++ a)))) spaceless
        ∙ sym (append_assoc b name (codes "p=" ++ (key ++ a)))))
      (contains_between (b ++ name) (codes "p=" ++ key) a)

-- The text of a published record; the rows stand in the order of the three lookups of a check.
abbrev pub content_at : ℕ → List DnsRecord → Text
content_at i rs = elim (get_elem? rs i) [ none ↦ [] | some r ↦ r.content ]

-- If each of the three lookups of a domain finds the record that Records tells its owner to
-- publish, among any others, and the key has no space, then Check finds all three and nothing
-- indeterminate.
pub records-all_ok :
    (lookup_txt : Text → Lookup) (domain selector key egress_ip admin_email : Text)
    (a b c d e f : List Text)
    → strip_spaces key ≡ key
    → let rs = records domain selector key egress_ip admin_email in
      lookup_txt domain ≡ found (a ++ content_at 0 rs ∷ b)
      → lookup_txt (selector ++ codes "._domainkey." ++ domain) ≡ found (c ++ content_at 1 rs ∷ d)
      → lookup_txt (codes "_dmarc." ++ domain) ≡ found (e ++ content_at 2 rs ∷ f)
      → let r = check lookup_txt domain selector key egress_ip in
        (all_ok r ≡ true) × (r.indeterminate ≡ false)
unfolding records all_ok
records-all_ok lookup_txt domain selector key egress_ip admin_email a b c d e f spaceless spf dkim
      dmarc =
    let (of_spf, of_dkim, of_dmarc, of_any) =
      check-verdicts lookup_txt domain selector key egress_ip in
    let fit : fits_spf egress_ip (codes "v=spf1 ip4:" ++ egress_ip ++ codes " -all") ≡ true =
      contains_self (codes "ip4:" ++ egress_ip) (codes " -all") in
    (
      rw (
        of_spf,
        of_dkim,
        of_dmarc,
        spf,
        dkim,
        dmarc,
        any-between (fits_spf egress_ip) a _ b fit,
        found_key c key d spaceless,
        any-between fits_dmarc e _ f refl,
      ),
      rw (of_any, spf, dkim, dmarc),
    )
