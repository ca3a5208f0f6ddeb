-- ===== src/DnsCheck/Verdicts.antt =====
-- What the verdicts of a DNS check rest on.
use doevoe.Base.{
  ◌∙◌, ◌≡◌, refl, inl, inr, Text, Bool, true, false, ◌&&◌, ◌||◌, List, [], ◌∷◌, ◌++◌, arith, codes,
  has_prefix, has_prefix-append, contains, Bool-cases,
}
use mathlib.Core.List.{append_assoc}
use doevoe.DnsCheck.{
  Lookup, records, check, scan_spf, scan_dmarc, texts_of, lookup_failed, strip_spaces, join,
}

-- If the only SPF record names an address that the egress address is a proper or improper prefix
-- of, then Check takes SPF for verified.
pub spf_of_longer_address :
    (lookup_txt : Text → Lookup) (domain selector pub_base64 egress_ip more : Text)
    → lookup_txt domain ≡ records ((codes "v=spf1 ip4:" ++ egress_ip ++ more ++ codes " -all") ∷ [])
    → (check lookup_txt domain selector pub_base64 egress_ip).spf.ok ≡ true
unfolding check scan_spf
spf_of_longer_address lookup_txt domain selector pub_base64 egress_ip more h = rw (
  h,
  append_assoc egress_ip more (codes " -all"),
  has_prefix-append egress_ip (more ++ codes " -all"),
)

abbrev pub any : (Text → Bool) → List Text → Bool
any p [] = false
any p (t ∷ ts) = let rest = any p ts in p t || rest

abbrev pub fits_spf : Text → Text → Bool
fits_spf egress_ip txt = has_prefix txt (codes "v=spf1") && contains txt (codes "ip4:" ++ egress_ip)

abbrev pub fits_dmarc : Text → Bool
fits_dmarc txt = has_prefix txt (codes "v=DMARC1")

scan_spf-any :
    (ip : Text) (txts : List Text) (found : Text)
    → (scan_spf ip txts found).0 ≡ any (fits_spf ip) txts
unfolding scan_spf
scan_spf-any ip [] found = refl
scan_spf-any ip (t ∷ ts) found = elim (Bool-cases (has_prefix t (codes "v=spf1"))) [
  | inr other ↦ rw other (scan_spf-any ip ts found)
  | inl spf ↦ elim (Bool-cases (contains t (codes "ip4:" ++ ip))) [
    | inl fits ↦ rw (spf, fits)
    | inr misses ↦ rw (spf, misses) (scan_spf-any ip ts t)
  ]
]

scan_dmarc-any :
    (txts : List Text) (ok : Bool) (found : Text)
    → (scan_dmarc txts ok found).0 ≡ (ok || any fits_dmarc txts)
unfolding scan_dmarc
scan_dmarc-any [] ok found = ground arith
scan_dmarc-any (t ∷ ts) ok found = elim (Bool-cases (has_prefix t (codes "v=DMARC1"))) [
  | inl fits ↦ rw fits (scan_dmarc-any ts true t ∙ ground arith)
  | inr other ↦ rw other (scan_dmarc-any ts ok found)
]

-- Whatever the resolver answers, SPF is verified exactly if some record begins with v=spf1 and
-- contains "ip4:" followed by the egress address, DKIM exactly if the records put together without
-- spaces contain "p=" followed by the key, DMARC exactly if some record begins with v=DMARC1, and
-- the check is indeterminate exactly if one of the three lookups failed otherwise than by absence.
pub check-verdicts :
    (lookup_txt : Text → Lookup) (domain selector pub_base64 egress_ip : Text)
    → let r = check lookup_txt domain selector pub_base64 egress_ip in
      let spf = lookup_txt domain in
      let dkim = lookup_txt (selector ++ codes "._domainkey." ++ domain) in
      let dmarc = lookup_txt (codes "_dmarc." ++ domain) in
      (r.spf.ok ≡ any (fits_spf egress_ip) (texts_of spf))
      × (r.dkim.ok ≡ contains (strip_spaces (join (texts_of dkim))) (codes "p=" ++ pub_base64))
      × (r.dmarc.ok ≡ any fits_dmarc (texts_of dmarc))
      × (r.indeterminate ≡ (lookup_failed spf || lookup_failed dkim || lookup_failed dmarc))
unfolding check
check-verdicts lookup_txt domain selector pub_base64 egress_ip = (
  scan_spf-any egress_ip (texts_of (lookup_txt domain)) [],
  refl,
  scan_dmarc-any (texts_of (lookup_txt (codes "_dmarc." ++ domain))) false [],
  refl,
)
