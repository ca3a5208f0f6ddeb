-- ===== src/DnsCheck.antt =====
-- internal/dnscheck/dnscheck.go: the check of a domain's SPF, DKIM and DMARC records. The resolver is
-- a parameter. Text is ASCII where `unicode.IsSpace` looks at it.
pub mod Verdicts
use doevoe.Base.{
  ℕ, Text, Bool, true, false, ◌&&◌, ◌||◌, List, [], ◌∷◌, ◌++◌, ◌==◌, codes, leb, if◌then◌else◌,
  has_prefix, contains,
}

-- LookupTXT: the records; a *net.DNSError with IsNotFound; any other error.
pub data Lookup : Type 0 where
  records : List Text → Lookup
  not_found : Lookup
  failed : Lookup

pub record RecordResult : Type 0 where
  pub ok : Bool
  pub found : Text
  pub expected : Text

pub record Result : Type 0 where
  pub spf : RecordResult
  pub dkim : RecordResult
  pub dmarc : RecordResult
  pub indeterminate : Bool

-- AllOK
unfoldable pub all_ok : Result → Bool
all_ok r = r.spf.ok && r.dkim.ok && r.dmarc.ok

-- lookup: absence is no record, another error makes the check indeterminate.
abbrev pub texts_of : Lookup → List Text
texts_of (records txts) = txts
texts_of not_found = []
texts_of failed = []

abbrev pub lookup_failed : Lookup → Bool
lookup_failed (records txts) = false
lookup_failed not_found = false
lookup_failed failed = true

-- The loop over the SPF records, with `ok` and `found` as they are; it breaks at the first fit.
unfoldable pub scan_spf : Text → List Text → Text → Bool × Text
scan_spf egress_ip [] found = (false, found)
scan_spf egress_ip (txt ∷ txts) found =
    let skip = scan_spf egress_ip txts found in
    let note = scan_spf egress_ip txts txt in
    if has_prefix txt (codes "v=spf1")
    then (if contains txt (codes "ip4:" ++ egress_ip) then (true, txt) else note)
    else skip

-- The loop over the DMARC records goes on after a fit.
unfoldable pub scan_dmarc : List Text → Bool → Text → Bool × Text
scan_dmarc [] ok found = (ok, found)
scan_dmarc (txt ∷ txts) ok found =
    let fits = scan_dmarc txts true txt in
    let skip = scan_dmarc txts ok found in if has_prefix txt (codes "v=DMARC1") then fits else skip

-- unicode.IsSpace on ASCII
abbrev is_space : ℕ → Bool
is_space c = (leb 9 c && leb c 13) || c == 32

unfoldable pub strip_spaces : Text → Text
strip_spaces [] = []
strip_spaces (c ∷ s) = let rest = strip_spaces s in if is_space c then rest else c ∷ rest

-- strings.Join(txts, "")
unfoldable pub join : List Text → Text
join [] = []
join (t ∷ ts) = t ++ join ts

spf_result : Text → Lookup → RecordResult
spf_result egress_ip l =
    let (ok, found) = scan_spf egress_ip (texts_of l) [] in
    record { ok = ok; found = found; expected = codes "v=spf1 ip4:" ++ egress_ip ++ codes " -all" }

dkim_result : Text → Lookup → RecordResult
unfolding join strip_spaces
dkim_result pub_base64 l =
    let txt = join (texts_of l) in
    record {
      ok = contains (strip_spaces txt) (codes "p=" ++ pub_base64);
      found = txt;
      expected = codes "p=" ++ pub_base64;
    }

-- The ellipsis of the expected DMARC record is three bytes.
dmarc_result : Lookup → RecordResult
unfolding scan_dmarc
dmarc_result l =
    let (ok, found) = scan_dmarc (texts_of l) false [] in
    record { ok = ok; found = found; expected = codes "v=DMARC1; " ++ 226 ∷ 128 ∷ 166 ∷ [] }

-- Check
unfoldable pub check : (Text → Lookup) → Text → Text → Text → Text → Result
unfolding spf_result dkim_result dmarc_result
check lookup_txt domain selector pub_base64 egress_ip =
    let spf = lookup_txt domain in
    let dkim = lookup_txt (selector ++ codes "._domainkey." ++ domain) in
    let dmarc = lookup_txt (codes "_dmarc." ++ domain) in
    record {
      spf = spf_result egress_ip spf;
      dkim = dkim_result pub_base64 dkim;
      dmarc = dmarc_result dmarc;
      indeterminate = lookup_failed spf || lookup_failed dkim || lookup_failed dmarc;
    }
