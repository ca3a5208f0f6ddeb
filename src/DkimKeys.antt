-- ===== src/DkimKeys.antt =====
-- internal/dkimkeys/dkimkeys.go: the key pair of a domain, and the DNS records that its owner is to
-- publish. RSA, PEM and base64 are parameters, the record `Crypto`.
pub mod Published
use doevoe.Base.{
  Text, Option, none, some, List, [], ◌∷◌, ◌++◌, codes, trim_prefix, Fallible, value, failure,
  ◌>>=◌,
}

-- `Key` is *rsa.PrivateKey.
pub record Crypto : Type 1 where
  pub Key : Type 0
  pub PublicKey : Type 0
  pub public : Key → PublicKey  -- &key.PublicKey
  pub generate_key : Fallible Key  -- rsa.GenerateKey(rand.Reader, 2048)
  pub to_pem : Key → Text  -- pem.EncodeToMemory of x509.MarshalPKCS1PrivateKey
  pub decode_pem : Text → Option Text  -- the bytes of the block of pem.Decode
  pub parse_pkcs1 : Text → Fallible Key  -- x509.ParsePKCS1PrivateKey
  pub marshal_pkix : PublicKey → Fallible Text  -- x509.MarshalPKIXPublicKey
  pub base64 : Text → Text  -- base64.StdEncoding.EncodeToString

-- Record
pub record DnsRecord : Type 0 where
  pub kind : Text  -- Type
  pub host : Text
  pub content : Text  -- Value
  pub note : Text

abbrev pub dkim_prefix : Text
dkim_prefix = codes "v=DKIM1; k=rsa; p="

module _ (c : Crypto) where
  open c use {Key, PublicKey}

  with_der : Key → Fallible Text → Fallible (Text × Text)
  with_der key (failure e) = failure e
  with_der key (value der) = value (c.to_pem key, c.base64 der)

  with_key : Fallible Key → Fallible (Text × Text)
  unfolding with_der
  with_key (failure e) = failure e
  with_key (value key) = with_der key (c.marshal_pkix (c.public key))

  -- Generate: the private key as PEM, and the public key in base64.
  unfoldable pub generate : Fallible (Text × Text)
  unfolding with_key
  generate = with_key c.generate_key

  -- ParsePrivateKey
  parse_block : Option Text → Fallible Key
  parse_block none = failure (codes "invalid PEM")
  parse_block (some bytes) = c.parse_pkcs1 bytes

  unfoldable pub parse_private_key : Text → Fallible Key
  unfolding parse_block
  parse_private_key pem = parse_block (c.decode_pem pem)

  -- PublicKeyTXT
  unfoldable pub public_key_txt : PublicKey → Fallible Text
  public_key_txt key = c.marshal_pkix key >>= λ (der : Text). value (dkim_prefix ++ c.base64 der)

  -- PublicB64FromPrivatePEM
  unfoldable pub public_b64_from_private_pem : Text → Fallible Text
  unfolding parse_private_key public_key_txt
  public_b64_from_private_pem pem = parse_private_key pem >>= λ (key : Key).
      public_key_txt (c.public key) >>= λ (txt : Text). value (trim_prefix txt dkim_prefix)

abbrev pub rdns_note : Text → Text
rdns_note egress_ip =
    codes "Set at your hosting provider, not in this domain's DNS: reverse DNS for "
    ++ egress_ip
    ++ codes
        " must resolve to the server hostname. Doevoe cannot verify this record; Gmail/Outlook will junk mail without it."

-- Records
unfoldable pub records : Text → Text → Text → Text → Text → List DnsRecord
records domain selector pub_base64 egress_ip admin_email =
    record {
      kind = codes "TXT (SPF)";
      host = codes "@";
      content = codes "v=spf1 ip4:" ++ egress_ip ++ codes " -all";
      note = [];
    }
    ∷ record {
      kind = codes "TXT (DKIM)";
      host = selector ++ codes "._domainkey";
      content = dkim_prefix ++ pub_base64;
      note = [];
    }
    ∷ record {
      kind = codes "TXT (DMARC)";
      host = codes "_dmarc";
      content = codes "v=DMARC1; p=quarantine; rua=mailto:" ++ admin_email;
      note = [];
    }
    ∷ record {
      kind = codes "PTR (rDNS)";
      host = egress_ip;
      content = [];
      note = rdns_note egress_ip;
    }
    ∷ []
