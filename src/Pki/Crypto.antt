-- ===== src/Pki/Crypto.antt =====
-- What pkg/pki takes from Go's crypto packages: parsing, hashing and signatures are parameters,
-- with what their documentation promises of PEM and of a parsed certificate's `Raw`.
use le_to_alicloud.Prelude.{ℕ, ◌<◌, ◌≡◌, Bool, Option, none, some, List, ◌++◌, Text, length}

-- Of an `x509.Certificate` the fields that the program reads.
pub record X509Certificate : Type 0 where
  pub raw : Text
  pub raw_issuer : Text
  pub raw_subject : Text
  pub dns_names : List Text
  pub common_name : Text
  pub not_before : ℕ
  pub not_after : ℕ

-- A parsed private key by its Go type.
pub data PrivateKey : Type 0 where
  rsa_key ecdsa_key other_key : Text → PrivateKey

pub record PemBlock : Type 0 where
  pub type : Text
  pub proc_type : Option Text
  pub bytes : Text

pub record Crypto : Type 0 where
  pub pem_decode : Text → Option (PemBlock × Text)
  pub pem_encode : PemBlock → Text
  pub parse_certificate : Text → Option X509Certificate
  pub parse_pkcs1 : Text → Option PrivateKey
  pub parse_ec : Text → Option PrivateKey
  pub parse_pkcs8 : Text → Option PrivateKey
  pub marshal_pkcs1 : Text → Text
  pub marshal_ec : Text → Option Text
  pub sha256_hex : Text → Text
  pub check_signature_from : X509Certificate → X509Certificate → Bool
  pub check_own_signature : X509Certificate → Bool
  pub same_public_key : X509Certificate → PrivateKey → Bool
  -- `pem.Decode` returns the rest of the input behind the block that it found.
  pub pem_decode_shorter :
      (d : Text) (b : PemBlock) (rest : Text)
      → pem_decode d ≡ some (b, rest)
      → length rest < length d
  -- A block without headers is decoded as it was encoded, and what follows it is left.
  pub pem_decode-encode :
      (type bytes rest : Text)
      → pem_decode (pem_encode (record { type = type; proc_type = none; bytes = bytes }) ++ rest)
        ≡ some (record { type = type; proc_type = none; bytes = bytes }, rest)
  -- `Raw` is the DER that was parsed.
  pub parse_certificate_raw :
      (der : Text) (c : X509Certificate) → parse_certificate der ≡ some c → c.raw ≡ der
  -- The two marshallers undo the parsers of their format.
  pub parse_pkcs1-marshal : (k : Text) → parse_pkcs1 (marshal_pkcs1 k) ≡ some (rsa_key k)
  pub parse_ec-marshal :
      (k der : Text) → marshal_ec k ≡ some der → parse_ec der ≡ some (ecdsa_key k)
