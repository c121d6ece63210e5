-- ===== src/Pki/Bundle.antt =====
-- pkg/pki/bundle.go. The three methods that print a bundle without its key are not modelled.
pub mod Loop
pub mod RoundTrip
use le_to_alicloud.Prelude.{
  ℕ, zero, suc, Bool, true, false, not, ◌&&◌, Option, none, some, List, [], ◌∷◌, ◌++◌, any, length,
  Text, codes, contains, is_empty, text_eq, if◌then◌else◌, Res, ok, err,
}
use le_to_alicloud.Pki.Crypto.{
  Crypto, X509Certificate, PrivateKey, rsa_key, ecdsa_key, other_key, PemBlock,
}

pub data PkiError : Type 0 where
  no_certificate no_private_key encrypted_key unsupported_key key_mismatch broken_chain : PkiError
  bad_certificate bad_private_key bad_encoding : PkiError

pub record Bundle : Type 0 where
  pub leaf : X509Certificate
  pub intermediates : List X509Certificate
  pub signer : PrivateKey
  pub fingerprint : Text

abbrev pub pem_type_certificate : Text
pem_type_certificate = codes "CERTIFICATE"

abbrev encrypted_header : Option Text → Bool
encrypted_header none = false
encrypted_header (some t) = contains t (codes "ENCRYPTED")

abbrev pub cons_ok :
    X509Certificate → Res PkiError (List X509Certificate) → Res PkiError (List X509Certificate)
cons_ok c (ok cs) = ok (c ∷ cs)
cons_ok c (err e) = err e

-- `_, ok := names[cn]`: the loop of `DNSNames`
abbrev has_name : Text → List Text → Bool
has_name cn = any (λ n. text_eq n cn)

-- `DNSNames`
unfoldable pub dns_names : Bundle → List Text
dns_names b =
    let cn = b.leaf.common_name in
    if is_empty cn
    then b.leaf.dns_names
    else (if has_name cn b.leaf.dns_names then b.leaf.dns_names else b.leaf.dns_names ++ cn ∷ [])

module _ (crypto : Crypto) where
  open crypto use {
    pem_decode, pem_encode, parse_certificate, parse_pkcs1, parse_ec, parse_pkcs8, marshal_pkcs1,
    marshal_ec, sha256_hex, check_signature_from, check_own_signature, same_public_key,
  }

  -- `fingerprintOf`
  pub fingerprint_of : X509Certificate → Text
  fingerprint_of c = sha256_hex c.raw

  -- The loop of `parseCertificates`. Each round takes one block off the input.
  pub parse_loop : ℕ → Text → Res PkiError (List X509Certificate)
  parse_loop zero rest = ok []
  parse_loop (suc fuel) rest = elim (pem_decode rest) [
    | none ↦ ok []
    | some (blk, rest') ↦
        let more = parse_loop fuel rest' in
        if not (text_eq blk.type pem_type_certificate)
        then more
        else elim (parse_certificate blk.bytes) [
          | none ↦ err bad_certificate
          | some c ↦ cons_ok c more
        ]
  ]

  abbrev or_no_certificate :
      Res PkiError (List X509Certificate) → Res PkiError (X509Certificate × List X509Certificate)
  or_no_certificate (ok []) = err no_certificate
  or_no_certificate (ok (c ∷ cs)) = ok (c, cs)
  or_no_certificate (err e) = err e

  -- `parseCertificates`: the first certificate and the others
  pub parse_certificates : Text → Res PkiError (X509Certificate × List X509Certificate)
  unfolding parse_loop
  parse_certificates cert_pem = or_no_certificate (parse_loop (suc (length cert_pem)) cert_pem)

  abbrev supported : Option PrivateKey → Res PkiError PrivateKey
  supported none = err bad_private_key
  supported (some (rsa_key k)) = ok (rsa_key k)
  supported (some (ecdsa_key k)) = ok (ecdsa_key k)
  supported (some (other_key _)) = err unsupported_key

  -- `parsePrivateKey`
  pub parse_private_key : Text → Res PkiError PrivateKey
  parse_private_key key_pem = elim (pem_decode key_pem) [
    | none ↦ err no_private_key
    | some (blk, _) ↦
        if encrypted_header blk.proc_type
        then err encrypted_key
        else (if text_eq blk.type (codes "RSA PRIVATE KEY")
            then supported (parse_pkcs1 blk.bytes)
            else (if text_eq blk.type (codes "EC PRIVATE KEY")
                then supported (parse_ec blk.bytes)
                else (if text_eq blk.type (codes "PRIVATE KEY")
                    then supported (parse_pkcs8 blk.bytes)
                    else (if text_eq blk.type (codes "ENCRYPTED PRIVATE KEY")
                        then err encrypted_key
                        else err unsupported_key))))
  ]

  -- the loop over the chain: each certificate is signed by the next
  pub chain_ok : X509Certificate → List X509Certificate → Bool
  chain_ok c [] = true
  chain_ok c (d ∷ ds) = check_signature_from c d && chain_ok d ds

  -- `ParseBundle`
  unfoldable pub parse_bundle : Text → Text → Res PkiError Bundle
  unfolding parse_certificates parse_private_key chain_ok fingerprint_of
  parse_bundle cert_pem key_pem = elim (parse_certificates cert_pem) [
    | err e ↦ err e
    | ok (leaf, intermediates) ↦ elim (parse_private_key key_pem) [
      | err e ↦ err e
      | ok signer ↦
          if not (chain_ok leaf intermediates)
          then err broken_chain
          else (if not (same_public_key leaf signer)
              then err key_mismatch
              else ok (record {
                leaf = leaf;
                intermediates = intermediates;
                signer = signer;
                fingerprint = fingerprint_of leaf;
              }))
    ]
  ]

  -- `IsSelfSigned`
  unfoldable pub is_self_signed : Bundle → Bool
  is_self_signed b = text_eq b.leaf.raw_issuer b.leaf.raw_subject && check_own_signature b.leaf

  encode_certificate : X509Certificate → Text
  encode_certificate c =
      pem_encode (record { type = pem_type_certificate; proc_type = none; bytes = c.raw })

  pub encode_all : List X509Certificate → Text
  unfolding encode_certificate
  encode_all [] = []
  encode_all (c ∷ cs) = encode_certificate c ++ encode_all cs

  -- `CertPEM`
  pub cert_pem : Bundle → Text
  unfolding encode_all
  cert_pem b = encode_all (b.leaf ∷ b.intermediates)

  -- `KeyPEM`
  unfoldable pub key_pem : Bundle → Res PkiError Text
  key_pem b = elim b.signer [
    | rsa_key k ↦ ok (
        pem_encode
          (record { type = codes "RSA PRIVATE KEY"; proc_type = none; bytes = marshal_pkcs1 k }))
    | ecdsa_key k ↦ elim (marshal_ec k) [
      | none ↦ err bad_encoding
      | some der ↦
          ok (pem_encode (record { type = codes "EC PRIVATE KEY"; proc_type = none; bytes = der }))
    ]
    | other_key _ ↦ err unsupported_key
  ]

  -- `LeafFingerprint`
  unfoldable pub leaf_fingerprint : Text → Res PkiError Text
  unfolding parse_certificates fingerprint_of
  leaf_fingerprint pem = elim (parse_certificates pem) [
    | err e ↦ err e
    | ok (leaf, _) ↦ ok (fingerprint_of leaf)
  ]
