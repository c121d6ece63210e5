-- ===== src/Pki/Bundle/RoundTrip.antt =====
-- The material that is written out is the material that was checked.
use mathlib.Core.List.{append-nil}
use le_to_alicloud.Prelude.{
  suc, ◌≡◌, refl, true, none, some, List, [], ◌∷◌, arith, length, Text, codes, text_eq, contains,
  Res, ok, err, All, Option-cases, inl, inr,
}
use le_to_alicloud.Pki.Crypto.{
  Crypto, X509Certificate, PrivateKey, rsa_key, ecdsa_key, other_key, PemBlock,
}
use le_to_alicloud.Pki.Bundle.{
  Bundle, PkiError, parse_loop, or_no_certificate, parse_certificates, parse_private_key, chain_ok,
  parse_bundle, fingerprint_of, encode_all, cert_pem, key_pem, leaf_fingerprint,
}
use le_to_alicloud.Pki.Bundle.Loop.{Parsed, parse_loop-Parsed, parse_loop-encode_all}

module _ (crypto : Crypto) where
  or_no_certificate-ok :
      (r : Res PkiError (List X509Certificate)) (leaf : X509Certificate)
      (others : List X509Certificate)
      → or_no_certificate crypto r ≡ ok (leaf, others)
      → r ≡ ok (leaf ∷ others)
  or_no_certificate-ok (ok []) leaf others h = absurd (cc)
  or_no_certificate-ok (ok (c ∷ cs)) leaf others h = cc
  or_no_certificate-ok (err e) leaf others h = absurd (cc)

  parse_certificates-Parsed :
      (d : Text) (leaf : X509Certificate) (others : List X509Certificate)
      → parse_certificates crypto d ≡ ok (leaf, others)
      → All (Parsed crypto) (leaf ∷ others)
  unfolding parse_certificates
  parse_certificates-Parsed d leaf others h =
      parse_loop-Parsed crypto (suc (length d)) d (leaf ∷ others)
        (or_no_certificate-ok (parse_loop crypto (suc (length d)) d) leaf others h)

  parse_certificates-encode :
      (leaf : X509Certificate) (others : List X509Certificate)
      → All (Parsed crypto) (leaf ∷ others)
      → parse_certificates crypto (encode_all crypto (leaf ∷ others)) ≡ ok (leaf, others)
  unfolding parse_certificates
  parse_certificates-encode leaf others p = rw (
      parse_loop-encode_all crypto (leaf ∷ others)
        (suc (length (encode_all crypto (leaf ∷ others)))) p (omega arith))

  -- What `ParseBundle` has checked of a bundle that it returns.
  pub record Checked (b : Bundle) : Type 0 where
    pub parsed : All (Parsed crypto) (b.leaf ∷ b.intermediates)
    pub chain : chain_ok crypto b.leaf b.intermediates ≡ true
    pub key : crypto.same_public_key b.leaf b.signer ≡ true
    pub print : b.fingerprint ≡ fingerprint_of crypto b.leaf

  parse_bundle_parts :
      (crt key : Text) (b : Bundle)
      → parse_bundle crypto crt key ≡ ok b
      → (parse_certificates crypto crt ≡ ok (b.leaf, b.intermediates))
        × (parse_private_key crypto key ≡ ok b.signer)
        × (chain_ok crypto b.leaf b.intermediates ≡ true)
        × (crypto.same_public_key b.leaf b.signer ≡ true)
        × (b.fingerprint ≡ fingerprint_of crypto b.leaf)
  unfolding parse_bundle
  parse_bundle_parts crt key b h = ground arith

  -- A bundle that `ParseBundle` returns has certificates that were parsed, each signed by the next,
  -- a private key that belongs to the leaf, and the leaf's fingerprint.
  pub parse_bundle-Checked :
      (crt key : Text) (b : Bundle) → parse_bundle crypto crt key ≡ ok b → Checked b
  parse_bundle-Checked crt key b h =
      let (certs, signer, chain, same, print) = parse_bundle_parts crt key b h in
      record {
        parsed = parse_certificates-Parsed crt b.leaf b.intermediates certs;
        chain = chain;
        key = same;
        print = print;
      }

  cert_pem-certificates :
      (b : Bundle)
      → Checked b
      → parse_certificates crypto (cert_pem crypto b) ≡ ok (b.leaf, b.intermediates)
  unfolding cert_pem
  cert_pem-certificates b c = parse_certificates-encode b.leaf b.intermediates c.parsed

  pem_decode-encode_nil :
      (type bytes : Text)
      → let b : PemBlock = record { type = type; proc_type = none; bytes = bytes } in
        crypto.pem_decode (crypto.pem_encode b) ≡ some (b, [])
  pem_decode-encode_nil type bytes = rw append-nil at (crypto.pem_decode-encode type bytes [])

  key_pem-signer :
      (b : Bundle) (k : Text) → key_pem crypto b ≡ ok k → parse_private_key crypto k ≡ ok b.signer
  unfolding key_pem parse_private_key text_eq contains
  key_pem-signer b k h = go b.signer refl
    where
      go : (s : PrivateKey) → b.signer ≡ s → parse_private_key crypto k ≡ ok b.signer
      go (rsa_key n) e = ground (
        arith,
        crypto.parse_pkcs1-marshal n,
        pem_decode-encode_nil (codes "RSA PRIVATE KEY") (crypto.marshal_pkcs1 n),
      )
      go (ecdsa_key n) e = elim (Option-cases (crypto.marshal_ec n)) [
        | inl bad ↦ absurd (ground arith)
        | inr (der, good) ↦ ground (
          arith,
          crypto.parse_ec-marshal n der good,
          pem_decode-encode_nil (codes "EC PRIVATE KEY") der,
        )
      ]
      go (other_key n) e = absurd (ground arith)

  parse_bundle-eq :
      (crt key : Text) (b : Bundle)
      → parse_certificates crypto crt ≡ ok (b.leaf, b.intermediates)
      → parse_private_key crypto key ≡ ok b.signer
      → Checked b
      → parse_bundle crypto crt key ≡ ok b
  unfolding parse_bundle
  parse_bundle-eq crt key b certs signer c = ground (arith, c.chain, c.key, c.print)

  -- `CertPEM` and `KeyPEM` write what `ParseBundle` reads back as the same bundle: the material
  -- that leaves the program is the material that was checked, and normalising it twice is normalising
  -- it once.
  pub parse_bundle_normal :
      (crt key k : Text) (b : Bundle)
      → parse_bundle crypto crt key ≡ ok b
      → key_pem crypto b ≡ ok k
      → parse_bundle crypto (cert_pem crypto b) k ≡ ok b
  parse_bundle_normal crt key k b h hk =
      let c = parse_bundle-Checked crt key b h in
      parse_bundle-eq (cert_pem crypto b) k b (cert_pem-certificates b c) (key_pem-signer b k hk) c

  -- The fingerprint that is read off the public certificate in the cloud is the one that the bundle
  -- was given when it was read from the Secret.
  pub leaf_fingerprint-cert_pem :
      (crt key : Text) (b : Bundle)
      → parse_bundle crypto crt key ≡ ok b
      → leaf_fingerprint crypto (cert_pem crypto b) ≡ ok b.fingerprint
  unfolding leaf_fingerprint
  leaf_fingerprint-cert_pem crt key b h =
      let c = parse_bundle-Checked crt key b h in ground (arith, cert_pem-certificates b c, c.print)
