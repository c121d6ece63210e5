-- ===== src/Scenarios/Toy.antt =====
-- A toy encoding of PEM, and the crypto packages made of it.
use le_to_alicloud.Prelude.{
  ◌<◌, ◌≡◌, refl, ap, true, false, Option, none, some, [], ◌∷◌, ◌++◌, Text, codes, length, take,
  drop, length-drop, arith, append_assoc,
}
use le_to_alicloud.Pki.Crypto.{Crypto, X509Certificate, PemBlock, rsa_key, ecdsa_key}

take-append : (xs ys : Text) → take (length xs) (xs ++ ys) ≡ xs
take-append [] ys = refl
take-append (x ∷ xs) ys = ap (λ (r : Text). x ∷ r) (take-append xs ys)

drop-append : (xs ys : Text) → drop (length xs) (xs ++ ys) ≡ ys
drop-append [] ys = refl
drop-append (x ∷ xs) ys = drop-append xs ys

-- A block is the length of its type, the length of its bytes, and both.
abbrev pub toy_encode : PemBlock → Text
toy_encode b = length b.type ∷ length b.bytes ∷ b.type ++ b.bytes

abbrev pub toy_decode : Text → Option (PemBlock × Text)
toy_decode (n ∷ m ∷ t) =
    some
      (record { type = take n t; proc_type = none; bytes = take m (drop n t) }, drop m (drop n t))
toy_decode _ = none

pub toy_decode-encode :
    (type bytes rest : Text)
    → toy_decode (toy_encode (record { type = type; proc_type = none; bytes = bytes }) ++ rest)
      ≡ some (record { type = type; proc_type = none; bytes = bytes }, rest)
toy_decode-encode type bytes rest =
    rw
      (
        append_assoc type bytes rest,
        take-append type (bytes ++ rest),
        drop-append type (bytes ++ rest),
        take-append bytes rest,
        drop-append bytes rest,
      )
      refl

pub toy_decode_shorter :
    (d : Text) (b : PemBlock) (rest : Text) → toy_decode d ≡ some (b, rest) → length rest < length d
toy_decode_shorter [] b rest h = absurd cc
toy_decode_shorter (x ∷ []) b rest h = absurd cc
toy_decode_shorter (n ∷ m ∷ t) b rest h = ground (arith, length-drop m (drop n t), length-drop n t)

abbrev pub toy_certificate : Text → X509Certificate
toy_certificate der = record {
  raw = der;
  raw_issuer = codes "CN=CA";
  raw_subject = codes "CN=www.example.com";
  dns_names = codes "www.example.com" ∷ [];
  common_name = codes "www.example.com";
  not_before = 0;
  not_after = 900;
}

pub toy_raw : (der : Text) (c : X509Certificate) → some (toy_certificate der) ≡ some c → c.raw ≡ der
toy_raw der c h = cc

pub toy_der :
    (k der : Text)
    → ◌≡◌ {A = Option Text} (some k) (some der)
    → some (ecdsa_key der) ≡ some (ecdsa_key k)
toy_der k der h = cc

abbrev pub toy_crypto : Crypto
toy_crypto = record {
  pem_decode = toy_decode;
  pem_encode = toy_encode;
  parse_certificate = λ der. some (toy_certificate der);
  parse_pkcs1 = λ k. some (rsa_key k);
  parse_ec = λ k. some (ecdsa_key k);
  parse_pkcs8 = λ k. none;
  marshal_pkcs1 = λ k. k;
  marshal_ec = λ k. some k;
  sha256_hex = λ d. codes "0123abcd" ++ d;
  check_signature_from = λ c d. true;
  check_own_signature = λ c. false;
  same_public_key = λ c k. true;
  pem_decode_shorter = toy_decode_shorter;
  pem_decode-encode = toy_decode-encode;
  parse_certificate_raw = λ der c h. toy_raw der c h;
  parse_pkcs1-marshal = λ k. refl;
  parse_ec-marshal = λ k der h. toy_der k der h;
}

abbrev pub crt : Text
crt = toy_encode (record { type = codes "CERTIFICATE"; proc_type = none; bytes = codes "der" })

abbrev pub key : Text
key = toy_encode (record { type = codes "RSA PRIVATE KEY"; proc_type = none; bytes = codes "key" })
