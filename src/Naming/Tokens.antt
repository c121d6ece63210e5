-- ===== src/Naming/Tokens.antt =====
-- The idempotency tokens: their length, and that a later upload gets another token.
use native.Mathlib.Nat.{pow-suc}
use le_to_alicloud.Prelude.{
  ℕ, zero, suc, ◌+◌, ◌/◌, ◌%◌, ◌^◌, ◌≤◌, ◌<◌, ◌≡◌, refl, [], ◌∷◌, ◌++◌, arith, length,
  length-append, Text, codes, min,
}
use le_to_alicloud.Naming.{
  cut, drop_dashes, client_token, upload_token, delete_token, unix, hex_digit, hex_digits,
  token_uid_len, token_fp_len, token_prefix_len,
}
use le_to_alicloud.Naming.Shape.{length-cut}

length-client_token :
    (uid fp : Text)
    → length (client_token uid fp) ≡ min 16 (length (drop_dashes uid)) + min 32 (length fp)
unfolding client_token
length-client_token uid fp = omega (
  arith,
  length-append (cut token_uid_len (drop_dashes uid)) (cut token_fp_len fp),
  length-cut token_uid_len (drop_dashes uid),
  length-cut token_fp_len fp,
)

length-hex_digits : (k n : ℕ) → length (hex_digits k n) ≡ k
unfolding hex_digits
length-hex_digits zero n = refl
length-hex_digits (suc k) n = omega (
  arith,
  length-append (hex_digits k (n / 16)) (hex_digit (n % 16) ∷ []),
  length-hex_digits k (n / 16),
)

-- With a UID of at least 16 characters besides the dashes and a fingerprint of at least 32, an
-- upload token has 48 characters, and the token that deletes the same certificate has 49: both
-- are within the limit of 64.
pub token_lengths :
    (uid fp : Text) (t : ℕ)
    → 16 ≤ length (drop_dashes uid)
    → 32 ≤ length fp
    → (length (upload_token uid fp t) ≡ 48) × (length (delete_token (upload_token uid fp t)) ≡ 49)
unfolding upload_token delete_token
token_lengths uid fp t hu hf =
    let e : length (upload_token uid fp t) ≡ 48 = omega (
      arith,
      length-append (cut token_prefix_len (client_token uid fp)) (hex_digits 8 (unix t % 2 ^ 32)),
      length-cut token_prefix_len (client_token uid fp),
      length-client_token uid fp,
      length-hex_digits 8 (unix t % 2 ^ 32),
    ) in
    (
      e,
      omega (
        arith,
        e,
        length-cut 64 (upload_token uid fp t ++ codes "d"),
        length-append (upload_token uid fp t) (codes "d"),
      ),
    )

append-cancel : (xs ys zs : Text) → xs ++ ys ≡ xs ++ zs → ys ≡ zs
append-cancel [] ys zs e = e
append-cancel (x ∷ xs) ys zs e = append-cancel xs ys zs (cc)

snoc-injective : (xs ys : Text) {a b : ℕ} → xs ++ a ∷ [] ≡ ys ++ b ∷ [] → (xs ≡ ys) × (a ≡ b)
snoc-injective [] [] e = (refl, cc)
snoc-injective [] (y ∷ []) e = absurd (cc)
snoc-injective [] (y ∷ z ∷ ys) e = absurd (cc)
snoc-injective (x ∷ []) [] e = absurd (cc)
snoc-injective (x ∷ z ∷ xs) [] e = absurd (cc)
snoc-injective (x ∷ xs) (y ∷ ys) {a} {b} e =
    let (p, q) = snoc-injective xs ys {a = a} {b = b} (cc) in (cc, q)

hex_digit-injective : (a b : ℕ) → a < 16 → b < 16 → hex_digit a ≡ hex_digit b → a ≡ b
hex_digit-injective a b ha hb e = ground arith

hex_digits-injective :
    (k n m : ℕ) → n < 16 ^ k → m < 16 ^ k → hex_digits k n ≡ hex_digits k m → n ≡ m
unfolding hex_digits
hex_digits-injective zero n m hn hm e = omega arith
hex_digits-injective (suc k) n m hn hm e =
    let (high, low) = snoc-injective (hex_digits k (n / 16)) (hex_digits k (m / 16)) e in
    let q =
      hex_digits-injective k (n / 16) (m / 16) (omega (arith, pow-suc 16 k))
        (omega (arith, pow-suc 16 k)) high in
    let r = hex_digit-injective (n % 16) (m % 16) (omega arith) (omega arith) low in
    omega (arith, q, r)

-- Two upload tokens of the same certificate and CR are equal only if the uploads began in the
-- same second (counted modulo 2^32): a certificate that is uploaded again later gets a new token.
pub upload_token-injective :
    (uid fp : Text) (t t' : ℕ)
    → upload_token uid fp t ≡ upload_token uid fp t'
    → unix t % 2 ^ 32 ≡ unix t' % 2 ^ 32
unfolding upload_token
upload_token-injective uid fp t t' e =
    hex_digits-injective 8 (unix t % 2 ^ 32) (unix t' % 2 ^ 32) (omega arith) (omega arith)
      (append-cancel (cut token_prefix_len (client_token uid fp)) _ _ e)
