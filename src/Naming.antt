-- ===== src/Naming.antt =====
-- pkg/naming/naming.go, and `uploadToken` of internal/controller/upload.go.
pub mod Shape
pub mod Tokens
use le_to_alicloud.Prelude.{
  ℕ, zero, suc, ◌+◌, ◌-◌, ◌*◌, ◌/◌, ◌%◌, ◌^◌, Bool, true, false, not, ◌&&◌, ◌||◌, [], ◌∷◌, ◌++◌,
  ltb, leb, ◌≡◌, refl, ◌==◌, if◌then◌else◌, length, take, Text, codes, is_empty,
}

abbrev pub max_cas_name_len : ℕ
max_cas_name_len = 63

abbrev pub prefix_budget : ℕ
prefix_budget = 50

abbrev pub fp_suffix_len : ℕ
fp_suffix_len = 12

abbrev pub token_uid_len : ℕ
token_uid_len = 16

abbrev pub token_fp_len : ℕ
token_fp_len = 32

abbrev pub token_prefix_len : ℕ
token_prefix_len = 40

-- `if len(s) > n { s = s[:n] }`
pub cut : ℕ → Text → Text
cut n s = if ltb n (length s) then take n s else s

-- the characters that a CAS name keeps: letters, digits and the underscore
abbrev pub is_word : ℕ → Bool
is_word c =
    (leb b'a' c && leb c b'z')
    || (leb b'A' c && leb c b'Z')
    || (leb b'0' c && leb c b'9')
    || c == b'_'

-- How many bytes must follow the first byte of a rune, and the range of the first of them.
abbrev tail_len : ℕ → ℕ
tail_len b =
    if ltb b 0xc2
    then 0
    else if ltb b 0xe0
    then 1
    else if ltb b 0xf0
    then 2
    else if ltb b 0xf5
    then 3
    else 0

abbrev second_lo : ℕ → ℕ
second_lo b = if b == 0xe0 then 0xa0 else if b == 0xf0 then 0x90 else 0x80

abbrev second_hi : ℕ → ℕ
second_hi b = if b == 0xed then 0x9f else if b == 0xf4 then 0x8f else 0xbf

tail_ok : ℕ → ℕ → ℕ → Text → Bool
tail_ok zero lo hi s = true
tail_ok (suc n) lo hi [] = false
tail_ok (suc n) lo hi (c ∷ s) = leb lo c && leb c hi && tail_ok n 0x80 0xbf s

-- The bytes after the first one that `range` takes for one rune; an invalid sequence is one byte.
rune_tail : ℕ → Text → ℕ
unfolding tail_ok
rune_tail b rest = if tail_ok (tail_len b) (second_lo b) (second_hi b) rest then tail_len b else 0

-- `for _, r := range s`: `skip` counts the bytes left of the rune that was written.
sanitize_from : Text → ℕ → Text
unfolding rune_tail
sanitize_from [] skip = []
sanitize_from (b ∷ rest) zero =
    (if is_word b then b else b'_') ∷ sanitize_from rest (rune_tail b rest)
sanitize_from (b ∷ rest) (suc skip) = sanitize_from rest skip

unfoldable pub sanitize : Text → Text
unfolding sanitize_from
sanitize s = sanitize_from s 0

-- `strings.TrimRight(s, "_")`
pub trim_right : Text → Text
trim_right [] = []
trim_right (c ∷ s) = let r = trim_right s in if c == b'_' && is_empty r then [] else c ∷ r

-- the name's part before the fingerprint
pub cas_prefix : Text → Text
unfolding sanitize trim_right cut
cas_prefix cr_name =
    let prefix = trim_right (cut prefix_budget (sanitize cr_name)) in
    if is_empty prefix then codes "cert" else prefix

-- `CASName`
pub cas_name : Text → Text → Text
unfolding cas_prefix cut
cas_name cr_name fingerprint =
    cut max_cas_name_len (cas_prefix cr_name ++ b'_' ∷ cut fp_suffix_len fingerprint)

-- `strings.ReplaceAll(s, "-", "")`
pub drop_dashes : Text → Text
drop_dashes [] = []
drop_dashes (c ∷ s) = let r = drop_dashes s in if c == b'-' then r else c ∷ r

-- `ClientToken`
pub client_token : Text → Text → Text
unfolding drop_dashes cut
client_token uid fingerprint = cut token_uid_len (drop_dashes uid) ++ cut token_fp_len fingerprint

-- `Time.Unix()` of an instant in nanoseconds
abbrev pub unix : ℕ → ℕ
unix t = t / 1000000000

abbrev hex_digit : ℕ → ℕ
hex_digit d = if ltb d 10 then d + 48 else d + 87

-- `fmt.Sprintf("%08x", n)` of a uint32: `k` digits, the last one first in the recursion
pub hex_digits : ℕ → ℕ → Text
hex_digits zero n = []
hex_digits (suc k) n = hex_digits k (n / 16) ++ hex_digit (n % 16) ∷ []

-- `uploadToken`
unfoldable pub upload_token : Text → Text → ℕ → Text
unfolding cut hex_digits
upload_token uid fingerprint started_at =
    cut token_prefix_len (client_token uid fingerprint) ++ hex_digits 8 (unix started_at % 2 ^ 32)

-- `deleteToken` of internal/controller/deletion.go
pub delete_token : Text → Text
unfolding cut
delete_token token = cut 64 (token ++ codes "d")
