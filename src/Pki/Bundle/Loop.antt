-- ===== src/Pki/Bundle/Loop.antt =====
-- The loop over PEM blocks: its fuel is enough, and it undoes the encoder.
use le_to_alicloud.Prelude.{
  ℕ, zero, suc, ◌<◌, ◌≡◌, refl, sym, subst, none, some, List, [], ◌∷◌, arith, length, Text, text_eq,
  Res, ok, err, All, Option-cases, Bool-cases, inl, inr,
}
use le_to_alicloud.Pki.Crypto.{Crypto, X509Certificate}
use le_to_alicloud.Pki.Bundle.{
  PkiError, pem_type_certificate, cons_ok, parse_loop, encode_certificate, encode_all,
}

module _ (crypto : Crypto) where
  open crypto use {pem_decode, parse_certificate, pem_decode_shorter}

  -- Fuel above the length of the input makes no difference: the loop has ended by itself.
  pub parse_loop_fuel :
      (f g : ℕ) (d : Text)
      → length d < f
      → length d < g
      → parse_loop crypto f d ≡ parse_loop crypto g d
  unfolding parse_loop
  parse_loop_fuel zero g d hf hg = absurd (omega arith)
  parse_loop_fuel (suc f) zero d hf hg = absurd (omega arith)
  parse_loop_fuel (suc f) (suc g) d hf hg = elim (Option-cases (pem_decode d)) [
    | inl e ↦ ground arith
    | inr ((blk, rest), e) ↦
        let less = pem_decode_shorter d blk rest e in
        ground (arith, parse_loop_fuel f g rest (omega arith) (omega arith))
  ]

  abbrev pub Parsed : X509Certificate → Type 0
  Parsed c = parse_certificate c.raw ≡ some c

  cons_ok-Parsed :
      (c : X509Certificate) (r : Res PkiError (List X509Certificate)) (cs : List X509Certificate)
      → Parsed c
      → ((ds : List X509Certificate) → r ≡ ok ds → All Parsed ds)
      → cons_ok c r ≡ ok cs
      → All Parsed cs
  cons_ok-Parsed c (err x) cs p ih h = absurd (cc)
  cons_ok-Parsed c (ok ds) [] p ih h = absurd (cc)
  cons_ok-Parsed c (ok ds) (d ∷ cs) p ih h =
      let e : c ≡ d = cc in let es : ds ≡ cs = cc in (rw e at p, rw es at (ih ds refl))

  -- Every certificate that the loop returns was parsed from its own `Raw`.
  pub parse_loop-Parsed :
      (f : ℕ) (d : Text) (cs : List X509Certificate) → parse_loop crypto f d ≡ ok cs → All Parsed cs
  unfolding parse_loop
  parse_loop-Parsed zero d [] h = tt
  parse_loop-Parsed zero d (c ∷ cs) h = absurd (cc)
  parse_loop-Parsed (suc f) d cs h = elim (Option-cases (pem_decode d)) [
    | inl e ↦ none_left cs (rw (e, parse_loop) at h)
    | inr ((blk, rest), e) ↦ elim (Bool-cases (text_eq blk.type pem_type_certificate)) [
      | inr other ↦ parse_loop-Parsed f rest cs (rw (e, other, parse_loop) at h)
      | inl cert ↦ elim (Option-cases (parse_certificate blk.bytes)) [
        | inl bad ↦ absurd (let h' = rw (e, cert, bad, parse_loop) at h in cc)
        | inr (c, good) ↦
            cons_ok-Parsed c (parse_loop crypto f rest) cs
              (subst (λ t. parse_certificate t ≡ some c)
                (sym (crypto.parse_certificate_raw blk.bytes c good)) good)
              (λ ds hd. parse_loop-Parsed f rest ds hd) (rw (e, cert, good, parse_loop) at h)
      ]
    ]
  ]
    where
      none_left :
          (cs : List X509Certificate)
          → ◌≡◌ {A = Res PkiError (List X509Certificate)} (ok []) (ok cs)
          → All Parsed cs
      none_left [] h = tt
      none_left (c ∷ cs) h = absurd (cc)

  pem_decode_nil : pem_decode [] ≡ none
  pem_decode_nil = elim (Option-cases (pem_decode [])) [
    | inl e ↦ e
    | inr ((blk, rest), e) ↦ absurd (let less = pem_decode_shorter [] blk rest e in omega arith)
  ]

  -- What `CertPEM` writes is read back, block by block.
  pub parse_loop-encode_all :
      (cs : List X509Certificate) (f : ℕ)
      → All Parsed cs
      → length (encode_all crypto cs) < f
      → parse_loop crypto f (encode_all crypto cs) ≡ ok cs
  unfolding parse_loop encode_all encode_certificate text_eq
  parse_loop-encode_all [] zero p h = absurd (omega arith)
  parse_loop-encode_all [] (suc f) p h = ground (arith, pem_decode_nil)
  parse_loop-encode_all (c ∷ cs) zero p h = absurd (omega arith)
  parse_loop-encode_all (c ∷ cs) (suc f) p h =
      let e = crypto.pem_decode-encode pem_type_certificate c.raw (encode_all crypto cs) in
      let less = pem_decode_shorter _ _ _ e in
      ground (arith, e, p.0, parse_loop-encode_all cs f p.1 (omega arith))
