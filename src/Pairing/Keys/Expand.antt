-- ===== src/Pairing/Keys/Expand.antt =====
-- `hkdfExpand` against RFC 5869.
use otherhost.Base.{
  ℕ, zero, suc, ◌+◌, ◌*◌, ◌%◌, ◌≤◌, ◌<◌, ◌≡◌, refl, sym, ap, ◌∙◌, [], ◌∷◌, ◌++◌, append_assoc,
  append-nil, arith, inl, inr, Bytes, length, take, length-append, length-take, ltb, Bool-cases,
}
use otherhost.Pairing.Crypto.{Crypto}
use otherhost.Pairing.Keys.{expand_loop, hkdf_expand}

take_append_le : (n : ℕ) (s t : Bytes) → n ≤ length s → take n (s ++ t) ≡ take n s
take_append_le zero s t h = refl
take_append_le (suc n) [] t h = absurd (omega arith)
take_append_le (suc n) (c ∷ s) t h = ap (◌∷◌ c) (take_append_le n s t (omega arith))

module _ (crypto : Crypto) where
  open crypto use {hmac, hmac_size}

  -- RFC 5869, section 2.3: `T(i) | T(i + 1) | ...`, so many blocks.
  abbrev pub rfc_blocks : Bytes → Bytes → ℕ → ℕ → Bytes → Bytes
  rfc_blocks prk info zero i previous = []
  rfc_blocks prk info (suc blocks) i previous =
      let t = hmac prk (previous ++ (info ++ i ∷ [])) in t ++ rfc_blocks prk info blocks (i + 1) t

  -- The byte counter agrees with the number of the block as long as that number is below 256.
  expand_loop-rfc_blocks :
      (prk label : Bytes) (wanted rounds blocks counter i : ℕ) (previous result : Bytes)
      → counter ≡ i % 256
      → wanted ≤ length result + 32 * blocks
      → i + blocks ≤ 256
      → wanted < length result + 32 * rounds + 1
      → take wanted (expand_loop crypto prk label wanted rounds counter previous result)
        ≡ take wanted (result ++ rfc_blocks prk label blocks i previous)
  unfolding expand_loop
  expand_loop-rfc_blocks prk label wanted zero blocks counter i previous result c h k f =
      sym (take_append_le wanted result _ (omega arith))
  expand_loop-rfc_blocks prk label wanted (suc rounds) zero counter i previous result c h k f =
      ground (arith, append-nil result)
  expand_loop-rfc_blocks prk label wanted (suc rounds) (suc blocks) counter i previous result c h k
        f =
      elim (Bool-cases (ltb (length result) wanted)) [
        | inl more ↦
            let c' : counter ≡ i = omega arith in
            let t = hmac prk (previous ++ (label ++ i ∷ [])) in
            let grown = length-append result t in
            let size = hmac_size prk (previous ++ (label ++ i ∷ [])) in
            rw (more, c')
              (expand_loop-rfc_blocks prk label wanted rounds blocks ((i + 1) % 256) (i + 1) t
                  (result ++ t) refl (omega (arith, grown, size)) (omega arith)
                  (omega (arith, grown, size))
                ∙ ap (take wanted) (append_assoc result t (rfc_blocks prk label blocks (i + 1) t)))
        | inr full ↦ rw full (sym (take_append_le wanted result _ (ground arith)))
      ]

  length-rfc_blocks :
      (prk info : Bytes) (blocks i : ℕ) (previous : Bytes)
      → length (rfc_blocks prk info blocks i previous) ≡ 32 * blocks
  length-rfc_blocks prk info zero i previous = refl
  length-rfc_blocks prk info (suc blocks) i previous =
      let t = hmac prk (previous ++ (info ++ i ∷ [])) in
      omega (
        arith,
        length-append t (rfc_blocks prk info blocks (i + 1) t),
        hmac_size prk (previous ++ (info ++ i ∷ [])),
        length-rfc_blocks prk info blocks (i + 1) t,
      )

  -- Up to 255 blocks of 32 bytes, `hkdfExpand` gives exactly the wanted number of bytes, and they are
  -- the first ones of RFC 5869's output for the extracted key.
  pub hkdf_expand-rfc_blocks :
      (secret salt label : Bytes) (wanted : ℕ)
      → wanted ≤ 255 * 32
      → (hkdf_expand crypto secret salt label wanted
          ≡ take wanted (rfc_blocks (hmac salt secret) label 255 1 []))
        × (length (hkdf_expand crypto secret salt label wanted) ≡ wanted)
  unfolding hkdf_expand
  hkdf_expand-rfc_blocks secret salt label wanted h =
      let prk = hmac salt secret in
      let same =
        expand_loop-rfc_blocks prk label wanted (suc wanted) 255 1 1 [] [] refl (omega arith)
          (omega arith) (omega arith) in
      (
        same,
        ap length same
            ∙ omega (
              arith,
              length-take wanted (rfc_blocks prk label 255 1 []),
              length-rfc_blocks prk label 255 1 [],
            ),
      )
