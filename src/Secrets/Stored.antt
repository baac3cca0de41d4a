-- ===== src/Secrets/Stored.antt =====
-- A secret that is stored and read again (product_api.go: encryptSecret, decryptSecret).
use lillian_backend.Common.{
  ℕ, ◌==◌, ◌≡◌, refl, ap, sym, ◌∙◌, Text, codes, text_eq, split_at, false, Option, none, some, List,
  [], ◌∷◌, ◌++◌, Result-cases, inl, inr, ok, arith, All,
}
use lillian_backend.Secrets.{
  Crypto, encrypt_secret, decrypt_secret, decrypt_parts, opened, sealed, credential_key,
}

-- What the cipher and the encoding promise, of one key and one initial vector.
pub record IsSound (c : Crypto) : Type 0 where
  pub unseals : (key iv plain : List ℕ) → c.unseal key iv (c.seal key iv plain) ≡ some plain
  pub decodes : (bytes : List ℕ) → c.from_base64 (c.base64 bytes) ≡ ok bytes
  pub no_dot : (bytes : List ℕ) → All (λ x. (x == b'.') ≡ false) (c.base64 bytes)
  pub reads : (s : Text) → c.text_of (c.bytes_of s) ≡ s

-- A part that holds no dot comes off whole.
split_at-part :
    (s t : Text)
    → All (λ x. (x == b'.') ≡ false) s
    → split_at b'.' (s ++ b'.' ∷ t) ≡ s ∷ split_at b'.' t
unfolding split_at
split_at-part [] t h = refl
split_at-part (x ∷ s) t h = rw (h.0, split_at-part s t h.1) refl

split_at-last : (s : Text) → All (λ x. (x == b'.') ≡ false) s → split_at b'.' s ≡ s ∷ []
unfolding split_at
split_at-last [] h = refl
split_at-last (x ∷ s) h = rw (h.0, split_at-last s h.1) refl

module _ (c : Crypto) (sound : IsSound c) where
  split_at-sealed :
      (key iv : List ℕ) (value : Text)
      → split_at b'.' (sealed c key iv value)
        ≡ codes "v1" ∷ c.base64 iv ∷ c.base64 (c.seal key iv (c.bytes_of value)) ∷ []
  unfolding sealed
  split_at-sealed key iv value =
      split_at-part (codes "v1") _ (refl, (refl, tt))
      ∙ ap (λ t. codes "v1" ∷ t)
          (split_at-part (c.base64 iv) _ (sound.no_dot iv)
            ∙ ap (λ t. c.base64 iv ∷ t) (split_at-last _ (sound.no_dot _)))

  opened-sealed :
      (provider_secret value : Text) (key iv : List ℕ)
      → credential_key c provider_secret ≡ ok key
      → opened c provider_secret iv (c.seal key iv (c.bytes_of value)) ≡ ok value
  unfolding opened
  opened-sealed provider_secret value key iv e =
      rw (e, opened) (rw (sound.unseals key iv (c.bytes_of value)) (ap ok (sound.reads value)))

  decrypt-sealed :
      (provider_secret value : Text) (key iv : List ℕ)
      → credential_key c provider_secret ≡ ok key
      → decrypt_secret c provider_secret (sealed c key iv value) ≡ ok value
  unfolding decrypt_secret decrypt_parts text_eq
  decrypt-sealed provider_secret value key iv e =
      ap (decrypt_parts c provider_secret) (split_at-sealed key iv value)
      ∙ rw (sound.decodes iv, sound.decodes (c.seal key iv (c.bytes_of value)))
          (opened-sealed provider_secret value key iv e)

  -- What is stored under a secret is read back under it: whatever the text, the secret and the random
  -- bytes, what encryptSecret returns is decrypted to the text.
  pub decrypt-encrypt :
      (provider_secret value stored : Text) (iv : Option (List ℕ))
      → encrypt_secret c provider_secret iv value ≡ ok stored
      → decrypt_secret c provider_secret stored ≡ ok value
  unfolding encrypt_secret
  decrypt-encrypt provider_secret value stored none h =
      elim (Result-cases (credential_key c provider_secret)) [
        | inl (key, e) ↦ absurd (grind arith)
        | inr (x, e) ↦ absurd (grind arith)
      ]
  decrypt-encrypt provider_secret value stored (some iv) h =
      elim (Result-cases (credential_key c provider_secret)) [
        | inl (key, e) ↦
            let same : sealed c key iv value ≡ stored = grind arith in
            ap (decrypt_secret c provider_secret) (sym same)
            ∙ decrypt-sealed provider_secret value key iv e
        | inr (x, e) ↦ absurd (grind arith)
      ]
