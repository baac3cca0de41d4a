-- ===== src/Secrets.antt =====
-- Secrets that are stored, and identifiers and codes made of random bytes (product_api.go:
-- hashSecret, encryptSecret, decryptSecret, credentialAEAD, randomToken, randomLicenseKey,
-- randomUUID, newServiceProfileID; wallet_api.go: randomRecoveryCode, randomWalletAddress,
-- base32NoPadding). Bytes are numbers below 256, given as the random source returned them.
pub mod Stored
use lillian_backend.Common.{
  ℕ, zero, suc, ◌+◌, ◌*◌, ◌%◌, ◌/◌, ltb, ◌==◌, Text, codes, text_eq, trim_space, trim_right_of,
  is_nil, split_at, length, take, drop, not, Bool, true, false, Option, none, some, List, [], ◌∷◌,
  ◌++◌, map, if◌then◌else◌, Result, ok, err,
}

-- crypto/sha256, AES-GCM under a key of 32 bytes, encoding/base64 (RawURLEncoding), encoding/base32
-- and encoding/hex, and the bytes of a text.
pub record Crypto : Type 0 where
  pub sha256 : List ℕ → List ℕ
  pub seal : List ℕ → List ℕ → List ℕ → List ℕ
  pub unseal : List ℕ → List ℕ → List ℕ → Option (List ℕ)
  pub base64 : List ℕ → Text
  pub from_base64 : Text → Result Text (List ℕ)
  pub base32 : List ℕ → Text
  pub hex : List ℕ → Text
  pub bytes_of : Text → List ℕ
  pub text_of : List ℕ → Text

-- s[from:to]
abbrev pub slice : ℕ → ℕ → Text → Text
slice from len s = take len (drop from s)

module _ (c : Crypto) where
  unfoldable pub hash_secret : Text → Text → Text
  hash_secret pepper value =
      c.hex (c.sha256 (c.bytes_of (pepper ++ (codes ":" ++ trim_space value))))

  -- The key of the cipher.
  unfoldable pub credential_key : Text → Result Text (List ℕ)
  credential_key provider_secret =
      if is_nil (trim_space provider_secret)
      then err (codes "Provider credential encryption secret is not configured")
      else ok (c.sha256 (c.bytes_of (trim_space provider_secret)))

  sealed : List ℕ → List ℕ → Text → Text
  sealed key iv value =
      codes "v1." ++ (c.base64 iv ++ b'.' ∷ c.base64 (c.seal key iv (c.bytes_of value)))

  -- The twelve random bytes are none where the source fails.
  unfoldable pub encrypt_secret : Text → Option (List ℕ) → Text → Result Text Text
  unfolding credential_key sealed
  encrypt_secret provider_secret iv value = elim (credential_key provider_secret) [
    | err e ↦ err e
    | ok key ↦ elim iv [
      | none ↦ err (codes "random source failed")
      | some bytes ↦ ok (sealed key bytes value)
    ]
  ]

  opened : Text → List ℕ → List ℕ → Result Text Text
  unfolding credential_key
  opened provider_secret iv ciphertext = elim (credential_key provider_secret) [
    | err e ↦ err e
    | ok key ↦ elim (c.unseal key iv ciphertext) [
      | none ↦
          err (codes "密钥解密失败：PROVIDER_CREDENTIAL_SECRET 与写入数据库时不一致。请恢复原 secret，或在后台重新保存服务商 API Key")
      | some plain ↦ ok (c.text_of plain)
    ]
  ]

  abbrev not_configured : Text
  not_configured = codes "secret is not configured"

  decrypt_parts : Text → List Text → Result Text Text
  unfolding opened
  decrypt_parts provider_secret (version ∷ iv ∷ ciphertext ∷ []) =
      if not (text_eq version (codes "v1")) then err not_configured else elim (c.from_base64 iv) [
        | err e ↦ err e
        | ok i ↦ elim (c.from_base64 ciphertext) [
          | err e ↦ err e
          | ok b ↦ opened provider_secret i b
        ]
      ]
  decrypt_parts provider_secret _ = err not_configured

  unfoldable pub decrypt_secret : Text → Text → Result Text Text
  unfolding decrypt_parts
  decrypt_secret provider_secret value = decrypt_parts provider_secret (split_at b'.' value)

  unfoldable pub random_token : Text → List ℕ → Text
  random_token prefix bytes = prefix ++ b'_' ∷ c.base64 bytes

  -- Groups of five codes, each after a dash.
  groups : ℕ → Text → Text
  groups zero s = []
  groups (suc n) s = b'-' ∷ (take 5 s ++ groups n (drop 5 s))

  unfoldable pub license_key : List ℕ → Result Text Text
  unfolding groups
  license_key bytes =
      let raw = trim_right_of b'=' (c.base32 bytes) in
      if ltb (length raw) 20
      then err (codes "random license entropy was too short")
      else ok (codes "LIL" ++ groups 4 (take 20 raw))

  unfoldable pub recovery_code : List ℕ → Result Text Text
  unfolding groups
  recovery_code bytes =
      let raw = trim_right_of b'=' (c.base32 bytes) in
      if ltb (length raw) 25
      then err (codes "random recovery entropy was too short")
      else ok (codes "LIL-WAL" ++ groups 5 (take 25 raw))

  unfoldable pub wallet_address : List ℕ → Text
  wallet_address bytes = codes "0x" ++ c.hex bytes

  -- b & 0x0f | 0x40 at the place 6, and b & 0x3f | 0x80 at the place 8
  abbrev mark_version : ℕ → ℕ
  mark_version b = b % 16 + 64

  abbrev mark_variant : ℕ → ℕ
  mark_variant b = b % 64 + 128

  unfoldable pub marked : List ℕ → List ℕ
  marked (b0 ∷ b1 ∷ b2 ∷ b3 ∷ b4 ∷ b5 ∷ b6 ∷ b7 ∷ b8 ∷ rest) =
      b0 ∷ b1 ∷ b2 ∷ b3 ∷ b4 ∷ b5 ∷ mark_version b6 ∷ b7 ∷ mark_variant b8 ∷ rest
  marked bytes = bytes

  unfoldable pub uuid : List ℕ → Text
  unfolding marked
  uuid bytes =
      let m = marked bytes in
      c.hex (slice 0 4 m)
      ++ b'-'
        ∷ (c.hex (slice 4 2 m)
            ++ b'-'
              ∷ (c.hex (slice 6 2 m)
                  ++ b'-' ∷ (c.hex (slice 8 2 m) ++ b'-' ∷ c.hex (slice 10 6 m))))

  without_dashes : Text → Text
  without_dashes [] = []
  without_dashes (d ∷ s) = let rest = without_dashes s in if d == b'-' then rest else d ∷ rest

  unfoldable pub new_service_profile_id : Text → Text → List ℕ → Text
  unfolding uuid without_dashes
  new_service_profile_id tier_bucket api_mode bytes =
      codes "provider-"
      ++ (tier_bucket ++ b'-' ∷ (api_mode ++ b'-' ∷ without_dashes (take 8 (uuid bytes))))
