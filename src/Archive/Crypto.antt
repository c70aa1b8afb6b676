-- ===== src/Archive/Crypto.antt =====
-- internal/store/crypto.go, ConfigEncryptor. AES-GCM with base64 is a parameter.
pub mod Laws
pub mod Tests
use arc_relay.Prelude.{◌≡◌, List, [], ◌∷◌, ◌++◌, Option, none, some}
use arc_relay.Prelude.Text.{Text, codes, after_prefix}

-- A value, or the text of an error.
pub data Result {ℓ} (A : Type ℓ) : Type ℓ where
  ok : A → Result A
  err : Text → Result A

-- `seal` is GCM's Seal under a nonce, then base64; `unseal` is the way back, which fails on a text
-- that is not base64, is too short, or does not authenticate.
pub record Cipher : Type 0 where
  pub seal : Text → Text → Text
  pub unseal : Text → Result Text
  pub unseal-seal : (iv plain : Text) → unseal (seal iv plain) ≡ ok plain

-- `gcm` is nil where no key is configured.
pub record ConfigEncryptor : Type 0 where
  pub gcm : Option Cipher

abbrev pub encrypted_prefix : Text
encrypted_prefix = codes "enc:"

-- Encrypt. The nonce `iv` is `none` where the random source fails.
unfoldable pub encrypt : ConfigEncryptor → Option Text → Text → Result Text
encrypt e iv plain = elim e.gcm [
  | none ↦ ok plain
  | some c ↦ elim iv [
    | none ↦ err (codes "generating nonce")
    | some n ↦ ok (encrypted_prefix ++ c.seal n plain)
  ]
]

-- Decrypt. A text without the prefix is a legacy plaintext.
unfoldable pub decrypt : ConfigEncryptor → Text → Result Text
decrypt e stored = elim (after_prefix encrypted_prefix stored) [
  | none ↦ ok stored
  | some sealed ↦ elim e.gcm [
    | none ↦ err (codes "config is encrypted but no encryption key is configured")
    | some c ↦ c.unseal sealed
  ]
]
