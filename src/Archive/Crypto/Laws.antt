-- ===== src/Archive/Crypto/Laws.antt =====
-- Encryption followed by decryption.
use arc_relay.Prelude.{◌≡◌, ◌≢◌, ◌↔◌, ◌⊎◌, inl, inr, Option, none, arith, Option-cases}
use arc_relay.Prelude.Text.{Text, after_prefix}
use arc_relay.Archive.Crypto.{ok, ConfigEncryptor, encrypted_prefix, encrypt, decrypt}

-- Where encryption succeeds, decryption with the same encryptor gives the plaintext back exactly
-- when a key is configured or the plaintext does not itself begin with "enc:".
pub decrypt-encrypt :
    (e : ConfigEncryptor) (iv : Option Text) (plain : Text) {stored : Text}
    → encrypt e iv plain ≡ ok stored
    → (decrypt e stored ≡ ok plain)
      ↔ ((e.gcm ≢ none) ⊎ (after_prefix encrypted_prefix plain ≡ none))
unfolding encrypt decrypt
decrypt-encrypt e iv plain h = elim (Option-cases e.gcm) [
  | inl no_key ↦ ground (arith, no_key)
  | inr (c, key) ↦ elim (Option-cases iv) [
    | inl no_iv ↦ ground (arith, key, no_iv)
    | inr (n, drawn) ↦
        (λ _. inl (ground (arith, key)), λ _. ground (arith, key, drawn, c.unseal-seal n plain))
  ]
]
