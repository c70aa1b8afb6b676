-- ===== src/Archive/Crypto/Tests.antt =====
-- Encryption with a toy cipher.
use arc_relay.Prelude.{◌≡◌, refl, [], ◌∷◌, none, some}
use arc_relay.Prelude.Text.{Text, codes}
use arc_relay.Archive.Crypto.{Result, ok, err, Cipher, ConfigEncryptor, encrypt, decrypt}

abbrev drop_mark : Text → Result Text
drop_mark [] = err (codes "ciphertext too short")
drop_mark (c ∷ s) = ok s

-- Marks a text with one letter in front.
abbrev pub marking : Cipher
marking = record {
  seal = λ iv plain. b'#' ∷ plain;
  unseal = drop_mark;
  unseal-seal = λ iv plain. refl;
}

abbrev pub keyed : ConfigEncryptor
keyed = record { gcm = some marking }

encrypted : encrypt keyed (some (codes "iv")) (codes "secret") ≡ ok (codes "enc:#secret")
unfolding encrypt
encrypted = refl

no_key :
    decrypt (record { gcm = none }) (codes "enc:#secret")
    ≡ err (codes "config is encrypted but no encryption key is configured")
unfolding decrypt
no_key = refl
