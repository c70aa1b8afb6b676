-- ===== src/Archive/Queue/Auth.antt =====
-- The credentials that are stored with a payload (Enqueue of internal/store/archive_queue.go).
use arc_relay.Prelude.{
  ℕ, ◌≡◌, ◌≢◌, ◌⊎◌, refl, sym, ◌∙◌, ◌∷◌, [], ◌++◌, List, Option, none, some, arith,
}
use arc_relay.Prelude.Text.{Text, after_prefix}
use arc_relay.Archive.Crypto.{Result, ok, err, ConfigEncryptor, encrypted_prefix, decrypt}
use arc_relay.Archive.Crypto.Laws.{decrypt-encrypt}
use arc_relay.Archive.Queue.{Item, pending, seal_auth, open_auth, enqueue}

-- The values whose credentials survive storage: no encryptor, a key, or no "enc:" in front.
abbrev pub IsSafe : Option ConfigEncryptor → Text → Type 0
IsSafe none v = Unit {0}
IsSafe (some e) v = (e.gcm ≢ none) ⊎ (after_prefix encrypted_prefix v ≡ none)

open_auth-cons :
    (e : ConfigEncryptor) (v : Text) → decrypt e [] ≡ ok [] → open_auth (some e) v ≡ decrypt e v
unfolding open_auth
open_auth-cons e [] h = sym h
open_auth-cons e (c ∷ v) h = refl

decrypt-nil : (e : ConfigEncryptor) → decrypt e [] ≡ ok []
unfolding decrypt
decrypt-nil e = refl

pub open_auth-seal_auth :
    (enc : Option ConfigEncryptor) (iv : Option Text) (v : Text) {stored : Text}
    → IsSafe enc v
    → seal_auth enc iv v ≡ ok stored
    → open_auth enc stored ≡ ok v
unfolding seal_auth open_auth
open_auth-seal_auth enc iv [] s h = ground arith
open_auth-seal_auth none iv (c ∷ v) s h = ground arith
open_auth-seal_auth (some e) iv (c ∷ v) {stored} s h =
    open_auth-cons e stored (decrypt-nil e) ∙ (decrypt-encrypt e iv (c ∷ v) h).1 s

-- An item that the queue takes is its new last row: pending, due at once, with no attempt made and
-- the item's payload and destination, and reading the row's credentials gives those of the item,
-- unless an encryptor without a key meets credentials that begin with "enc:".
pub enqueue-stores :
    (enc : Option ConfigEncryptor) (iv : Option Text) (now : ℕ) (item : Item)
    (table after : List Item)
    → IsSafe enc item.auth_value
    → enqueue enc iv now item table ≡ ok after
    → (r : Item) × (after ≡ table ++ r ∷ [])
      × (r.id ≡ item.id)
      × (r.payload ≡ item.payload)
      × (r.url ≡ item.url)
      × (r.status ≡ pending)
      × (r.next_attempt_at ≡ now)
      × (r.attempts ≡ 0)
      × (open_auth enc r.auth_value ≡ ok item.auth_value)
unfolding enqueue
enqueue-stores enc iv now item table after s h = stored (seal_auth enc iv item.auth_value) refl
  where
    stored :
        (o : Result Text)
        → seal_auth enc iv item.auth_value ≡ o
        → (r : Item) × (after ≡ table ++ r ∷ [])
          × (r.id ≡ item.id)
          × (r.payload ≡ item.payload)
          × (r.url ≡ item.url)
          × (r.status ≡ pending)
          × (r.next_attempt_at ≡ now)
          × (r.attempts ≡ 0)
          × (open_auth enc r.auth_value ≡ ok item.auth_value)
    stored (err e) o = absurd (ground (arith, o))
    stored (ok v) o = (
      record item {
        created_at = now;
        auth_value = v;
        status = pending;
        attempts = 0;
        next_attempt_at = now;
        last_attempt_at = none;
        last_error = none;
      },
      ground (arith, o),
      refl,
      refl,
      refl,
      refl,
      refl,
      refl,
      open_auth-seal_auth enc iv item.auth_value s o,
    )
