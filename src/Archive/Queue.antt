-- ===== src/Archive/Queue.antt =====
-- internal/store/archive_queue.go. The table is a list of rows; times are seconds, as the table keeps
-- them. A statement that the database refuses is not modelled, but for a duplicate primary key.
pub mod Order
pub mod Auth
pub mod Held
pub mod Tests
use arc_relay.Prelude.{
  ℕ, suc, ◌+◌, String, List, [], ◌∷◌, ◌++◌, map, Bool, true, false, ◌&&◌, ◌||◌, Option, none, some,
  leb, ltb, ◌==◌, if◌then◌else◌, not, any, keep, take, str_eq, length,
}
use arc_relay.Prelude.Text.{Text, codes}
use arc_relay.Archive.Crypto.{Result, ok, err, ConfigEncryptor, encrypt, decrypt}

pub data Status : Type 0 where
  pending hold : Status

pub record Item : Type 0 where
  pub id : String
  pub server_id : String
  pub created_at : ℕ
  pub payload : Text
  pub url : String
  pub auth_type : String
  pub auth_value : Text
  pub api_key_header : String
  pub status : Status
  pub attempts : ℕ
  pub next_attempt_at : ℕ
  pub last_attempt_at : Option ℕ
  pub last_error : Option Text

abbrev pub is_pending : Status → Bool
is_pending pending = true
is_pending hold = false

abbrev pub is_hold : Status → Bool
is_hold s = not (is_pending s)

abbrev pub has_id : String → Item → Bool
has_id id r = str_eq r.id id

-- UPDATE … WHERE p, and DELETE … WHERE p.
unfoldable pub update_where : (Item → Bool) → (Item → Item) → List Item → List Item
update_where p f [] = []
update_where p f (r ∷ rs) = (if p r then f r else r) ∷ update_where p f rs

abbrev pub delete_where : (Item → Bool) → List Item → List Item
delete_where p = keep (λ r. not (p r))

-- The auth value as it is stored and as it is read. A nil encryptor leaves it as it is.
unfoldable pub seal_auth : Option ConfigEncryptor → Option Text → Text → Result Text
seal_auth enc iv [] = ok []
seal_auth none iv (c ∷ v) = ok (c ∷ v)
seal_auth (some e) iv (c ∷ v) = encrypt e iv (c ∷ v)

unfoldable pub open_auth : Option ConfigEncryptor → Text → Result Text
open_auth enc [] = ok []
open_auth none (c ∷ v) = ok (c ∷ v)
open_auth (some e) (c ∷ v) = decrypt e (c ∷ v)

-- Enqueue. The item has its id by now.
unfoldable pub enqueue :
    Option ConfigEncryptor → Option Text → ℕ → Item → List Item → Result (List Item)
enqueue enc iv now item table = elim (seal_auth enc iv item.auth_value) [
  | err e ↦ err (codes "encrypting auth_value: " ++ e)
  | ok stored ↦
      if any (has_id item.id) table
      then err (codes "UNIQUE constraint failed: archive_queue.id")
      else ok (
          table
          ++ record item {
            created_at = now;
            auth_value = stored;
            status = pending;
            attempts = 0;
            next_attempt_at = now;
            last_attempt_at = none;
            last_error = none;
          }
            ∷ [])
]

-- MarkDelivered, Reschedule, MarkHold.
unfoldable pub mark_delivered : String → List Item → List Item
mark_delivered id = delete_where (has_id id)

unfoldable pub reschedule : ℕ → String → ℕ → Text → List Item → List Item
reschedule now id next_attempt message = update_where (has_id id) (λ r. record r {
  attempts = r.attempts + 1;
  next_attempt_at = next_attempt;
  last_attempt_at = some now;
  last_error = some message;
})

unfoldable pub mark_hold : ℕ → String → Text → List Item → List Item
mark_hold now id message = update_where (has_id id) (λ r. record r {
  status = hold;
  attempts = r.attempts + 1;
  last_attempt_at = some now;
  last_error = some message;
})

-- RetryHeld, RewriteHeldDelivery, ClearHeld. The row counts are those of the rows that match.
unfoldable pub retry_held : ℕ → List Item → List Item
retry_held now =
    update_where (λ r. is_hold r.status)
      (λ r. record r { status = pending; next_attempt_at = now; attempts = 0 })

unfoldable pub rewrite_rows : ℕ → String → String → Text → String → List Item → List Item
rewrite_rows now url auth_type stored header =
    update_where (λ r. not (str_eq r.url url))
      (λ r. record r {
        url = url;
        auth_type = auth_type;
        auth_value = stored;
        api_key_header = header;
        attempts = 0;
        last_error = some [];
        next_attempt_at = now;
      })

unfoldable pub rewrite_held_delivery :
    Option ConfigEncryptor
    → Option Text
    → ℕ
    → String
    → String
    → Text
    → String
    → List Item
    → Result (List Item)
rewrite_held_delivery enc iv now url auth_type auth_value header table =
    elim (seal_auth enc iv auth_value) [
      | err e ↦ err (codes "encrypt auth_value: " ++ e)
      | ok stored ↦ ok (rewrite_rows now url auth_type stored header table)
    ]

unfoldable pub clear_held : List Item → List Item
clear_held = delete_where (λ r. is_hold r.status)

-- ORDER BY next_attempt_at ASC, created_at ASC; rows that tie stay in their order.
abbrev pub is_before : Item → Item → Bool
is_before a b =
    ltb a.next_attempt_at b.next_attempt_at
    || (a.next_attempt_at == b.next_attempt_at && leb a.created_at b.created_at)

pub insert : Item → List Item → List Item
insert r [] = r ∷ []
insert r (x ∷ xs) = if is_before r x then r ∷ x ∷ xs else x ∷ insert r xs

pub sort : List Item → List Item
unfolding insert
sort [] = []
sort (r ∷ rs) = insert r (sort rs)

abbrev pub is_due : ℕ → Item → Bool
is_due now r = is_pending r.status && leb r.next_attempt_at now

-- The rows of DequeueDue's query.
unfoldable pub select_due : ℕ → ℕ → List Item → List Item
unfolding sort
select_due now limit table = take limit (sort (keep (is_due now) table))

-- The loop over the rows: a row whose auth value cannot be decrypted is put on hold and skipped.
unfoldable pub open_rows :
    Option ConfigEncryptor → ℕ → List Item → List Item → List Item × List Item
open_rows enc now [] table = ([], table)
open_rows enc now (r ∷ rs) table = elim (open_auth enc r.auth_value) [
  | err e ↦ open_rows enc now rs (mark_hold now r.id (codes "decrypt failed: " ++ e) table)
  | ok plain ↦
      let (items, table') = open_rows enc now rs table in
      (record r { auth_value = plain } ∷ items, table')
]

-- DequeueDue: the items to send, and the table after it.
unfoldable pub dequeue_due : Option ConfigEncryptor → ℕ → ℕ → List Item → List Item × List Item
dequeue_due enc now limit table = open_rows enc now (select_due now limit table) table

-- Status and StatusForServer, without the last error.
pub record QueueStatus : Type 0 where
  pub pending_count : ℕ
  pub hold_count : ℕ
  pub total_count : ℕ

unfoldable pub status : List Item → QueueStatus
status table = record {
  pending_count = length (keep (λ r. is_pending r.status) table);
  hold_count = length (keep (λ r. is_hold r.status) table);
  total_count = length table;
}

unfoldable pub status_for_server : String → List Item → QueueStatus
unfolding status
status_for_server id table = status (keep (λ r. str_eq r.server_id id) table)
