-- ===== src/Archive/Dispatcher/Admin.antt =====
-- The rows of the queue table under what administrators do.
use arc_relay.Prelude.{
  ◌≡◌, refl, ◌⊎◌, inl, inr, String, List, [], ◌∷◌, Bool, true, false, none, keep,
}
use arc_relay.Prelude.Text.{Text}
use arc_relay.Archive.Queue.{Item, update_where, clear_held, retry_held, rewrite_rows}
use arc_relay.Archive.Dispatcher.{
  Action, circuit_reset, test_passed, held_cleared, held_retried, rewritten, table_after,
}
use arc_relay.Archive.Dispatcher.Rows.{
  row, Holds, IsKeyed, IsQuiet, keep-none, keep-IsKeyed, keep-Holds, update_where-IsKeyed,
  update_where-Holds, update_where-none,
}

-- Whether the held rows are cleared.
abbrev pub clears : List Action → Bool
clears [] = false
clears (held_cleared ∷ actions) = true
clears (circuit_reset ∷ actions) = clears actions
clears (test_passed ∷ actions) = clears actions
clears (held_retried now ∷ actions) = clears actions
clears (rewritten now url auth_type stored header ∷ actions) = clears actions

abbrev pub Stays : String → Text → List Item → List Action → Type 0
Stays id p table actions = Holds id p table ⊎ ((clears actions ≡ true) × (row id table ≡ none))

-- What administrators do leaves the row of an item, or clears it.
pub record Acted (actions : List Action) (table after : List Item) : Type 0 where
  pub stays : (id : String) (p : Text) → Holds id p table → Stays id p after actions
  pub adds_none : (id : String) → row id table ≡ none → row id after ≡ none
  pub keeps_keyed : IsKeyed after

quiet-Acted :
    (actions : List Action) (p : Item → Bool) (f : Item → Item) (table after : List Item)
    → IsQuiet f
    → IsKeyed table
    → (IsKeyed (update_where p f table) → Acted actions (update_where p f table) after)
    → Acted actions table after
quiet-Acted actions p f table after q k next =
    let rest = next (update_where-IsKeyed p f table q k) in
    record {
      stays = λ id payload h. rest.stays id payload (update_where-Holds p f id payload table q h);
      adds_none = λ id e. rest.adds_none id (update_where-none p f id table q e);
      keeps_keyed = rest.keeps_keyed;
    }

cleared-Acted :
    (actions : List Action) (q : Item → Bool) (table after : List Item)
    → IsKeyed table
    → (IsKeyed (keep q table) → Acted actions (keep q table) after)
    → Acted (held_cleared ∷ actions) table after
cleared-Acted actions q table after k next =
    let rest = next (keep-IsKeyed q table k) in
    record {
      stays = λ id p h. elim (keep-Holds q id p table k h) [
        | inl there ↦ elim (rest.stays id p there) [
          | inl still ↦ inl still
          | inr gone ↦ inr (refl, gone.1)
        ]
        | inr gone ↦ inr (refl, rest.adds_none id gone)
      ];
      adds_none = λ id e. rest.adds_none id (keep-none q id table e);
      keeps_keyed = rest.keeps_keyed;
    }

same-Acted :
    (a : Action) (actions : List Action) (table after : List Item)
    → (clears actions ≡ true → clears (a ∷ actions) ≡ true)
    → Acted actions table after
    → Acted (a ∷ actions) table after
same-Acted a actions table after more rest = record {
  stays = λ id p h. elim (rest.stays id p h) [
    | inl still ↦ inl still
    | inr gone ↦ inr (more gone.0, gone.1)
  ];
  adds_none = rest.adds_none;
  keeps_keyed = rest.keeps_keyed;
}

pub table_after-Acted :
    (actions : List Action) (table : List Item)
    → IsKeyed table
    → Acted actions table (table_after actions table)
unfolding clear_held retry_held rewrite_rows
table_after-Acted [] table k = record {
  stays = λ id p h. inl h;
  adds_none = λ id e. e;
  keeps_keyed = k;
}
table_after-Acted (circuit_reset ∷ actions) table k =
    same-Acted circuit_reset actions table _ (λ h. h) (table_after-Acted actions table k)
table_after-Acted (test_passed ∷ actions) table k =
    same-Acted test_passed actions table _ (λ h. h) (table_after-Acted actions table k)
table_after-Acted (held_cleared ∷ actions) table k =
    cleared-Acted actions _ table _ k (table_after-Acted actions _)
table_after-Acted (held_retried now ∷ actions) table k =
    same-Acted (held_retried now) actions table _ (λ h. h)
      (quiet-Acted actions _ _ table _ (record { same_id = λ r. refl; same_payload = λ r. refl }) k
        (table_after-Acted actions _))
table_after-Acted (rewritten now url auth_type stored header ∷ actions) table k =
    same-Acted (rewritten now url auth_type stored header) actions table _ (λ h. h)
      (quiet-Acted actions _ _ table _ (record { same_id = λ r. refl; same_payload = λ r. refl }) k
        (table_after-Acted actions _))
