-- ===== src/Prelude/Maps.antt =====
-- A Go map with string keys, read as a function. A missing key is `none`.
use Prim.Native.String.{String}
use mathlib.Core.Option.{Option, none, some}
use mathlib.Core.Path.{◌≡◌}
use native.Mathlib.Omega.{arith}
use text.Mathlib.Text.{◌==◌ as str_eq}
use text.Mathlib.TextEquality.{eq_iff}
use arc_relay.Prelude.Tests.{if◌then◌else◌}

abbrev pub StrMap : Type 0 → Type 0
StrMap V = String → Option V

module _ {V : Type 0} where
  abbrev pub empty : StrMap V
  empty k = none

  abbrev pub update : StrMap V → String → V → StrMap V
  update m k v j = if str_eq k j then some v else m j

  abbrev pub delete : StrMap V → String → StrMap V
  delete m k j = if str_eq k j then none else m j

  pub update_self : (m : StrMap V) (k : String) (v : V) → update m k v k ≡ some v
  update_self m k v = ground (arith, eq_iff k k)

  pub delete_self : (m : StrMap V) (k : String) → delete m k k ≡ none
  delete_self m k = ground (arith, eq_iff k k)
