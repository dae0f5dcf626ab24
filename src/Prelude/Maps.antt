-- ===== src/Prelude/Maps.antt =====
-- A `BTreeMap` of texts: a list of its entries, in key order.
use Prim.Native.String.{String}
use mathlib.Core.Bool.{Bool}
use mathlib.Core.List.{List, [], ◌∷◌}
use mathlib.Core.Option.{Option, none, some}
use text.Mathlib.Text.{◌==◌ as str_eq}
use simple_alert_proxy.Prelude.Tests.{if◌then◌else◌, is_some}

abbrev pub Entries {ℓ} : Type ℓ → Type ℓ
Entries A = List (String × A)

module _ {ℓ} {A : Type ℓ} where
  -- `get`, `contains_key`
  unfoldable pub get : String → Entries A → Option A
  get k [] = none
  get k ((j, a) ∷ rest) = if str_eq j k then some a else get k rest

  unfoldable pub contains_key : String → Entries A → Bool
  unfolding get
  contains_key k m = is_some (get k m)
