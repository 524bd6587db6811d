-- ===== src/Common/Maps.antt =====
-- A Go map with text keys: an association list whose first entry for a key counts.
use Prim.Native.String.{String}
use mathlib.Core.Path.{◌≡◌, refl}
use mathlib.Core.Logic.{◌≢◌}
use mathlib.Core.Bool.{Bool, true, false}
use mathlib.Core.Option.{Option, none, some}
use mathlib.Core.List.{List, [], ◌∷◌}
use oryxos_go.Common.Tests.{◌===◌, if◌then◌else◌, ===_self, ===_ne}

module _ {A : Type 0} where
  abbrev pub lookup : String → List (String × A) → Option A
  lookup name [] = none
  lookup name (entry ∷ entries) = if entry.0 === name then some entry.1 else lookup name entries

  abbrev pub insert : String → A → List (String × A) → List (String × A)
  insert name value entries = (name, value) ∷ entries

  -- `_, exists := m[name]`
  abbrev pub is_some : Option A → Bool
  is_some none = false
  is_some (some value) = true

  pub lookup-insert :
      (name : String) (value : A) (entries : List (String × A))
      → lookup name (insert name value entries) ≡ some value
  lookup-insert name value entries = rw (===_self name) refl

  pub lookup-insert_ne :
      {name other : String} (value : A) (entries : List (String × A))
      → other ≢ name
      → lookup name (insert other value entries) ≡ lookup name entries
  lookup-insert_ne value entries h = rw (===_ne h) refl
