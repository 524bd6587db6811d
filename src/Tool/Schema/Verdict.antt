-- ===== src/Tool/Schema/Verdict.antt =====
-- internal/tool/schema.go: the outcomes of `validateSchema`, and its recursion.
use oryxos_go.Tool.Schema.{
  Check, passes, fails, panics, out_of_fuel, ◌then_check◌, prefixed, validate_schema,
  check_keywords, supported_keyword, check_properties, check_properties_keyword, check_names,
  check_required, check_additional, check_items, check_enum, check_type, check_type_keyword,
  plain_type,
}
use oryxos_go.Go.Json.{
  Value, Elements, Members, get, size_members, size-get, size_object, size_member,
}
use oryxos_go.Go.Error.{Error}
use oryxos_go.Common.{
  ℕ, zero, suc, ◌<◌, ◌≡◌, refl, String, Option, none, some, Bool, true, false, Bool-cases, inl, inr,
  arith, ◌===◌,
}

-- A check that came to an end: no type assertion failed and the fuel was enough.
pub data IsVerdict : Check → Type 0 where
  accepted : IsVerdict passes
  rejected : (e : Error) → IsVerdict (fails e)

pub IsVerdict-then : {a b : Check} → IsVerdict a → IsVerdict b → IsVerdict (a then_check b)
IsVerdict-then accepted v = v
IsVerdict-then (rejected e) v = rejected e

pub IsVerdict-after :
    {a b : Check} → IsVerdict a → (a ≡ passes → IsVerdict b) → IsVerdict (a then_check b)
IsVerdict-after accepted f = f refl
IsVerdict-after (rejected e) f = rejected e

pub IsVerdict-prefixed : (prefix : String) {a : Check} → IsVerdict a → IsVerdict (prefixed prefix a)
IsVerdict-prefixed prefix accepted = accepted
IsVerdict-prefixed prefix (rejected e) = rejected _

pub both_pass : (a : Check) {b : Check} → a then_check b ≡ passes → (a ≡ passes) × (b ≡ passes)
both_pass passes h = (refl, h)
both_pass (fails e) h = cc
both_pass panics h = cc
both_pass out_of_fuel h = cc

pub prefixed_passes : (prefix : String) (a : Check) → prefixed prefix a ≡ passes → a ≡ passes
prefixed_passes prefix passes h = refl
prefixed_passes prefix (fails e) h = cc
prefixed_passes prefix panics h = cc
prefixed_passes prefix out_of_fuel h = cc

keywords-IsVerdict : (schema : Members) → IsVerdict (check_keywords schema)
unfolding check_keywords
keywords-IsVerdict Members.no_member = accepted
keywords-IsVerdict (Members.member keyword value rest) =
    elim (Bool-cases (supported_keyword keyword)) [
      | inl held ↦ rw (held, check_keywords) (keywords-IsVerdict rest)
      | inr other ↦ rw (other, check_keywords) (rejected _)
    ]

names-IsVerdict : (names : Elements) → IsVerdict (check_names names)
unfolding check_names
names-IsVerdict Elements.no_element = accepted
names-IsVerdict (Elements.element (Value.text name) rest) = names-IsVerdict rest
names-IsVerdict (Elements.element (Value.number n) rest) = rejected _
names-IsVerdict (Elements.element (Value.boolean b) rest) = rejected _
names-IsVerdict (Elements.element (Value.array vs) rest) = rejected _
names-IsVerdict (Elements.element (Value.object fs) rest) = rejected _
names-IsVerdict (Elements.element Value.null rest) = rejected _

required-IsVerdict : (required : Option Value) → IsVerdict (check_required required)
unfolding check_required
required-IsVerdict none = accepted
required-IsVerdict (some (Value.array names)) = names-IsVerdict names
required-IsVerdict (some (Value.text s)) = rejected _
required-IsVerdict (some (Value.number n)) = rejected _
required-IsVerdict (some (Value.boolean b)) = rejected _
required-IsVerdict (some (Value.object fs)) = rejected _
required-IsVerdict (some Value.null) = rejected _

additional-IsVerdict : (additional : Option Value) → IsVerdict (check_additional additional)
unfolding check_additional
additional-IsVerdict none = accepted
additional-IsVerdict (some (Value.boolean false)) = accepted
additional-IsVerdict (some (Value.boolean true)) = rejected _
additional-IsVerdict (some (Value.array names)) = rejected _
additional-IsVerdict (some (Value.text s)) = rejected _
additional-IsVerdict (some (Value.number n)) = rejected _
additional-IsVerdict (some (Value.object fs)) = rejected _
additional-IsVerdict (some Value.null) = rejected _

enum-IsVerdict : (choices : Option Value) → IsVerdict (check_enum choices)
unfolding check_enum
enum-IsVerdict none = accepted
enum-IsVerdict (some (Value.array names)) = accepted
enum-IsVerdict (some (Value.boolean b)) = rejected _
enum-IsVerdict (some (Value.text s)) = rejected _
enum-IsVerdict (some (Value.number n)) = rejected _
enum-IsVerdict (some (Value.object fs)) = rejected _
enum-IsVerdict (some Value.null) = rejected _

-- Below, `check` stands for the recursive call, which comes to a verdict on what is small enough.
module _ (check : Members → Check) (limit : ℕ)
    (ih : (part : Members) → size_members part < limit → IsVerdict (check part)) where
  properties-IsVerdict :
      (properties : Members)
      → size_members properties < suc limit
      → IsVerdict (check_properties check properties)
  unfolding check_properties
  properties-IsVerdict Members.no_member small = accepted
  properties-IsVerdict (Members.member name (Value.object property) rest) small =
      IsVerdict-then (IsVerdict-prefixed _ (ih property (omega (arith, size_object, size_member))))
        (properties-IsVerdict rest (omega (arith, size_object, size_member)))
  properties-IsVerdict (Members.member name (Value.boolean b) rest) small = rejected _
  properties-IsVerdict (Members.member name (Value.text s) rest) small = rejected _
  properties-IsVerdict (Members.member name (Value.number n) rest) small = rejected _
  properties-IsVerdict (Members.member name (Value.array vs) rest) small = rejected _
  properties-IsVerdict (Members.member name Value.null rest) small = rejected _

  properties_keyword-IsVerdict :
      (schema : Members) (found : Option Value)
      → get "properties" schema ≡ found
      → size_members schema < suc limit
      → IsVerdict (check_properties_keyword check found)
  unfolding check_properties_keyword
  properties_keyword-IsVerdict schema none eq small = accepted
  properties_keyword-IsVerdict schema (some (Value.object properties)) eq small =
      let inside = size-get "properties" schema eq in
      properties-IsVerdict properties (omega (arith, size_object, size_member))
  properties_keyword-IsVerdict schema (some (Value.boolean b)) eq small = rejected _
  properties_keyword-IsVerdict schema (some (Value.text s)) eq small = rejected _
  properties_keyword-IsVerdict schema (some (Value.number n)) eq small = rejected _
  properties_keyword-IsVerdict schema (some (Value.array vs)) eq small = rejected _
  properties_keyword-IsVerdict schema (some Value.null) eq small = rejected _

  items-IsVerdict :
      (schema : Members) (found : Option Value)
      → get "items" schema ≡ found
      → size_members schema < suc limit
      → IsVerdict (check_items check found)
  unfolding check_items
  items-IsVerdict schema none eq small = rejected _
  items-IsVerdict schema (some (Value.object items)) eq small =
      let inside = size-get "items" schema eq in
      IsVerdict-prefixed _ (ih items (omega (arith, size_object, size_member)))
  items-IsVerdict schema (some (Value.boolean b)) eq small = rejected _
  items-IsVerdict schema (some (Value.text s)) eq small = rejected _
  items-IsVerdict schema (some (Value.number n)) eq small = rejected _
  items-IsVerdict schema (some (Value.array vs)) eq small = rejected _
  items-IsVerdict schema (some Value.null) eq small = rejected _

  object-IsVerdict :
      (schema : Members)
      → size_members schema < suc limit
      → IsVerdict (
          check_properties_keyword check (get "properties" schema)
          then_check check_required (get "required" schema)
          then_check check_additional (get "additionalProperties" schema))
  object-IsVerdict schema small =
      IsVerdict-then (properties_keyword-IsVerdict schema _ refl small) (
        IsVerdict-then (required-IsVerdict (get "required" schema))
          (additional-IsVerdict (get "additionalProperties" schema)))

  type-IsVerdict :
      (schema : Members) (name : String)
      → size_members schema < suc limit
      → IsVerdict (check_type check schema name)
  unfolding check_type
  type-IsVerdict schema name small = elim (Bool-cases (name === "object")) [
    | inl is_object ↦ rw (is_object, check_type) (object-IsVerdict schema small)
    | inr no_object ↦ elim (Bool-cases (name === "array")) [
      | inl is_array ↦ rw (no_object, is_array, check_type) (items-IsVerdict schema _ refl small)
      | inr no_array ↦ elim (Bool-cases (plain_type name)) [
        | inl is_plain ↦ rw (no_object, no_array, is_plain, check_type) accepted
        | inr unknown ↦ rw (no_object, no_array, unknown, check_type) (rejected _)
      ]
    ]
  ]

  type_keyword-IsVerdict :
      (schema : Members) (root : Bool) (found : Option Value)
      → size_members schema < suc limit
      → IsVerdict (check_type_keyword check schema root found)
  unfolding check_type_keyword check_type
  type_keyword-IsVerdict schema false (some (Value.text name)) small =
      type-IsVerdict schema name small
  type_keyword-IsVerdict schema true (some (Value.text name)) small =
      elim (Bool-cases (name === "object")) [
        | inl held ↦ rw (held, check_type, check_type_keyword) (object-IsVerdict schema small)
        | inr other ↦ rw (other, check_type_keyword) (rejected _)
      ]
  type_keyword-IsVerdict schema root none small = rejected _
  type_keyword-IsVerdict schema root (some (Value.object fs)) small = rejected _
  type_keyword-IsVerdict schema root (some (Value.boolean b)) small = rejected _
  type_keyword-IsVerdict schema root (some (Value.number n)) small = rejected _
  type_keyword-IsVerdict schema root (some (Value.array vs)) small = rejected _
  type_keyword-IsVerdict schema root (some Value.null) small = rejected _

-- Fuel above the size of a schema is enough to check it.
pub validate_schema-IsVerdict :
    (fuel : ℕ) (schema : Members) (root : Bool)
    → size_members schema < fuel
    → IsVerdict (validate_schema fuel schema root)
unfolding validate_schema
validate_schema-IsVerdict zero schema root small = absurd (omega arith)
validate_schema-IsVerdict (suc fuel) schema root small =
    IsVerdict-then (keywords-IsVerdict schema) (
      IsVerdict-then
        (type_keyword-IsVerdict (λ part. validate_schema fuel part false) fuel
          (λ part below. validate_schema-IsVerdict fuel part false below) schema root _ small)
        (enum-IsVerdict (get "enum" schema)))
