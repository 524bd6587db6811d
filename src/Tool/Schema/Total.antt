-- ===== src/Tool/Schema/Total.antt =====
-- internal/tool/schema.go: the outcomes of `validateValue` and `validateArguments`, the type
-- assertions among them.
use oryxos_go.Tool.Schema.{
  Check, passes, fails, ◌then_check◌, prefixed, validate_schema, check_keywords, check_properties,
  check_properties_keyword, check_required, check_additional, check_items, check_type,
  check_type_keyword, validate_value, value_property, value_properties, as_members, value_object,
  value_elements, value_array, value_typed, validate_arguments,
}
use oryxos_go.Go.Json.{
  Value, Elements, Members, get, size_members, size-get, size_object, size_member,
}
use oryxos_go.Go.Effect.{Result, ok, err, Result-cases}
use oryxos_go.Go.Error.{wrap}
use oryxos_go.Common.{
  ℕ, zero, suc, ◌<◌, ◌≡◌, refl, String, Option, none, some, Bool, true, false, Bool-cases, inl, inr,
  arith, ◌===◌,
}
use oryxos_go.Tool.Schema.Verdict.{IsVerdict, accepted, rejected}
use oryxos_go.Tool.Schema.Verdict.{
  IsVerdict-then, IsVerdict-after, IsVerdict-prefixed, both_pass, prefixed_passes,
  validate_schema-IsVerdict,
}
use oryxos_go.Tool.Schema.Parts.{
  value_enum-IsVerdict, value_required-IsVerdict, value_additional-IsVerdict, value_plain-IsVerdict,
}

-- Below, `check` and `inspect` stand for the recursive calls of the two functions: `inspect` comes to
-- a verdict on what is small enough and passes `check`.
module _ (check : Members → Check) (inspect : Members → Value → String → Check) (limit : ℕ)
    (ih : (part : Members) (value : Value) (path : String)
      → check part ≡ passes
      → size_members part < limit
      → IsVerdict (inspect part value path)) where
  value_property-IsVerdict :
      (property : Members) (found : Option Value) (path : String)
      → check property ≡ passes
      → size_members property < limit
      → IsVerdict (value_property inspect (Value.object property) found path)
  unfolding value_property
  value_property-IsVerdict property none path h small = accepted
  value_property-IsVerdict property (some value) path h small = ih property value path h small

  value_properties-IsVerdict :
      (properties given : Members) (path : String)
      → check_properties check properties ≡ passes
      → size_members properties < suc limit
      → IsVerdict (value_properties inspect properties given path)
  unfolding value_properties value_property check_properties
  value_properties-IsVerdict Members.no_member given path h small = accepted
  value_properties-IsVerdict (Members.member name (Value.object property) rest) given path h small =
      let parts = both_pass (prefixed _ (check property)) h in
      let after =
        value_properties-IsVerdict rest given path parts.1
          (omega (arith, size_object, size_member)) in
      IsVerdict-then
        (value_property-IsVerdict property (get name given) _
          (prefixed_passes _ (check property) parts.0) (omega (arith, size_object, size_member)))
        after
  value_properties-IsVerdict (Members.member name (Value.boolean b) rest) given path h small = cc
  value_properties-IsVerdict (Members.member name (Value.text s) rest) given path h small = cc
  value_properties-IsVerdict (Members.member name (Value.number n) rest) given path h small = cc
  value_properties-IsVerdict (Members.member name (Value.array vs) rest) given path h small = cc
  value_properties-IsVerdict (Members.member name Value.null rest) given path h small = cc

  value_elements-IsVerdict :
      (items : Members) (values : Elements) (index : ℕ) (path : String)
      → check items ≡ passes
      → size_members items < limit
      → IsVerdict (value_elements inspect items values index path)
  unfolding value_elements
  value_elements-IsVerdict items Elements.no_element index path h small = accepted
  value_elements-IsVerdict items (Elements.element value rest) index path h small =
      IsVerdict-then (ih items value _ h small)
        (value_elements-IsVerdict items rest (suc index) path h small)

  -- The properties of a checked schema, which may have none.
  value_members-IsVerdict :
      (schema : Members) (found : Option Value) (given : Members) (path : String)
      → get "properties" schema ≡ found
      → check_properties_keyword check found ≡ passes
      → size_members schema < suc limit
      → IsVerdict (value_properties inspect (as_members found) given path)
  unfolding check_properties_keyword value_properties
  value_members-IsVerdict schema none given path eq h small = accepted
  value_members-IsVerdict schema (some (Value.object properties)) given path eq h small =
      let inside = size-get "properties" schema eq in
      value_properties-IsVerdict properties given path h (omega (arith, size_object))
  value_members-IsVerdict schema (some (Value.boolean b)) given path eq h small = cc
  value_members-IsVerdict schema (some (Value.text s)) given path eq h small = cc
  value_members-IsVerdict schema (some (Value.number n)) given path eq h small = cc
  value_members-IsVerdict schema (some (Value.array vs)) given path eq h small = cc
  value_members-IsVerdict schema (some Value.null) given path eq h small = cc

  value_object-IsVerdict :
      (schema : Members) (value : Value) (path : String)
      → size_members schema < suc limit
      → (check_properties_keyword check (get "properties" schema)
          then_check check_required (get "required" schema)
          then_check check_additional (get "additionalProperties" schema))
        ≡ passes
      → IsVerdict (value_object inspect schema value path)
  unfolding value_object
  value_object-IsVerdict schema (Value.object given) path small h =
      let parts = both_pass (check_properties_keyword check (get "properties" schema)) h in
      let names = both_pass (check_required (get "required" schema)) parts.1 in
      IsVerdict-then (value_required-IsVerdict (get "required" schema) given path names.0) (
        IsVerdict-then
          (value_additional-IsVerdict (get "additionalProperties" schema)
            (as_members (get "properties" schema)) given path)
          (value_members-IsVerdict schema (get "properties" schema) given path refl parts.0 small))
  value_object-IsVerdict schema (Value.boolean b) path small h = rejected _
  value_object-IsVerdict schema (Value.text s) path small h = rejected _
  value_object-IsVerdict schema (Value.number n) path small h = rejected _
  value_object-IsVerdict schema (Value.array vs) path small h = rejected _
  value_object-IsVerdict schema Value.null path small h = rejected _

  value_array-IsVerdict :
      (schema : Members) (found : Option Value) (value : Value) (path : String)
      → get "items" schema ≡ found
      → check_items check found ≡ passes
      → size_members schema < suc limit
      → IsVerdict (value_array inspect found value path)
  unfolding value_array check_items
  value_array-IsVerdict schema (some (Value.object items)) (Value.array values) path eq h small =
      let inside = size-get "items" schema eq in
      value_elements-IsVerdict items values 0 path (prefixed_passes _ (check items) h)
        (omega (arith, size_object))
  value_array-IsVerdict schema (some (Value.object items)) (Value.boolean b) path eq h small =
      rejected _
  value_array-IsVerdict schema (some (Value.object items)) (Value.text s) path eq h small =
      rejected _
  value_array-IsVerdict schema (some (Value.object items)) (Value.number n) path eq h small =
      rejected _
  value_array-IsVerdict schema (some (Value.object items)) (Value.object fs) path eq h small =
      rejected _
  value_array-IsVerdict schema (some (Value.object items)) Value.null path eq h small = rejected _
  value_array-IsVerdict schema none value path eq h small = cc
  value_array-IsVerdict schema (some (Value.boolean b)) value path eq h small = cc
  value_array-IsVerdict schema (some (Value.text s)) value path eq h small = cc
  value_array-IsVerdict schema (some (Value.number n)) value path eq h small = cc
  value_array-IsVerdict schema (some (Value.array vs)) value path eq h small = cc
  value_array-IsVerdict schema (some Value.null) value path eq h small = cc

  -- Past the test of the root, the switch on the type name.
  type_passes :
      (schema : Members) (root : Bool) (name : String)
      → check_type_keyword check schema root (some (Value.text name)) ≡ passes
      → check_type check schema name ≡ passes
  unfolding check_type_keyword check_type
  type_passes schema false name h = h
  type_passes schema true name h = elim (Bool-cases (name === "object")) [
    | inl held ↦
        let past = rw (held, check_type_keyword, check_type) at h in rw (held, check_type) past
    | inr other ↦ let refused = rw (other, check_type_keyword) at h in cc refused
  ]

  value_named-IsVerdict :
      (schema : Members) (name : String) (value : Value) (path : String)
      → check_type check schema name ≡ passes
      → size_members schema < suc limit
      → IsVerdict (value_typed inspect schema (some (Value.text name)) value path)
  unfolding value_typed check_type
  value_named-IsVerdict schema name value path h small = elim (Bool-cases (name === "object")) [
    | inl is_object ↦
        rw (is_object, value_typed)
          (value_object-IsVerdict schema value path small (rw (is_object, check_type) at h))
    | inr no_object ↦ elim (Bool-cases (name === "array")) [
      | inl is_array ↦
          rw (no_object, is_array, value_typed)
            (value_array-IsVerdict schema (get "items" schema) value path refl
              (rw (no_object, is_array, check_type) at h) small)
      | inr no_array ↦ rw (no_object, no_array, value_typed) (value_plain-IsVerdict name value path)
    ]
  ]

  value_typed-IsVerdict :
      (schema : Members) (root : Bool) (found : Option Value) (value : Value) (path : String)
      → check_type_keyword check schema root found ≡ passes
      → size_members schema < suc limit
      → IsVerdict (value_typed inspect schema found value path)
  unfolding value_typed check_type_keyword
  value_typed-IsVerdict schema root (some (Value.text name)) value path h small =
      value_named-IsVerdict schema name value path (type_passes schema root name h) small
  value_typed-IsVerdict schema root none value path h small = cc
  value_typed-IsVerdict schema root (some (Value.boolean b)) value path h small = cc
  value_typed-IsVerdict schema root (some (Value.number n)) value path h small = cc
  value_typed-IsVerdict schema root (some (Value.array vs)) value path h small = cc
  value_typed-IsVerdict schema root (some (Value.object fs)) value path h small = cc
  value_typed-IsVerdict schema root (some Value.null) value path h small = cc

-- A value is checked to a verdict, against a schema that passed its own check.
pub validate_value-IsVerdict :
    (depth fuel : ℕ) (schema : Members) (root : Bool) (value : Value) (path : String)
    → validate_schema depth schema root ≡ passes
    → size_members schema < fuel
    → IsVerdict (validate_value fuel schema value path)
unfolding validate_schema validate_value
validate_value-IsVerdict zero fuel schema root value path h small = cc
validate_value-IsVerdict (suc depth) zero schema root value path h small = absurd (omega arith)
validate_value-IsVerdict (suc depth) (suc fuel) schema root value path h small =
    let typed = both_pass (check_keywords schema) h in
    let checked = both_pass (check_type_keyword _ schema root (get "type" schema)) typed.1 in
    IsVerdict-then (value_enum-IsVerdict (get "enum" schema) value path) (
      value_typed-IsVerdict (λ part. validate_schema depth part false) (validate_value fuel) fuel
        (λ part v p passed below. validate_value-IsVerdict depth fuel part false v p passed below)
        schema root (get "type" schema) value path checked.0 small)

-- The decoded arguments, against a schema that passed.
value-IsVerdict :
    (schema : Members) (decoded : Result Value)
    → validate_schema (suc (size_members schema)) schema true ≡ passes
    → IsVerdict (elim decoded [
      | err e ↦ fails (wrap "invalid tool arguments" e)
      | ok value ↦
          prefixed "invalid tool arguments"
            (validate_value (suc (size_members schema)) schema value "$arguments")
    ])
value-IsVerdict schema (err e) passed = rejected _
value-IsVerdict schema (ok value) passed = IsVerdict-prefixed _ (
    validate_value-IsVerdict (suc (size_members schema)) (suc (size_members schema)) schema true
      value "$arguments" passed (omega arith))

-- Whatever the two decoders give, `validate_arguments` comes to a verdict: the fuel that it takes
-- from the size of the schema is enough, and no type assertion of `validate_value` fails, since the
-- schema has passed `validate_schema`.
pub validate_arguments-IsVerdict :
    (decode_schema : String → Result Members) (decode_value : String → Result Value)
    (document arguments : String)
    → IsVerdict (validate_arguments decode_schema decode_value document arguments)
unfolding validate_arguments
validate_arguments-IsVerdict decode_schema decode_value document arguments =
    elim (Result-cases (decode_schema document)) [
      | inl (failure, eq) ↦ rw (eq, validate_arguments) (rejected _)
      | inr (schema, eq) ↦
          rw (eq, validate_arguments)
            (IsVerdict-after
              (IsVerdict-prefixed _
                (validate_schema-IsVerdict (suc (size_members schema)) schema true (omega arith)))
              (λ passed. value-IsVerdict schema (decode_value arguments) (
                prefixed_passes _ (validate_schema (suc (size_members schema)) schema true)
                  passed)))
    ]
