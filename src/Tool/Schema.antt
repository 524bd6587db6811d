-- ===== src/Tool/Schema.antt =====
-- internal/tool/schema.go: the subset of JSON Schema that a tool may use, and the check of the
-- arguments of a call. A failed type assertion is a panic. The order in which Go visits the entries
-- of a map is that of the list here. Decoding (`decodeOneJSON`) is a parameter.
pub mod Verdict
mod Parts
pub mod Total
use Prim.Native.Char.{code}
use oryxos_go.Common.{
  ℕ, zero, suc, ◌+◌, ◌-◌, ◌*◌, ◌^◌, String, Option, none, some, Bool, true, false, ◌&&◌, ◌||◌, not,
  leb, ltb, ◌==◌, ◌===◌, if◌then◌else◌,
}
use oryxos_go.Go.Text.{◌⊕◌, quote, itoa}
use oryxos_go.Go.Error.{Error, leaf, wrap}
use oryxos_go.Go.Effect.{Result, ok, err}
use oryxos_go.Go.Json.{Value, Elements, Members, get, deep_equal, size_members, size}

-- The outcomes of a check. `out_of_fuel` is the model's: the recursion into a schema has no bound.
pub data Check : Type 0 where
  passes : Check
  fails : Error → Check
  panics : Check
  out_of_fuel : Check

infixr 5 ◌then_check◌
-- The next check, where this one passes.
abbrev pub ◌then_check◌ : Check → Check → Check
◌then_check◌ passes next = next
◌then_check◌ (fails e) next = fails e
◌then_check◌ panics next = panics
◌then_check◌ out_of_fuel next = out_of_fuel

-- `fmt.Errorf("prefix: %w", err)`
abbrev pub prefixed : String → Check → Check
prefixed prefix (fails e) = fails (wrap prefix e)
prefixed prefix passes = passes
prefixed prefix panics = panics
prefixed prefix out_of_fuel = out_of_fuel

abbrev pub failure : String → Check
failure text = fails (leaf text)

-- `supportedSchemaKeywords`
pub supported_keyword : String → Bool
supported_keyword keyword =
    keyword === "type"
    || keyword === "properties"
    || keyword === "required"
    || keyword === "additionalProperties"
    || keyword === "items"
    || keyword === "enum"

pub check_keywords : Members → Check
unfolding supported_keyword
check_keywords Members.no_member = passes
check_keywords (Members.member keyword value rest) =
    if supported_keyword keyword
    then check_keywords rest
    else failure ("unsupported keyword " ⊕ quote keyword)

-- The loop over the properties; `check` is the recursive call.
pub check_properties : (Members → Check) → Members → Check
check_properties check Members.no_member = passes
check_properties check (Members.member name (Value.object property) rest) =
    prefixed ("property " ⊕ quote name) (check property) then_check check_properties check rest
check_properties check (Members.member name _ rest) =
    failure ("property " ⊕ quote name ⊕ " must be a schema object")

pub check_properties_keyword : (Members → Check) → Option Value → Check
unfolding check_properties
check_properties_keyword check none = passes
check_properties_keyword check (some (Value.object properties)) = check_properties check properties
check_properties_keyword check (some _) = failure "properties must be an object"

pub check_names : Elements → Check
check_names Elements.no_element = passes
check_names (Elements.element (Value.text name) rest) = check_names rest
check_names (Elements.element _ rest) = failure "required values must be strings"

pub check_required : Option Value → Check
unfolding check_names
check_required none = passes
check_required (some (Value.array names)) = check_names names
check_required (some _) = failure "required must be an array"

pub check_additional : Option Value → Check
check_additional none = passes
check_additional (some (Value.boolean false)) = passes
check_additional (some _) = failure "additionalProperties only supports false"

pub check_items : (Members → Check) → Option Value → Check
check_items check none = failure "array items schema is required"
check_items check (some (Value.object items)) = prefixed "items" (check items)
check_items check (some _) = failure "items must be a schema object"

pub check_enum : Option Value → Check
check_enum none = passes
check_enum (some (Value.array choices)) = passes
check_enum (some _) = failure "enum must be an array"

-- The names of the types without parts.
abbrev pub plain_type : String → Bool
plain_type name =
    name === "string"
    || name === "number"
    || name === "integer"
    || name === "boolean"
    || name === "null"

-- The switch on the type name.
pub check_type : (Members → Check) → Members → String → Check
unfolding check_properties_keyword check_required check_additional check_items
check_type check schema name =
    if name === "object"
    then check_properties_keyword check (get "properties" schema)
      then_check check_required (get "required" schema)
      then_check check_additional (get "additionalProperties" schema)
    else if name === "array"
    then check_items check (get "items" schema)
    else if plain_type name
    then passes
    else failure ("unsupported type " ⊕ quote name)

pub check_type_keyword : (Members → Check) → Members → Bool → Option Value → Check
unfolding check_type
check_type_keyword check schema root (some (Value.text name)) =
    if root && not (name === "object")
    then failure "root type must be object"
    else check_type check schema name
check_type_keyword check schema root _ = failure "type must be a string"

-- `validateSchema`
unfoldable pub validate_schema : ℕ → Members → Bool → Check
unfolding check_keywords check_type_keyword check_enum get
validate_schema zero schema root = out_of_fuel
validate_schema (suc fuel) schema root =
    check_keywords schema
    then_check check_type_keyword (λ part. validate_schema fuel part false) schema root
        (get "type" schema)
    then_check check_enum (get "enum" schema)

digits_below : ℕ → ℕ → Bool → String → Bool
digits_below most n seen String.[] = seen && leb n most
digits_below most n seen (String.◌∷◌ c s) =
    leb b'0' (code c) && leb (code c) b'9' && digits_below most (n * 10 + (code c - b'0')) true s

-- Whether `json.Number.Int64` succeeds: `strconv.ParseInt` in base 10 and 64 bits.
pub is_int64 : String → Bool
unfolding digits_below
is_int64 String.[] = false
is_int64 (String.◌∷◌ c s) =
    if code c == b'-'
    then digits_below (2 ^ 63) 0 false s
    else if code c == b'+'
    then digits_below (2 ^ 63 - 1) 0 false s
    else digits_below (2 ^ 63 - 1) 0 false (String.◌∷◌ c s)

pub any_equal : Elements → Value → Bool
unfolding deep_equal
any_equal Elements.no_element value = false
any_equal (Elements.element choice rest) value = deep_equal choice value || any_equal rest value

pub value_enum : Option Value → Value → String → Check
unfolding any_equal
value_enum (some (Value.array choices)) value path =
    if any_equal choices value then passes else failure (path ⊕ " is not an allowed enum value")
value_enum _ value path = passes

abbrev pub has : String → Members → Bool
has name given = elim (get name given) [ none ↦ false | some v ↦ true ]

-- The loop over `required`, whose entries are asserted to be strings.
pub value_names : Elements → Members → String → Check
value_names Elements.no_element given path = passes
value_names (Elements.element (Value.text name) rest) given path =
    if has name given
    then value_names rest given path
    else failure (path ⊕ "." ⊕ name ⊕ " is required")
value_names (Elements.element _ rest) given path = panics

pub value_required : Option Value → Members → String → Check
unfolding value_names
value_required (some (Value.array names)) given path = value_names names given path
value_required _ given path = passes

-- Every name of `given` is declared.
pub value_declared : Members → Members → String → Check
value_declared properties Members.no_member path = passes
value_declared properties (Members.member name value rest) path =
    if has name properties
    then value_declared properties rest path
    else failure (path ⊕ "." ⊕ name ⊕ " is not allowed")

pub value_additional : Option Value → Members → Members → String → Check
unfolding value_declared
value_additional (some (Value.boolean false)) properties given path =
    value_declared properties given path
value_additional _ properties given path = passes

-- A property of the object: its schema is asserted to be an object.
pub value_property : (Members → Value → String → Check) → Value → Option Value → String → Check
value_property check schema none path = passes
value_property check (Value.object schema) (some value) path = check schema value path
value_property check _ (some value) path = panics

pub value_properties : (Members → Value → String → Check) → Members → Members → String → Check
unfolding value_property
value_properties check Members.no_member given path = passes
value_properties check (Members.member name schema rest) given path =
    value_property check schema (get name given) (path ⊕ "." ⊕ name)
    then_check value_properties check rest given path

-- `schema["properties"].(map[string]any)`, nil where that is none.
abbrev pub as_members : Option Value → Members
as_members (some (Value.object properties)) = properties
as_members _ = Members.no_member

pub value_object : (Members → Value → String → Check) → Members → Value → String → Check
unfolding value_required value_additional value_properties
value_object check schema (Value.object given) path =
    value_required (get "required" schema) given path
    then_check value_additional (get "additionalProperties" schema)
        (as_members (get "properties" schema)) given path
    then_check value_properties check (as_members (get "properties" schema)) given path
value_object check schema _ path = failure (path ⊕ " must be an object")

pub value_elements : (Members → Value → String → Check) → Members → Elements → ℕ → String → Check
value_elements check items Elements.no_element index path = passes
value_elements check items (Elements.element value rest) index path =
    check items value (path ⊕ "[" ⊕ itoa index ⊕ "]")
    then_check value_elements check items rest (suc index) path

pub value_array : (Members → Value → String → Check) → Option Value → Value → String → Check
unfolding value_elements
value_array check (some (Value.object items)) (Value.array values) path =
    value_elements check items values 0 path
value_array check _ (Value.array values) path = panics
value_array check _ _ path = failure (path ⊕ " must be an array")

-- The type assertions of the cases without parts.
abbrev pub is_text : Value → Bool
is_text (Value.text s) = true
is_text _ = false

abbrev pub is_number : Value → Bool
is_number (Value.number digits) = true
is_number _ = false

abbrev pub is_integer : Value → Bool
is_integer (Value.number digits) = is_int64 digits
is_integer _ = false

abbrev pub is_boolean : Value → Bool
is_boolean (Value.boolean b) = true
is_boolean _ = false

abbrev pub is_null : Value → Bool
is_null Value.null = true
is_null _ = false

abbrev pub expect : Bool → String → String → Check
expect fits path kind = if fits then passes else failure (path ⊕ " must be " ⊕ kind)

-- The cases of the switch for the types without parts.
pub value_plain : String → Value → String → Check
unfolding is_int64
value_plain name value path =
    if name === "string"
    then expect (is_text value) path "a string"
    else if name === "number"
    then expect (is_number value) path "a number"
    else if name === "integer"
    then expect (is_integer value) path "an integer"
    else if name === "boolean"
    then expect (is_boolean value) path "a boolean"
    else if name === "null"
    then expect (is_null value) path "null"
    else passes

-- The switch of `validateValue`; the type is asserted to be a string.
pub value_typed :
    (Members → Value → String → Check) → Members → Option Value → Value → String → Check
unfolding value_object value_array value_plain
value_typed check schema (some (Value.text name)) value path =
    if name === "object"
    then value_object check schema value path
    else if name === "array"
    then value_array check (get "items" schema) value path
    else value_plain name value path
value_typed check schema _ value path = panics

-- `validateValue`
unfoldable pub validate_value : ℕ → Members → Value → String → Check
unfolding value_enum value_typed get
validate_value zero schema value path = out_of_fuel
validate_value (suc fuel) schema value path =
    value_enum (get "enum" schema) value path
    then_check value_typed (validate_value fuel) schema (get "type" schema) value path

-- `validateArguments`; `decode_schema` and `decode_value` are `decodeOneJSON` at its two types.
unfoldable pub validate_arguments :
    (String → Result Members) → (String → Result Value) → String → String → Check
unfolding validate_schema validate_value size
validate_arguments decode_schema decode_value document arguments = elim (decode_schema document) [
  | err e ↦ fails (wrap "invalid tool schema" e)
  | ok schema ↦
      prefixed "invalid tool schema" (validate_schema (suc (size_members schema)) schema true)
      then_check elim (decode_value arguments) [
        | err e ↦ fails (wrap "invalid tool arguments" e)
        | ok value ↦
            prefixed "invalid tool arguments"
              (validate_value (suc (size_members schema)) schema value "$arguments")
      ]
]
