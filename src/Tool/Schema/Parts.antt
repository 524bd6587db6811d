-- ===== src/Tool/Schema/Parts.antt =====
-- internal/tool/schema.go: the steps of `validateValue` that make no recursive call.
use oryxos_go.Tool.Schema.{
  Check, passes, check_names, check_required, value_enum, any_equal, value_names, value_required,
  value_declared, value_additional, value_plain, has, expect, is_text, is_number, is_integer,
  is_boolean, is_null,
}
use oryxos_go.Go.Json.{Value, Elements, Members}
use oryxos_go.Common.{
  ◌≡◌, String, Option, none, some, Bool, true, false, Bool-cases, inl, inr, ◌===◌, if◌then◌else◌,
}
use oryxos_go.Tool.Schema.Verdict.{IsVerdict, accepted, rejected}

pub value_enum-IsVerdict :
    (choices : Option Value) (value : Value) (path : String)
    → IsVerdict (value_enum choices value path)
unfolding value_enum
value_enum-IsVerdict (some (Value.array choices)) value path =
    elim (Bool-cases (any_equal choices value)) [
      | inl held ↦ rw (held, value_enum) accepted
      | inr other ↦ rw (other, value_enum) (rejected _)
    ]
value_enum-IsVerdict none value path = accepted
value_enum-IsVerdict (some (Value.boolean b)) value path = accepted
value_enum-IsVerdict (some (Value.text s)) value path = accepted
value_enum-IsVerdict (some (Value.number n)) value path = accepted
value_enum-IsVerdict (some (Value.object fs)) value path = accepted
value_enum-IsVerdict (some Value.null) value path = accepted

-- The names of a checked schema's `required` are texts.
value_names-IsVerdict :
    (names : Elements) (given : Members) (path : String)
    → check_names names ≡ passes
    → IsVerdict (value_names names given path)
unfolding value_names check_names
value_names-IsVerdict Elements.no_element given path h = accepted
value_names-IsVerdict (Elements.element (Value.text name) rest) given path h =
    elim (Bool-cases (has name given)) [
      | inl held ↦ rw (held, value_names) (value_names-IsVerdict rest given path h)
      | inr other ↦ rw (other, value_names) (rejected _)
    ]
value_names-IsVerdict (Elements.element (Value.number n) rest) given path h = cc
value_names-IsVerdict (Elements.element (Value.boolean b) rest) given path h = cc
value_names-IsVerdict (Elements.element (Value.array vs) rest) given path h = cc
value_names-IsVerdict (Elements.element (Value.object fs) rest) given path h = cc
value_names-IsVerdict (Elements.element Value.null rest) given path h = cc

pub value_required-IsVerdict :
    (required : Option Value) (given : Members) (path : String)
    → check_required required ≡ passes
    → IsVerdict (value_required required given path)
unfolding value_required check_required
value_required-IsVerdict (some (Value.array names)) given path h =
    value_names-IsVerdict names given path h
value_required-IsVerdict none given path h = accepted
value_required-IsVerdict (some (Value.boolean b)) given path h = accepted
value_required-IsVerdict (some (Value.text s)) given path h = accepted
value_required-IsVerdict (some (Value.number n)) given path h = accepted
value_required-IsVerdict (some (Value.object fs)) given path h = accepted
value_required-IsVerdict (some Value.null) given path h = accepted

value_declared-IsVerdict :
    (properties given : Members) (path : String) → IsVerdict (value_declared properties given path)
unfolding value_declared
value_declared-IsVerdict properties Members.no_member path = accepted
value_declared-IsVerdict properties (Members.member name value rest) path =
    elim (Bool-cases (has name properties)) [
      | inl held ↦ rw (held, value_declared) (value_declared-IsVerdict properties rest path)
      | inr other ↦ rw (other, value_declared) (rejected _)
    ]

pub value_additional-IsVerdict :
    (additional : Option Value) (properties given : Members) (path : String)
    → IsVerdict (value_additional additional properties given path)
unfolding value_additional
value_additional-IsVerdict (some (Value.boolean false)) properties given path =
    value_declared-IsVerdict properties given path
value_additional-IsVerdict (some (Value.boolean true)) properties given path = accepted
value_additional-IsVerdict none properties given path = accepted
value_additional-IsVerdict (some (Value.array vs)) properties given path = accepted
value_additional-IsVerdict (some (Value.text s)) properties given path = accepted
value_additional-IsVerdict (some (Value.number n)) properties given path = accepted
value_additional-IsVerdict (some (Value.object fs)) properties given path = accepted
value_additional-IsVerdict (some Value.null) properties given path = accepted

expect-IsVerdict : (fits : Bool) (path kind : String) → IsVerdict (expect fits path kind)
expect-IsVerdict true path kind = accepted
expect-IsVerdict false path kind = rejected _

if_lem : (b : Bool) {x y : Check} → IsVerdict x → IsVerdict y → IsVerdict (if b then x else y)
if_lem true x y = x
if_lem false x y = y

pub value_plain-IsVerdict :
    (name : String) (value : Value) (path : String) → IsVerdict (value_plain name value path)
unfolding value_plain
value_plain-IsVerdict name value path =
    if_lem (name === "string") (expect-IsVerdict (is_text value) path "a string") (
      if_lem (name === "number") (expect-IsVerdict (is_number value) path "a number") (
        if_lem (name === "integer") (expect-IsVerdict (is_integer value) path "an integer") (
          if_lem (name === "boolean") (expect-IsVerdict (is_boolean value) path "a boolean")
            (if_lem (name === "null") (expect-IsVerdict (is_null value) path "null") accepted))))
