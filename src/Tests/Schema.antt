-- ===== src/Tests/Schema.antt =====
-- A schema with one required integer, and two decoders that answer for the documents below only.
use oryxos_go.Common.{String, ◌≡◌, refl, false, ◌===◌, if◌then◌else◌}
use oryxos_go.Go.Error.{leaf, wrap}
use oryxos_go.Go.Effect.{Result, ok, err}
use oryxos_go.Go.Json.{Value, Elements, Members}
use oryxos_go.Tool.Schema.{fails, passes, validate_arguments}
use oryxos_go.Tool.Schema.Verdict.{IsVerdict}
use oryxos_go.Tool.Schema.Total.{validate_arguments-IsVerdict}

abbrev field : String → Value → Members → Members
field = Members.member

abbrev count_schema : Members
count_schema = field "type" (Value.text "object") (
    field "properties"
      (Value.object (
        field "count" (Value.object (field "type" (Value.text "integer") Members.no_member))
          Members.no_member))
      (field "required" (Value.array (Elements.element (Value.text "count") Elements.no_element))
        (field "additionalProperties" (Value.boolean false) Members.no_member)))

abbrev decode_schema : String → Result Members
decode_schema document = if document === "{}" then err (leaf "type") else ok count_schema

abbrev decode_value : String → Result Value
decode_value arguments =
    if arguments === "{}"
    then ok (Value.object Members.no_member)
    else ok (Value.object (field "count" (Value.number arguments) Members.no_member))

validate_arguments-IsVerdict_example :
    IsVerdict (validate_arguments decode_schema decode_value "count" "12")
validate_arguments-IsVerdict_example =
    validate_arguments-IsVerdict decode_schema decode_value "count" "12"

accepts_integer : validate_arguments decode_schema decode_value "count" "-12" ≡ passes
unfolding validate_arguments
accepts_integer = refl

refuses_fraction :
    validate_arguments decode_schema decode_value "count" "1.5"
    ≡ fails (wrap "invalid tool arguments" (leaf "$arguments.count must be an integer"))
unfolding validate_arguments
refuses_fraction = refl

refuses_absent :
    validate_arguments decode_schema decode_value "count" "{}"
    ≡ fails (wrap "invalid tool arguments" (leaf "$arguments.count is required"))
unfolding validate_arguments
refuses_absent = refl
