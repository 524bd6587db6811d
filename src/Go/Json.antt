-- ===== src/Go/Json.antt =====
-- The values of Go's `any` that come from JSON, and `json.Marshal` on them.
use Prim.Native.Char.{Char, code}
use oryxos_go.Common.{
  ℕ, suc, ◌+◌, ◌≤◌, Bool-cases, inl, inr, arith, ◌&&◌, not, String, ◌≡◌, refl, Bool, true, false,
  ◌||◌, Option, none, some, ltb, ◌==◌, ◌===◌, if◌then◌else◌,
}
use oryxos_go.Go.Text.{◌⊕◌, hex4}

-- A number keeps its text, as `json.Number` does; the fields of an object are in no order that
-- the program reads.
mutual
  pub data Value : Type 0 where
    text number : String → Value
    boolean : Bool → Value
    array : Elements → Value
    object : Members → Value
    null : Value

  pub data Elements : Type 0 where
    no_element : Elements
    element : Value → Elements → Elements

  pub data Members : Type 0 where
    no_member : Members
    member : String → Value → Members → Members

-- `m[name]` on a map, with its `ok`.
unfoldable pub get : String → Members → Option Value
get name no_member = none
get name (member key value rest) = if key === name then some value else get name rest

escape_char : Char → String
unfolding hex4
escape_char c =
    let n = code c in
    if n == 0x22
    then "\\\""
    else if n == 0x5c
    then "\\\\"
    else if n == 8
    then "\\b"
    else if n == 12
    then "\\f"
    else if n == 10
    then "\\n"
    else if n == 13
    then "\\r"
    else if n == 9
    then "\\t"
    else if ltb n 0x20 || n == 0x3c || n == 0x3e || n == 0x26 || n == 0x2028 || n == 0x2029
    then "\\u" ⊕ hex4 n
    else String.◌∷◌ c ""

escape : String → String
unfolding escape_char
escape String.[] = ""
escape (String.◌∷◌ c s) = escape_char c ⊕ escape s

-- `json.Marshal` of a string.
unfoldable pub marshal_text : String → String
unfolding escape
marshal_text s = "\"" ⊕ escape s ⊕ "\""

unfoldable mutual
  unfolding marshal_text

  pub marshal : Value → String
  marshal null = "null"
  marshal (boolean true) = "true"
  marshal (boolean false) = "false"
  marshal (number digits) = digits
  marshal (text s) = marshal_text s
  marshal (array no_element) = "[]"
  marshal (array (element v vs)) = "[" ⊕ marshal v ⊕ marshal_elements vs ⊕ "]"
  marshal (object no_member) = "{}"
  marshal (object (member k v fs)) =
      "{" ⊕ marshal_text k ⊕ ":" ⊕ marshal v ⊕ marshal_members fs ⊕ "}"

  pub marshal_elements : Elements → String
  marshal_elements no_element = ""
  marshal_elements (element v vs) = "," ⊕ marshal v ⊕ marshal_elements vs

  pub marshal_members : Members → String
  marshal_members no_member = ""
  marshal_members (member k v fs) = "," ⊕ marshal_text k ⊕ ":" ⊕ marshal v ⊕ marshal_members fs

marshal_test :
    marshal
      (object (member "a" (array (element (number "1") (element (text "<") no_element))) no_member))
    ≡ "{\"a\":[1,\"\\u003c\"]}"
unfolding marshal
marshal_test = refl

-- How many constructors a value is made of: more than any value inside it.
unfoldable mutual
  pub size : Value → ℕ
  size (array vs) = suc (size_elements vs)
  size (object fs) = suc (size_members fs)
  size (boolean b) = 1
  size (number digits) = 1
  size (text s) = 1
  size null = 1

  pub size_elements : Elements → ℕ
  size_elements no_element = 0
  size_elements (element v vs) = size v + size_elements vs

  pub size_members : Members → ℕ
  size_members no_member = 0
  size_members (member k v fs) = size v + size_members fs

-- What a map holds is smaller than the object that it makes.
pub size-get :
    (name : String) (fs : Members) {v : Value} → get name fs ≡ some v → size v ≤ size_members fs
unfolding size get
size-get name no_member h = cc
size-get name (member k v fs) {v = found} h = elim (Bool-cases (k === name)) [
  | inl here ↦
      let same : some v ≡ some found = rw (here, get) at h in
      let eq : v ≡ found = cc same in rw (← eq) (omega arith)
  | inr other ↦
      let rest : get name fs ≡ some found = rw (other, get) at h in
      omega (arith, size-get name fs rest)
]

pub size_object : (fs : Members) → size (object fs) ≡ suc (size_members fs)
unfolding size
size_object fs = refl

pub size_member :
    (k : String) (v : Value) (fs : Members)
    → size_members (member k v fs) ≡ size v + size_members fs
unfolding size
size_member k v fs = refl

abbrev found_equal : (Value → Bool) → Option Value → Bool
found_equal same none = false
found_equal same (some v) = same v

abbrev count_members : Members → ℕ
count_members no_member = 0
count_members (member k v fs) = suc (count_members fs)

unfoldable mutual
  -- `reflect.DeepEqual` on such values; the order of the entries of a map does not count.
  pub deep_equal : Value → Value → Bool
  deep_equal (array vs) (array ws) = elements_equal vs ws
  deep_equal (object fs) (object gs) = (count_members fs == count_members gs) && members_in fs gs
  deep_equal (boolean true) (boolean b) = b
  deep_equal (boolean false) (boolean b) = not b
  deep_equal (number m) (number n) = m === n
  deep_equal (text s) (text t) = s === t
  deep_equal null null = true
  deep_equal _ _ = false

  pub elements_equal : Elements → Elements → Bool
  elements_equal no_element no_element = true
  elements_equal (element v vs) (element w ws) = deep_equal v w && elements_equal vs ws
  elements_equal _ _ = false

  pub members_in : Members → Members → Bool
  members_in no_member gs = true
  members_in (member k v fs) gs = found_equal (deep_equal v) (get k gs) && members_in fs gs
