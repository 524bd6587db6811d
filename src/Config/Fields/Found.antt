-- ===== src/Config/Fields/Found.antt =====
-- internal/config/load.go: which field `findMappingField` finds. It goes from a mapping into the values of
-- its fields that are mappings, and not into sequences: a field of a provider is not found.
use Prim.Native.Char.{Char}
use Prim.Native.String.append.{cons}
use mathlib.Core.Path.{subst}
use oryxos_go.Config.Fields.{find_yaml_field_path, find_mapping_field, find_field_in_pairs}
use oryxos_go.Go.Scan.{is_empty_text}
use oryxos_go.Common.{
  ℕ, append-nil, append_assoc, if_elim, if◌then◌else◌, eq_iff, ◌===◌, ===_self, All, All-append,
  ===_ne, ◌≡◌, ◌≢◌, refl, sym, ap, String, List, [], ◌∷◌, ◌++◌, false, ◌===◌, All, append_assoc,
}
use oryxos_go.Go.Text.{join, ◌⊕◌}
use oryxos_go.Config.{
  node, Nodes, Node, absent, document, sequence, mapping, scalar, alias, Pairs, no_pair, pair,
  node_value, config_path,
}

unfoldable pub IsNamed : String → Type 0
IsNamed name = (name === "") ≡ false

abbrev pub pairs_of : Node → Pairs
pairs_of (mapping line pairs) = pairs
pairs_of _ = no_pair

unfoldable mutual
  -- No key of the mappings in the mapping is empty.
  pub HasNamedKeys : Node → Type 0
  HasNamedKeys (mapping line pairs) = HaveNamedKeys pairs
  HasNamedKeys absent = Unit
  HasNamedKeys (document nodes) = Unit
  HasNamedKeys (sequence line nodes) = Unit
  HasNamedKeys (scalar line tag value) = Unit
  HasNamedKeys (alias line value) = Unit

  pub HaveNamedKeys : Pairs → Type 0
  HaveNamedKeys no_pair = Unit
  HaveNamedKeys (pair key value pairs) =
      IsNamed (node_value key) × HasNamedKeys value × HaveNamedKeys pairs

-- The key and the value of a field of a mapping, or of one that is reached from it through values that
-- are mappings; the names lead to it.
pub data IsField : Pairs → List String → Node → Node → Type 0 where
  here : (key value : Node) (pairs : Pairs) → IsField (pair key value pairs) [] key value
  later :
      (key value : Node) (pairs : Pairs) (names : List String) (key' value' : Node)
      → IsField pairs names key' value'
      → IsField (pair key value pairs) names key' value'
  below :
      (key value : Node) (pairs : Pairs) (names : List String) (key' value' : Node)
      → IsField (pairs_of value) names key' value'
      → IsField (pair key value pairs) (node_value key ∷ names) key' value'

-- The outcome of the search for a field in a mapping at a path.
pub data IsFound (pairs : Pairs) (path : List String) (field : String)
    : String × String → Type 0 where
  found :
      (names : List String) (key value : Node)
      → IsField pairs names key value
      → node_value key ≡ field
      → IsFound pairs path field (config_path (path ++ names), node_value key)
  missing :
      ((names : List String) (key value : Node)
        → IsField pairs names key value
        → node_value key ≢ field)
      → IsFound pairs path field ("", field)

cons-IsNamed : (c : Char) (s : String) → IsNamed (String.◌∷◌ c s)
unfolding IsNamed
cons-IsNamed c s = ===_ne {s = String.◌∷◌ c s} {t = ""} (λ e. cc (ap is_empty_text e))

append-IsNamed : (s t : String) → IsNamed s → IsNamed (s ⊕ t)
unfolding IsNamed
append-IsNamed String.[] t h = cc
append-IsNamed (String.◌∷◌ c s) t h =
    subst IsNamed (sym (λ i. cons c s t i)) (cons-IsNamed c (s ⊕ t))

join-IsNamed :
    (name : String) (names : List String) → IsNamed name → IsNamed (join (name ∷ names) ".")
unfolding join
join-IsNamed name [] h = h
join-IsNamed name (other ∷ names) h = append-IsNamed name _ h

config_path-IsNamed : (path : List String) → All IsNamed path → IsNamed (config_path path)
unfolding config_path IsNamed
config_path-IsNamed [] h = refl
config_path-IsNamed (name ∷ names) (named, rest) = join-IsNamed name names named

pairs_of-named : (value : Node) → HasNamedKeys value → HaveNamedKeys (pairs_of value)
unfolding HasNamedKeys
pairs_of-named (mapping line pairs) h = h
pairs_of-named absent h = tt
pairs_of-named (document nodes) h = tt
pairs_of-named (sequence line nodes) h = tt
pairs_of-named (scalar line tag value) h = tt
pairs_of-named (alias line value) h = tt

-- The names that lead to a field are keys.
names-IsNamed :
    (pairs : Pairs) (names : List String) (key value : Node)
    → HaveNamedKeys pairs
    → IsField pairs names key value
    → All IsNamed names
unfolding HaveNamedKeys
names-IsNamed _ _ _ _ h (here key value pairs) = tt
names-IsNamed _ _ _ _ h (later key value pairs names key' value' at) =
    names-IsNamed pairs names key' value' h.2 at
names-IsNamed _ _ _ _ h (below key value pairs names key' value' at) =
    (h.0, names-IsNamed (pairs_of value) names key' value' (pairs_of-named value h.1) at)

-- What was found in a mapping below is found in the mapping.
IsFound-below :
    (key value : Node) (pairs : Pairs) (path names : List String) (field : String)
    (key' value' : Node)
    → IsField (pairs_of value) names key' value'
    → node_value key' ≡ field
    → IsFound
        (pair key value pairs)
        path
        field
        (config_path ((path ++ node_value key ∷ []) ++ names), node_value key')
IsFound-below key value pairs path names field key' value' at same =
    subst
      (λ (whole : List String).
        IsFound (pair key value pairs) path field (config_path whole, node_value key'))
      (sym (append_assoc path (node_value key ∷ []) names))
      (found (node_value key ∷ names) key' value' (below key value pairs names key' value' at) same)

IsFound-later :
    (key value : Node) (pairs : Pairs) (path : List String) (field : String) (out : String × String)
    → node_value key ≢ field
    → ((names : List String) (key' value' : Node)
        → IsField (pairs_of value) names key' value'
        → node_value key' ≢ field)
    → IsFound pairs path field out
    → IsFound (pair key value pairs) path field out
IsFound-later key value pairs path field _ other none_below (found names key' value' at same) =
    found names key' value' (later key value pairs names key' value' at) same
IsFound-later key value pairs path field _ other none_below (missing none_later) =
    missing (λ names key' value' at. elim_field names key' value' at)
  where
    elim_field :
        (names : List String) (key' value' : Node)
        → IsField (pair key value pairs) names key' value'
        → node_value key' ≢ field
    elim_field _ _ _ (here _ _ _) = other
    elim_field _ _ _ (later _ _ _ names key' value' at) = none_later names key' value' at
    elim_field _ _ _ (below _ _ _ names key' value' at) = none_below names key' value' at

IsFound-here :
    (key value : Node) (pairs : Pairs) (path : List String) (field : String)
    → node_value key ≡ field
    → IsFound (pair key value pairs) path field (config_path path, node_value key)
IsFound-here key value pairs path field same =
    subst
      (λ (whole : List String).
        IsFound (pair key value pairs) path field (config_path whole, node_value key))
      (append-nil path) (found [] key value (here key value pairs) same)

none_in_none :
    {field : String} (names : List String) (key value : Node)
    → IsField no_pair names key value
    → node_value key ≢ field
none_in_none names key value at = elim at [ ]

-- A field that is not this key is found below it or after it.
IsFound-pair :
    (key value : Node) (pairs : Pairs) (path : List String) (field : String)
    (nested rest : String × String)
    → All IsNamed path
    → IsNamed (node_value key)
    → IsFound (pairs_of value) (path ++ node_value key ∷ []) field nested
    → HasNamedKeys value
    → IsFound pairs path field rest
    → node_value key ≢ field
    → IsFound (pair key value pairs) path field (if nested.0 === "" then rest else nested)
unfolding IsNamed
IsFound-pair key value pairs path field _ rest named here_named (found names key' value' at same)
      below_named after other =
    let nested_named = config_path-IsNamed ((path ++ node_value key ∷ []) ++ names) (
      All-append IsNamed (path ++ node_value key ∷ []) names
        (All-append IsNamed path (node_value key ∷ []) named (here_named, tt))
        (names-IsNamed (pairs_of value) names key' value' (pairs_of-named value below_named) at)) in
    rw nested_named (IsFound-below key value pairs path names field key' value' at same)
IsFound-pair key value pairs path field _ rest named here_named (missing none_below) below_named
      after other =
    IsFound-later key value pairs path field rest other none_below after

mutual
  unfolding find_mapping_field find_field_in_pairs HasNamedKeys HaveNamedKeys

  find_mapping_field-IsFound :
      (n : Node) (path : List String) (field : String)
      → HasNamedKeys n
      → All IsNamed path
      → IsFound (pairs_of n) path field (find_mapping_field n path field)
  find_mapping_field-IsFound (mapping line pairs) path field h named =
      find_field_in_pairs-IsFound pairs path field h named
  find_mapping_field-IsFound absent path field h named = missing none_in_none
  find_mapping_field-IsFound (document nodes) path field h named = missing none_in_none
  find_mapping_field-IsFound (sequence line nodes) path field h named = missing none_in_none
  find_mapping_field-IsFound (scalar line tag value) path field h named = missing none_in_none
  find_mapping_field-IsFound (alias line value) path field h named = missing none_in_none

  find_field_in_pairs-IsFound :
      (pairs : Pairs) (path : List String) (field : String)
      → HaveNamedKeys pairs
      → All IsNamed path
      → IsFound pairs path field (find_field_in_pairs pairs path field)
  find_field_in_pairs-IsFound no_pair path field h named = missing none_in_none
  find_field_in_pairs-IsFound (pair key value pairs) path field
        (here_named, below_named, rest_named) named =
      let nested =
        find_mapping_field-IsFound value (path ++ node_value key ∷ []) field below_named
          (All-append IsNamed path (node_value key ∷ []) named (here_named, tt)) in
      let rest = find_field_in_pairs-IsFound pairs path field rest_named named in
      if_elim (IsFound (pair key value pairs) path field) (node_value key === field) _ _
        (λ h. IsFound-here key value pairs path field ((eq_iff (node_value key) field).0 h))
        (λ h.
          IsFound-pair key value pairs path field _ _ named here_named nested below_named rest
            (λ e. cc (===_self field, ap (λ (k : String). k === field) e, h)))

-- In a document whose keys are not empty and whose root is a mapping, the search for the field that the
-- YAML decoder does not know looks at the root and at the mappings that are reached from it through
-- values that are mappings, not at those in sequences. Either the path in the answer is that of one of
-- these mappings, and it has the field; or the answer has no path, and none of them has the field.
pub find_yaml_field_path-IsFound :
    (line : ℕ) (pairs : Pairs) (nodes : Nodes) (field : String)
    → HaveNamedKeys pairs
    → IsFound pairs [] field
        (find_yaml_field_path (document (node (mapping line pairs) nodes)) field)
unfolding find_yaml_field_path find_mapping_field
find_yaml_field_path-IsFound line pairs nodes field h =
    find_field_in_pairs-IsFound pairs [] field h tt
