-- ===== src/Profile/Loader.antt =====
-- internal/profile/loader.go: a directory of YAML files becomes a registry. Reading, the YAML decoder
-- and the environment are parameters.
pub mod Index
pub mod Snapshot
use Prim.Native.Char.{Char, code}
use oryxos_go.Common.{
  ℕ, zero, suc, ◌+◌, String, Option, none, some, List, [], ◌∷◌, ◌++◌, Bool, true, false, ◌&&◌, ◌||◌,
  not, ◌==◌, ◌===◌, if◌then◌else◌, lookup, insert, is_some, ◌≡◌, refl,
}
use oryxos_go.Go.Text.{◌⊕◌, quote, base}
use oryxos_go.Go.Scan.{
  strip_prefix, span, is_letter, is_digit, is_empty_text, rune_count, extension, lower_equals,
  sort_texts,
}
use oryxos_go.Go.Error.{Error, Redaction, Sentinel, leaf, wrap, message, is}
use oryxos_go.Go.Effect.{Result, ok, err, Exec, Eff, annotate, ◌>>=◌}
use oryxos_go.Profile.{Profile, RawProfile}
use oryxos_go.Profile.Validate.{validate_profile}
use oryxos_go.Profile.Registry.{ProfileRegistry, new_registry}

-- os.DirEntry
pub record DirEntry : Type 0 where
  pub name : String
  pub is_dir : Bool

-- `decode` is the first call of `Decode` on a document, `decode_next` the error of the second.
-- `join_path` is `filepath.Join`.
pub record Files (W : Type 0) : Type 0 where
  pub read_dir : String → Exec W (List DirEntry)
  pub read_file : String → Exec W String
  pub join_path : String → String → String
  pub look_up : String → Option String
  pub decode : String → Result RawProfile
  pub decode_next : String → Option Error

pub record Diagnostic : Type 0 where
  pub path : String
  pub cause : Option Error

-- `Diagnostic.Error`
unfoldable pub diagnostic_text : Redaction → Diagnostic → String
unfolding base message
diagnostic_text redaction diagnostic =
    "profile "
    ⊕ base diagnostic.path
    ⊕ ": "
    ⊕ elim diagnostic.cause [ none ↦ "invalid profile" | some e ↦ redaction.sanitize (message e) ]

abbrev is_word : ℕ → Bool
is_word c = is_letter c || is_digit c || c == b'_'

abbrev starts_name : String → Bool
starts_name String.[] = false
starts_name (String.◌∷◌ c s) = not (is_digit (code c))

abbrev closes : String → Bool
closes String.[] = false
closes (String.◌∷◌ c s) = code c == b'}'

abbrev name_of : Option String → Option String
unfolding span
name_of none = none
name_of (some s) =
    let (name, rest) = span is_word s in if starts_name name && closes rest then some name else none

-- `environmentPlaceholder` where it matches at the beginning of a text: the name in it.
unfoldable pub placeholder : String → Option String
unfolding name_of strip_prefix
placeholder s = name_of (strip_prefix "${" s)

abbrev pub put_before : String → Result String → Result String
put_before s (ok rest) = ok (s ⊕ rest)
put_before s (err e) = err e

-- `expandEnvironment` from a place on; the first number counts the characters of a placeholder that
-- are still to be passed over.
unfoldable pub expand_from : (String → Option String) → ℕ → String → Result String
unfolding placeholder
expand_from look_up skip String.[] = ok ""
expand_from look_up (suc skip) (String.◌∷◌ c s) = expand_from look_up skip s
expand_from look_up zero (String.◌∷◌ c s) = elim (placeholder (String.◌∷◌ c s)) [
  | none ↦ put_before (String.◌∷◌ c "") (expand_from look_up zero s)
  | some name ↦ elim (look_up name) [
    | none ↦ err (leaf ("environment variable " ⊕ name ⊕ " is not set"))
    | some value ↦ put_before value (expand_from look_up (rune_count name + 2) s)
  ]
]

-- `expandEnvironment`
unfoldable pub expand_environment : (String → Option String) → String → Result String
unfolding expand_from
expand_environment look_up text = expand_from look_up 0 text

abbrev field_of : Option String → Option String
unfolding span strip_prefix
field_of none = none
field_of (some s) =
    let (run, rest) = span (λ c. not (c == b' ')) s in
    if not (is_empty_text run) && is_some (strip_prefix " not found" rest) then some run else none

-- `unknownYAMLField.FindStringSubmatch`: the field of the first match.
unfoldable pub unknown_yaml_field : String → Option String
unfolding field_of strip_prefix
unknown_yaml_field String.[] = none
unknown_yaml_field (String.◌∷◌ c s) =
    let later = unknown_yaml_field s in
    elim (field_of (strip_prefix "field " (String.◌∷◌ c s))) [
      | none ↦ later
      | some field ↦ some field
    ]

-- The error of the first `Decode`.
unfoldable pub decode_error : Redaction → Error → Error
unfolding unknown_yaml_field message
decode_error redaction e = elim (unknown_yaml_field (message e)) [
  | some field ↦ leaf ("unknown field " ⊕ quote field)
  | none ↦ leaf ("strict YAML decode: " ⊕ redaction.sanitize (message e))
]

-- After the second `Decode`.
pub one_document : RawProfile → List String → Option Error → Result Profile
unfolding validate_profile is
one_document raw declared none = err (leaf "must contain exactly one YAML document")
one_document raw declared (some e) =
    if is e Sentinel.eof then validate_profile raw declared else err (wrap "decode trailing YAML" e)

-- The variables of the loop of `LoadDirectory`.
pub record Loading : Type 0 where
  pub profiles : List (String × Profile)
  pub names : List String
  pub diagnostics : List Diagnostic

abbrev pub no_profiles : Loading
no_profiles = record { profiles = []; names = []; diagnostics = [] }

-- The loop over the entries of the directory.
pub yaml_paths : (String → String) → List DirEntry → List String
unfolding extension lower_equals
yaml_paths join_path [] = []
yaml_paths join_path (entry ∷ entries) =
    let rest = yaml_paths join_path entries in
    if entry.is_dir
    then rest
    else if lower_equals (extension entry.name) ".yaml"
        || lower_equals (extension entry.name) ".yml"
    then join_path entry.name ∷ rest
    else rest

module _ {W : Type 0} (redaction : Redaction) (files : Files W) (declared : List String) where
  pub decoded : String → Result RawProfile → Result Profile
  unfolding one_document decode_error
  decoded text (err e) = err (decode_error redaction e)
  decoded text (ok raw) = one_document raw declared (files.decode_next text)

  -- `loadFile` after the read.
  pub load_text : Result String → Result Profile
  unfolding decoded
  load_text (err e) = err e
  load_text (ok text) = decoded text (files.decode text)

  pub read_text : Result String → Result Profile
  unfolding load_text expand_environment
  read_text (err e) = err (wrap "read" e)
  read_text (ok text) = load_text (expand_environment files.look_up text)

  -- `loadFile`
  pub load_file : String → Exec W Profile
  unfolding read_text
  load_file path w = let (found, w') = files.read_file path w in (read_text found, w')

  -- One round of the loop of `LoadDirectory`.
  pub loaded : Loading → String → Result Profile → Loading
  loaded state path (err e) = record state {
    diagnostics = state.diagnostics ++ record { path = path; cause = some e } ∷ [];
  }
  loaded state path (ok p) =
      if is_some (lookup p.name state.profiles)
      then record state {
        diagnostics =
            state.diagnostics
            ++ record {
              path = path;
              cause = some (leaf ("duplicate profile name " ⊕ quote p.name));
            }
              ∷ [];
      }
      else record state {
        profiles = insert p.name p state.profiles;
        names = state.names ++ p.name ∷ [];
      }

  -- The loop over the paths.
  pub load_paths : List String → Loading → Eff W Loading
  unfolding loaded load_file
  load_paths [] state w = (state, w)
  load_paths (path ∷ paths) state w =
      let (found, w') = load_file path w in load_paths paths (loaded state path found) w'

  pub read_entries : String → Result (List DirEntry) → Exec W (ProfileRegistry × List Diagnostic)
  unfolding load_paths yaml_paths new_registry sort_texts
  read_entries directory (err e) w = (err (wrap "read profile directory" e), w)
  read_entries directory (ok entries) w =
      let (state, w') =
        load_paths (sort_texts (yaml_paths (files.join_path directory) entries)) no_profiles w in
      (ok (new_registry state.profiles state.names, state.diagnostics), w')

  -- `LoadDirectory`
  unfoldable pub load_directory : String → Exec W (ProfileRegistry × List Diagnostic)
  unfolding read_entries
  load_directory directory w =
      let (entries, w') = files.read_dir directory w in read_entries directory entries w'
