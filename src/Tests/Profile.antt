-- ===== src/Tests/Profile.antt =====
-- A directory of two profile files with the same name, and a file that is no profile.
use oryxos_go.Common.{
  if◌then◌else◌, ◌===◌, ◌≡◌, refl, String, Option, none, some, List, [], ◌∷◌, true, false,
}
use oryxos_go.Common.Int.{ℤ}
use oryxos_go.Go.Error.{Sentinel, leaf, sentinel}
use oryxos_go.Go.Effect.{ok, err}
use oryxos_go.Profile.{RawProfile}
use oryxos_go.Profile.Validate.{validate_profile}
use oryxos_go.Profile.Validate.Valid.{IsValidated, validate_profile-IsValidated}
use oryxos_go.Profile.Loader.{
  Files, DirEntry, load_directory, expand_environment, unknown_yaml_field,
}
use oryxos_go.Profile.Loader.Snapshot.{IsLoaded, load_directory-IsLoaded}
use oryxos_go.Tests.Fixtures.{no_redaction, helper}

abbrev form : RawProfile
form = record {
  name = " helper";
  description = "";
  identity = helper.identity;
  provider = record { name = "deepseek"; model = "m"; temperature = none };
  tools = [];
  skills = [];
  mcp_servers = [];
  notify_channels = [];
  schedules = [];
  channels = [];
  bootstrap = [];
  settings = record { max_iterations = some (ℤ.negsuc 0); max_history_turns = none };
}

abbrev good : RawProfile
good = record form { settings = record { max_iterations = none; max_history_turns = none } }

abbrev listing : List DirEntry
listing =
    record { name = "b.yml"; is_dir = false }
    ∷ record { name = "notes.txt"; is_dir = false }
    ∷ record { name = "a.YAML"; is_dir = false }
    ∷ record { name = "c.yaml"; is_dir = true }
    ∷ []

-- The world is the list of the files read.
abbrev files : Files (List String)
files = record {
  read_dir = λ directory w. (ok listing, w);
  read_file = λ path w. (ok path, path ∷ w);
  join_path = λ directory name. directory;
  look_up = λ name. none;
  decode = λ text. ok good;
  decode_next = λ text. some (sentinel Sentinel.eof);
}

validate_profile-IsValidated_example :
    IsValidated form ("deepseek" ∷ []) (validate_profile form ("deepseek" ∷ []))
validate_profile-IsValidated_example = validate_profile-IsValidated form ("deepseek" ∷ [])

refuses_limit :
    validate_profile form ("deepseek" ∷ []) ≡ err (leaf "settings.max_iterations must be positive")
unfolding validate_profile
refuses_limit = refl

load_directory-IsLoaded_example :
    IsLoaded
      ("deepseek" ∷ [])
      (λ name. "profiles")
      (ok listing)
      (load_directory no_redaction files ("deepseek" ∷ []) "profiles" []).0
load_directory-IsLoaded_example =
    load_directory-IsLoaded no_redaction files ("deepseek" ∷ []) "profiles" []

abbrev environment : String → Option String
environment name = if name === "HOME" then some "/root" else none

expands :
    (expand_environment environment "a ${HOME}/b ${1} $" ≡ ok "a /root/b ${1} $")
    × (expand_environment environment "${NONE}" ≡ err (leaf "environment variable NONE is not set"))
    × (unknown_yaml_field "line 3: field colour not found in type x" ≡ some "colour")
unfolding expand_environment unknown_yaml_field
expands = (refl, refl, refl)
