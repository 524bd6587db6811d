-- ===== src/Profile/Validate.antt =====
-- internal/profile/loader.go: `validateProfile`, from the decoded form to a profile.
pub mod Valid
use oryxos_go.Common.{
  ℕ, ◌/◌, ◌%◌, ◌^◌, String, Option, none, some, List, [], ◌∷◌, Bool, true, false, not, ◌||◌, ◌==◌,
  ◌===◌, if◌then◌else◌,
}
use oryxos_go.Common.Int.{ℤ, is_positive}
use oryxos_go.Go.Text.{◌⊕◌, quote, trim_space}
use oryxos_go.Go.Error.{Error, leaf}
use oryxos_go.Go.Effect.{Result, ok, err}
use oryxos_go.Profile.{Profile, RawProfile}
use oryxos_go.Profile.Clone.{clone_channels}

-- The float32 nearest to 0.7, by its bits.
abbrev pub default_temperature : ℕ
default_temperature = 0x3F333333

abbrev pub default_max_iterations : ℤ
default_max_iterations = ℤ.pos 10

abbrev pub default_max_history_turns : ℤ
default_max_history_turns = ℤ.pos 20

-- `!math.IsNaN && !math.IsInf`: an exponent that is not all ones.
abbrev pub is_finite : ℕ → Bool
is_finite bits = not (bits / 2 ^ 23 % 2 ^ 8 == 255)

abbrev pub value_or {ℓ} : {A : Type ℓ} → A → Option A → A
value_or otherwise none = otherwise
value_or otherwise (some given) = given

-- `_, declared := declaredProviders[name]`
abbrev pub declared_in : List String → String → Bool
declared_in [] name = false
declared_in (declared ∷ rest) name = declared === name || declared_in rest name

-- The profile that is returned.
pub valid_profile : RawProfile → Profile
unfolding trim_space clone_channels
valid_profile raw = record {
  name = trim_space raw.name;
  description = raw.description;
  identity = raw.identity;
  provider = record {
    name = trim_space raw.provider.name;
    model = trim_space raw.provider.model;
    temperature = value_or default_temperature raw.provider.temperature;
  };
  tools = raw.tools;
  skills = raw.skills;
  mcp_servers = raw.mcp_servers;
  notify_channels = raw.notify_channels;
  schedules = raw.schedules;
  channels = clone_channels raw.channels;
  bootstrap = raw.bootstrap;
  settings = record {
    max_iterations = value_or default_max_iterations raw.settings.max_iterations;
    max_history_turns = value_or default_max_history_turns raw.settings.max_history_turns;
  };
}

-- `validateProfile`
unfoldable pub validate_profile : RawProfile → List String → Result Profile
unfolding valid_profile trim_space
validate_profile raw declared =
    if trim_space raw.name === ""
    then err (leaf "name must not be empty")
    else if trim_space raw.provider.name === ""
    then err (leaf "provider.name must not be empty")
    else if not (declared_in declared (trim_space raw.provider.name))
    then err (leaf ("provider.name " ⊕ quote (trim_space raw.provider.name) ⊕ " is undeclared"))
    else if trim_space raw.provider.model === ""
    then err (leaf "provider.model must not be empty")
    else if not (is_finite (value_or default_temperature raw.provider.temperature))
    then err (leaf "provider.temperature must be finite")
    else if not (is_positive (value_or default_max_iterations raw.settings.max_iterations))
    then err (leaf "settings.max_iterations must be positive")
    else if not (is_positive (value_or default_max_history_turns raw.settings.max_history_turns))
    then err (leaf "settings.max_history_turns must be positive")
    else ok (valid_profile raw)
