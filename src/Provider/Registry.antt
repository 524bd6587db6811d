-- ===== src/Provider/Registry.antt =====
-- internal/provider/registry.go: factories by provider name, models by profile name. The methods
-- hold the lock where they read or write a map. `RegisterFactory` and `Model` have one critical section
-- and are one step. `BindProfile` and `BindProfiles` have two, with the factories called in between;
-- they take what other goroutines do to the registry in between.
pub mod Binding
use oryxos_go.Config.Server.{ProviderDefinition}
use oryxos_go.Common.{
  ℕ, String, Option, none, some, List, [], ◌∷◌, ◌||◌, not, ◌===◌, if◌then◌else◌, lookup, insert,
  is_some,
}
use oryxos_go.Go.Text.{◌⊕◌, quote, is_blank, trim_space}
use oryxos_go.Go.Error.{Error, Redaction, leaf, sealed, safe, message}
use oryxos_go.Go.Effect.{Result, ok, err, Exec, Context}
use oryxos_go.Llm.{Request, Response, StreamEvent}
use oryxos_go.Profile.{Profile}

-- config.go: the input of a factory.
pub record FactoryConfig : Type 0 where
  pub name : String
  pub model : String
  pub api_key : String
  pub temperature : ℕ

-- llm.ResponseStream
pub record ResponseStream (W : Type 0) : Type 0 where
  pub recv : Exec W StreamEvent
  pub close : W → Option Error × W

-- llm.ChatModel; `stream` may return nil without an error.
pub record ChatModel (W : Type 0) : Type 0 where
  pub generate : Context W → Request → Exec W Response
  pub stream : Context W → Request → Exec W (Option (ResponseStream W))

-- A factory may return nil without an error.
abbrev pub ModelFactory : Type 0 → Type 0
ModelFactory W = Context W → FactoryConfig → Exec W (Option (ChatModel W))

pub record Registry (W : Type 0) : Type 0 where
  pub factories : List (String × ModelFactory W)
  pub models : List (String × ChatModel W)

-- `safeWrap`, of an error that is not nil.
unfoldable pub safe_wrap : Redaction → String → Error → Error
unfolding message
safe_wrap redaction prefix cause =
    if redaction.sanitize (message cause) === message cause
    then safe prefix (message cause) cause
    else sealed prefix (redaction.sanitize (message cause))

-- The configuration that a factory is called with.
abbrev pub factory_config : Profile → ProviderDefinition → FactoryConfig
factory_config selected definition = record {
  name = definition.name;
  model = selected.provider.model;
  api_key = definition.api_key;
  temperature = selected.provider.temperature;
}

abbrev bind_text : Profile → String → String
bind_text selected text = "bind profile " ⊕ quote selected.name ⊕ ": " ⊕ text

-- The loop over the declarations.
pub declare :
    List ProviderDefinition
    → List (String × ProviderDefinition)
    → Result (List (String × ProviderDefinition))
unfolding is_blank
declare [] by_name = ok by_name
declare (definition ∷ definitions) by_name =
    let rest = declare definitions (insert definition.name definition by_name) in
    if is_blank definition.name || is_blank definition.api_key
    then err (leaf "bind profiles: provider name and credential are required")
    else if is_some (lookup definition.name by_name)
    then err (leaf ("bind profiles: duplicate provider declaration " ⊕ quote definition.name))
    else rest

module _ {W : Type 0} where
  -- `NewRegistry`
  abbrev pub new_registry : Registry W
  new_registry = record { factories = []; models = [] }

  -- `RegisterFactory`; a registry or factory that is none is a nil one. The registry is as it leaves it.
  unfoldable pub register_factory :
      Option (Registry W) → String → Option (ModelFactory W) → Option Error × Option (Registry W)
  unfolding trim_space
  register_factory none name factory =
      (some (leaf "register provider factory: registry is nil"), none)
  register_factory (some registry) name none =
      (some (leaf "register provider factory: name and factory are required"), some registry)
  register_factory (some registry) name (some factory) =
      if trim_space name === ""
      then (some (leaf "register provider factory: name and factory are required"), some registry)
      else if is_some (lookup (trim_space name) registry.factories)
      then (
        some (leaf ("register provider factory " ⊕ quote (trim_space name) ⊕ ": duplicate")),
        some registry,
      )
      else (
        none,
        some (record registry { factories = insert (trim_space name) factory registry.factories }),
      )

  -- `Model`
  abbrev pub model : Option (Registry W) → String → Option (ChatModel W)
  model none profile_name = none
  model (some registry) profile_name = lookup profile_name registry.models

  -- What the call of a factory comes to.
  pub constructed : Redaction → Profile → Result (Option (ChatModel W)) → Result (ChatModel W)
  unfolding safe_wrap
  constructed redaction selected (err e) =
      err (safe_wrap redaction (bind_text selected "construct provider model") e)
  constructed redaction selected (ok none) =
      err (leaf (bind_text selected "factory returned nil model"))
  constructed redaction selected (ok (some configured)) = ok configured

  -- `BindProfile` up to the call of the factory: the factory, or the error.
  unfoldable pub bindable : Registry W → Profile → ProviderDefinition → Result (ModelFactory W)
  unfolding is_blank
  bindable registry selected definition =
      if is_blank selected.name
      then err (leaf "bind profile: profile and profile name are required")
      else if not (selected.provider.name === definition.name)
      then err (leaf (bind_text selected "provider declaration mismatch"))
      else if is_blank definition.api_key
      then err (leaf (bind_text selected "provider credential is empty"))
      else if is_some (lookup selected.name registry.models)
      then err (leaf (bind_text selected "duplicate model binding"))
      else elim (lookup selected.provider.name registry.factories) [
        | none ↦ err (
            leaf (
              bind_text selected
                ("provider factory " ⊕ quote selected.provider.name ⊕ " not found")))
        | some factory ↦ ok factory
      ]

  -- Its second critical section, on the registry that it then finds.
  unfoldable pub publish : Profile → Result (ChatModel W) → Registry W → Option Error × Registry W
  publish selected (err e) registry = (some e, registry)
  publish selected (ok configured) registry =
      if is_some (lookup selected.name registry.models)
      then (some (leaf (bind_text selected "duplicate model binding")), registry)
      else (none, record registry { models = insert selected.name configured registry.models })

  abbrev published :
      Profile
      → (Registry W → Registry W)
      → Registry W
      → Result (ChatModel W) × W
      → (Option Error × Registry W) × W
  published selected others registry (configured, w) =
      (publish selected configured (others registry), w)

  abbrev called : Redaction → Profile → Result (Option (ChatModel W)) × W → Result (ChatModel W) × W
  called redaction selected (configured, w) = (constructed redaction selected configured, w)

  -- `BindProfile`; `others` is what other goroutines do to the registry while the factory runs.
  unfoldable pub bind_profile :
      Redaction
      → (Registry W → Registry W)
      → Option (Registry W)
      → Option (Context W)
      → Option Profile
      → ProviderDefinition
      → W
      → (Option Error × Option (Registry W)) × W
  unfolding bindable constructed publish
  bind_profile redaction others none ctx selected definition w =
      ((some (leaf "bind profile: registry is nil"), none), w)
  bind_profile redaction others (some registry) none selected definition w =
      ((some (leaf "bind profile: context is nil"), some registry), w)
  bind_profile redaction others (some registry) (some ctx) none definition w =
      ((some (leaf "bind profile: profile and profile name are required"), some registry), w)
  bind_profile redaction others (some registry) (some ctx) (some selected) definition w =
      elim (bindable registry selected definition) [
        | err e ↦ ((some e, some registry), w)
        | ok factory ↦
            let (made, w') = factory ctx (factory_config selected definition) w in
            let (failed, registry') =
              publish selected (constructed redaction selected made) (others registry) in
            ((failed, some registry'), w')
      ]

  -- The definition and the factory of a profile.
  pub routed :
      List (String × ProviderDefinition)
      → List (String × ModelFactory W)
      → Profile
      → Result (ProviderDefinition × ModelFactory W)
  routed by_name factories selected = elim (lookup selected.provider.name by_name) [
    | none ↦
        err (
          leaf (bind_text selected ("provider " ⊕ quote selected.provider.name ⊕ " is undeclared")))
    | some definition ↦ elim (lookup selected.provider.name factories) [
      | none ↦ err (
          leaf (
            bind_text selected ("provider factory " ⊕ quote selected.provider.name ⊕ " not found")))
      | some factory ↦ ok (definition, factory)
    ]
  ]

  -- The loop over the profiles; `rebuilt` is the map so far.
  pub rebuild :
      Redaction
      → Context W
      → List (String × ProviderDefinition)
      → List (String × ModelFactory W)
      → List Profile
      → List (String × ChatModel W)
      → Exec W (List (String × ChatModel W))
  unfolding routed constructed
  rebuild redaction ctx by_name factories [] rebuilt w = (ok rebuilt, w)
  rebuild redaction ctx by_name factories (selected ∷ profiles) rebuilt w =
      elim (routed by_name factories selected) [
        | err e ↦ (err e, w)
        | ok route ↦
            let (made, w') = route.1 ctx (factory_config selected route.0) w in
            elim (constructed redaction selected made) [
              | err e ↦ (err e, w')
              | ok configured ↦
                  rebuild redaction ctx by_name factories profiles
                    (insert selected.name configured rebuilt) w'
            ]
      ]

  abbrev pub replaced :
      Registry W
      → Result (List (String × ChatModel W)) × W
      → (Option Error × Option (Registry W)) × W
  replaced registry (ok rebuilt, w) = ((none, some (record registry { models = rebuilt })), w)
  replaced registry (err e, w) = ((some e, some registry), w)

  -- `BindProfiles`; the profiles are those of `profiles.List()`, and `others` is what other goroutines
  -- do to the registry between its two critical sections, while the factories run.
  unfoldable pub bind_profiles :
      Redaction
      → (Registry W → Registry W)
      → Option (Registry W)
      → Option (Context W)
      → Option (List Profile)
      → List ProviderDefinition
      → W
      → (Option Error × Option (Registry W)) × W
  unfolding declare rebuild
  bind_profiles redaction others none ctx profiles definitions w =
      ((some (leaf "bind profiles: registry is nil"), none), w)
  bind_profiles redaction others (some registry) none profiles definitions w =
      ((some (leaf "bind profiles: context is nil"), some registry), w)
  bind_profiles redaction others (some registry) (some ctx) none definitions w =
      ((some (leaf "bind profiles: profile registry is nil"), some registry), w)
  bind_profiles redaction others (some registry) (some ctx) (some profiles) definitions w =
      elim (declare definitions []) [
        | err e ↦ ((some e, some registry), w)
        | ok by_name ↦
            replaced (others registry)
              (rebuild redaction ctx by_name registry.factories profiles [] w)
      ]
