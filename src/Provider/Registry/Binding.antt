-- ===== src/Provider/Registry/Binding.antt =====
-- internal/provider/registry.go: what `BindProfiles` does to the models.
use oryxos_go.Config.Server.{ProviderDefinition}
use oryxos_go.Common.{
  ◌≡◌, refl, ◌∙◌, ◌≢◌, String, Option, none, some, List, [], ◌∷◌, Bool-cases, inl, inr, ◌===◌,
  lookup, insert, lookup-insert, lookup-insert_ne, All,
}
use oryxos_go.Go.Error.{Error, Redaction}
use oryxos_go.Go.Effect.{Result, ok, err, Result-cases, Context}
use oryxos_go.Profile.{Profile}
use oryxos_go.Provider.Registry.{
  Registry, ChatModel, ModelFactory, routed, constructed, rebuild, declare, factory_config,
  bind_profiles, replaced,
}

-- A map after models were built for some profiles: a name of theirs has a model, any other name has
-- the model that it had before, and a name with a model keeps one.
pub record IsRebuilt {W : Type 0} (profiles : List Profile)
    (before after : List (String × ChatModel W)) : Type 0 where
  pub bound : All (λ selected. (m : ChatModel W) × (lookup selected.name after ≡ some m)) profiles
  pub others :
      (name : String)
      → All (λ (selected : Profile). selected.name ≢ name) profiles
      → lookup name after ≡ lookup name before
  pub kept :
      (name : String) (m : ChatModel W)
      → lookup name before ≡ some m
      → (m' : ChatModel W) × (lookup name after ≡ some m')

-- The loop stopped at an error, or built all models.
pub data IsBuilt {W : Type 0} (profiles : List Profile) (before : List (String × ChatModel W))
    : Result (List (String × ChatModel W)) → Type 0 where
  stopped : (e : Error) → IsBuilt profiles before (err e)
  built :
      (after : List (String × ChatModel W))
      → IsRebuilt profiles before after
      → IsBuilt profiles before (ok after)

-- The registry as it was, or as other goroutines left it, with an error; or as they left it with a model
-- for each profile and for no other name.
pub data IsBound {W : Type 0} (profiles : List Profile) (others : Registry W → Registry W)
    (registry : Registry W) : Option Error × Option (Registry W) → Type 0 where
  refused : (e : Error) → IsBound profiles others registry (some e, some registry)
  unchanged : (e : Error) → IsBound profiles others registry (some e, some (others registry))
  bound_all :
      (after : List (String × ChatModel W))
      → IsRebuilt profiles [] after
      → IsBound profiles others registry (none, some (record (others registry) { models = after }))

module _ {W : Type 0} where
  insert_kept :
      (other : String) (value : ChatModel W) (entries : List (String × ChatModel W)) (name : String)
      (m : ChatModel W)
      → lookup name entries ≡ some m
      → (m' : ChatModel W) × (lookup name (insert other value entries) ≡ some m')
  insert_kept other value entries name m h = elim (Bool-cases (other === name)) [
    | inl same ↦ (value, rw same refl)
    | inr differs ↦ (m, rw differs h)
  ]

  cons-IsRebuilt :
      (selected : Profile) (profiles : List Profile) (configured : ChatModel W)
      (before after : List (String × ChatModel W))
      → IsRebuilt profiles (insert selected.name configured before) after
      → IsRebuilt (selected ∷ profiles) before after
  cons-IsRebuilt selected profiles configured before after rest = record {
    bound = (
      rest.kept selected.name configured (lookup-insert selected.name configured before),
      rest.bound,
    );
    others = λ name differ. rest.others name differ.1 ∙ lookup-insert_ne configured before differ.0;
    kept = λ name m h.
        let (m', eq) = insert_kept selected.name configured before name m h in rest.kept name m' eq;
  }

  cons-IsBuilt :
      (selected : Profile) (profiles : List Profile) (configured : ChatModel W)
      (before : List (String × ChatModel W)) (out : Result (List (String × ChatModel W)))
      → IsBuilt profiles (insert selected.name configured before) out
      → IsBuilt (selected ∷ profiles) before out
  cons-IsBuilt selected profiles configured before _ (stopped e) = stopped e
  cons-IsBuilt selected profiles configured before _ (built after rest) =
      built after (cons-IsRebuilt selected profiles configured before after rest)

  module _ (redaction : Redaction) (ctx : Context W) (by_name : List (String × ProviderDefinition))
      (factories : List (String × ModelFactory W)) where
    rebuild_lem :
        (profiles : List Profile) (before : List (String × ChatModel W)) (w : W)
        → IsBuilt profiles before (rebuild redaction ctx by_name factories profiles before w).0
    unfolding rebuild
    rebuild_lem [] before w =
        built before (record { bound = tt; others = λ name h. refl; kept = λ name m h. (m, h) })
    rebuild_lem (selected ∷ profiles) before w =
        elim (Result-cases (routed by_name factories selected)) [
          | inl (e, bad) ↦ rw (bad, rebuild) (stopped e)
          | inr (route, good) ↦
              let (made, w') = route.1 ctx (factory_config selected route.0) w in
              rw (good, rebuild)
                (elim (Result-cases (constructed redaction selected made)) [
                  | inl (e, failed) ↦ rw failed (stopped e)
                  | inr (configured, whole) ↦ rw whole (
                      cons-IsBuilt selected profiles configured before _
                        (rebuild_lem profiles (insert selected.name configured before) w'))
                ])
        ]

  replaced_lem :
      (others : Registry W → Registry W) (registry : Registry W) (profiles : List Profile)
      (out : Result (List (String × ChatModel W)) × W)
      → IsBuilt profiles [] out.0
      → IsBound profiles others registry (replaced (others registry) out).0
  replaced_lem others registry profiles (_, w) (stopped e) = unchanged e
  replaced_lem others registry profiles (_, w) (built after rebuilt) = bound_all after rebuilt

  -- `BindProfiles` on a registry and some profiles either returns an error and changes nothing of the
  -- registry, or it replaces the models: then each profile has a model under its name, no other name
  -- has one, and the factories are as they were. Where other goroutines change the registry while the
  -- factories run, it is their registry that is left unchanged or gets the models.
  pub bind_profiles-IsBound :
      (redaction : Redaction) (others : Registry W → Registry W) (registry : Registry W)
      (ctx : Option (Context W)) (profiles : List Profile) (definitions : List ProviderDefinition)
      (w : W)
      → IsBound profiles others registry
          (bind_profiles redaction others (some registry) ctx (some profiles) definitions w).0
  unfolding bind_profiles
  bind_profiles-IsBound redaction others registry none profiles definitions w = refused _
  bind_profiles-IsBound redaction others registry (some ctx) profiles definitions w =
      elim (Result-cases (declare definitions [])) [
        | inl (e, bad) ↦ rw (bad, bind_profiles) (refused e)
        | inr (by_name, good) ↦
            rw (good, bind_profiles)
              (replaced_lem others registry profiles
                (rebuild redaction ctx by_name registry.factories profiles [] w)
                (rebuild_lem redaction ctx by_name registry.factories profiles [] w))
      ]
