-- ===== src/Provider/Service/Tools.antt =====
-- internal/provider/service.go and tool_schema_resolver.go: the definitions of a profile's tools.
use oryxos_go.Common.{
  ◌≡◌, refl, ◌∙◌, String, Option, none, some, Option-cases, List, [], ◌∷◌, ◌++◌, inl, inr, lookup,
  if_elim, false, true,
}
use oryxos_go.Go.Text.{is_blank}
use oryxos_go.Go.Error.{Redaction}
use oryxos_go.Go.Effect.{Result, ok, err, Result-cases, Context}
use oryxos_go.Llm.{Request, ToolDefinition}
use oryxos_go.Store.{LlmCall}
use oryxos_go.Provider.Registry.{ChatModel}
use oryxos_go.Provider.Service.{Service, ToolSchemaResolver, resolve_names, resolved}

-- `rows` are the audit rows that the recorder was given, the latest at the end. Nothing else that
-- the service calls adds one.
pub record IsKept {W : Type 0} (rows : W → List LlmCall) (service : Service W) : Type 0 where
  pub info_rows :
      (resolver : ToolSchemaResolver W)
      → service.resolver ≡ some resolver
      → (ctx : Context W) (name : String) (w : W) → rows (resolver.info ctx name w).1 ≡ rows w
  pub generate_rows :
      (name : String) (chat_model : ChatModel W)
      → lookup name service.registry.models ≡ some chat_model
      → (ctx : Context W) (request : Request) (w : W)
      → rows (chat_model.generate ctx request w).1 ≡ rows w
  pub now_rows : (w : W) → rows (service.now w).1 ≡ rows w
  pub recorder_rows :
      (ctx : Context W) (row : LlmCall) (w : W)
      → rows (service.recorder ctx row w).1 ≡ rows w ++ row ∷ []

-- The definitions that the resolver gives for the names, asked one after the other; each has a name.
pub data Resolves {W : Type 0} (resolver : Option (ToolSchemaResolver W)) (ctx : Context W)
    : List String → W → List ToolDefinition → W → Type 0 where
  resolves_none : (w : W) → Resolves resolver ctx [] w [] w
  resolves_next :
      (found : ToolSchemaResolver W) (name : String) (names : List String)
      (definition : ToolDefinition) (definitions : List ToolDefinition) (w w' : W)
      → resolver ≡ some found
      → (found.info ctx name w).0 ≡ some definition
      → is_blank definition.name ≡ false
      → Resolves resolver ctx names (found.info ctx name w).1 definitions w'
      → Resolves resolver ctx (name ∷ names) w (definition ∷ definitions) w'

-- Why the resolver gives no definitions: there is none and a tool is named, or a name is blank, is not
-- found, or is found with a blank name.
pub data Unresolved {W : Type 0} (resolver : Option (ToolSchemaResolver W)) (ctx : Context W)
    : List String → W → Type 0 where
  no_resolver :
      (name : String) (names : List String) (w : W)
      → resolver ≡ none
      → Unresolved resolver ctx (name ∷ names) w
  blank_name :
      (name : String) (names : List String) (w : W)
      → is_blank name ≡ true
      → Unresolved resolver ctx (name ∷ names) w
  not_found :
      (found : ToolSchemaResolver W) (name : String) (names : List String) (w : W)
      → resolver ≡ some found
      → (found.info ctx name w).0 ≡ none
      → Unresolved resolver ctx (name ∷ names) w
  nameless :
      (found : ToolSchemaResolver W) (name : String) (names : List String)
      (definition : ToolDefinition) (w : W)
      → resolver ≡ some found
      → (found.info ctx name w).0 ≡ some definition
      → is_blank definition.name ≡ true
      → Unresolved resolver ctx (name ∷ names) w
  later :
      (found : ToolSchemaResolver W) (name : String) (names : List String) (w : W)
      → resolver ≡ some found
      → Unresolved resolver ctx names (found.info ctx name w).1
      → Unresolved resolver ctx (name ∷ names) w

module _ {W : Type 0} (redaction : Redaction) (rows : W → List LlmCall) where
  resolve_names_rows :
      (resolver : ToolSchemaResolver W)
      → ((ctx : Context W) (name : String) (w : W) → rows (resolver.info ctx name w).1 ≡ rows w)
      → (ctx : Context W) (names : List String) (w : W)
      → rows (resolve_names redaction resolver ctx names w).1 ≡ rows w
  unfolding resolve_names
  resolve_names_rows resolver kept ctx [] w = refl
  resolve_names_rows resolver kept ctx (name ∷ names) w =
      let found = resolver.info ctx name w in
      let first = kept ctx name w in
      let more = resolve_names_rows resolver kept ctx names found.1 ∙ first in
      if_elim (λ (out : Result (List ToolDefinition) × W). rows out.1 ≡ rows w) (is_blank name) _ _
        (λ h. refl)
        (λ h. elim (Option-cases found.0) [
          | inl absent ↦ rw absent first
          | inr (definition, present) ↦ rw present (
              if_elim (λ (out : Result (List ToolDefinition) × W). rows out.1 ≡ rows w)
                (is_blank definition.name) _ _ (λ k. first)
                (λ k. elim (Result-cases (resolve_names redaction resolver ctx names found.1).0) [
                  | inl (e, bad) ↦ rw bad more
                  | inr (definitions, good) ↦ rw good more
                ]))
        ])

  -- What the loop returns, or why it returns an error.
  unfoldable pub Resolved :
      Option (ToolSchemaResolver W)
      → Context W
      → List String
      → W
      → Result (List ToolDefinition) × W
      → Type 0
  Resolved resolver ctx names w (err e, w') = Unresolved resolver ctx names w
  Resolved resolver ctx names w (ok definitions, w') = Resolves resolver ctx names w definitions w'

  resolve_names-Resolved :
      (found : ToolSchemaResolver W) (ctx : Context W) (names : List String) (w : W)
      → Resolved (some found) ctx names w (resolve_names redaction found ctx names w)
  unfolding resolve_names Resolved
  resolve_names-Resolved found ctx [] w = resolves_none w
  resolve_names-Resolved found ctx (name ∷ names) w =
      let w1 = (found.info ctx name w).1 in
      if_elim (Resolved (some found) ctx (name ∷ names) w) (is_blank name) _ _
        (λ h. blank_name name names w h)
        (λ h. elim (Option-cases (found.info ctx name w).0) [
          | inl absent ↦ rw absent (not_found found name names w refl absent)
          | inr (definition, present) ↦ rw present (
              if_elim (Resolved (some found) ctx (name ∷ names) w) (is_blank definition.name) _ _
                (λ k. nameless found name names definition w refl present k)
                (λ k. elim (Result-cases (resolve_names redaction found ctx names w1).0) [
                  | inl (e, bad) ↦
                      let more : Unresolved (some found) ctx names w1 =
                        rw (bad, Resolved) at (resolve_names-Resolved found ctx names w1) in
                      rw bad (later found name names w refl more)
                  | inr (definitions, good) ↦
                      let more : Resolves (some found) ctx names w1 definitions
                          (resolve_names redaction found ctx names w1).1 =
                        rw (good, Resolved) at (resolve_names-Resolved found ctx names w1) in
                      rw good (
                        resolves_next found name names definition definitions w _ refl present k
                          more)
                ]))
        ])

  pub resolved-Resolved :
      (resolver : Option (ToolSchemaResolver W)) (ctx : Context W) (operation : String)
      (names : List String) (w : W)
      → Resolved resolver ctx names w (resolved redaction resolver ctx operation names w)
  unfolding resolved Resolved
  resolved-Resolved resolver ctx operation [] w = resolves_none w
  resolved-Resolved none ctx operation (name ∷ names) w = no_resolver name names w refl
  resolved-Resolved (some found) ctx operation (name ∷ names) w =
      elim (Result-cases (resolve_names redaction found ctx (name ∷ names) w).0) [
        | inl (e, bad) ↦
            rw (bad, resolved)
              (rw (bad, Resolved) at (resolve_names-Resolved found ctx (name ∷ names) w))
        | inr (definitions, good) ↦
            rw (good, resolved)
              (rw (good, Resolved) at (resolve_names-Resolved found ctx (name ∷ names) w))
      ]

  pub resolved_rows :
      (service : Service W)
      → IsKept rows service
      → (ctx : Context W) (operation : String) (names : List String) (w : W)
      → rows (resolved redaction service.resolver ctx operation names w).1 ≡ rows w
  unfolding resolved
  resolved_rows service kept ctx operation [] w = refl
  resolved_rows service kept ctx operation (name ∷ names) w = elim (Option-cases service.resolver) [
    | inl absent ↦ rw absent refl
    | inr (resolver, present) ↦
        let same =
          resolve_names_rows resolver (kept.info_rows resolver present) ctx (name ∷ names) w in
        rw present (elim (Result-cases (resolve_names redaction resolver ctx (name ∷ names) w).0) [
          | inl (e, bad) ↦ rw (bad, resolved) same
          | inr (definitions, good) ↦ rw (good, resolved) same
        ])
  ]
