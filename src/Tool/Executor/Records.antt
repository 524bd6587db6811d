-- ===== src/Tool/Executor/Records.antt =====
-- internal/tool/executor.go: `Execute` as a whole, the calls of the tool and the records.
use oryxos_go.Common.{
  ◌∷◌, ◌≡◌, ◌≢◌, refl, sym, ap, ◌∙◌, String, Option, none, some, List, [], ◌++◌, true, ◌&&◌,
  Bool-cases, Option-cases, inl, inr, ◌⊎◌, append-nil, ◌===◌, eq_iff, arith, ℕ, false, append_assoc,
}
use oryxos_go.Common.Int.{is_positive}
use oryxos_go.Go.Error.{Error, Redaction, join_errors}
use oryxos_go.Go.Effect.{Result, ok, err, Context, without_cancel}
use oryxos_go.Llm.{ToolDefinition, ToolCall}
use oryxos_go.Tool.Executor.{
  Executor, OryxTool, InvokableTool, Returned, contains_exact, invoke_all, with_definition,
  with_implementation, execute_allowed, sanitize_tool_error, execute_recorded, invocation,
  trim_space,
}
use oryxos_go.Store.{ToolInvocation}
use oryxos_go.Tool.Executor.Attempts.{retry_delays, Event, IsTraced, Attempts, attempts_total}

module _ {W : Type 0} (redaction : Redaction) (executor : Executor W) (ctx : Context W)
    (session_id : String) (trace : W → List Event) (traced : IsTraced executor trace) where
  -- The tool was called: it is allowed, registered and implemented, its metadata has the name of the
  -- call, its arguments fit its schema, and `events` are those of the retry loop.
  pub record IsInvoked (name : String) (allowed : List String) (arguments : String)
      (events : List Event) : Type 0 where
    pub configured : OryxTool W
    pub tool : InvokableTool W
    pub definition : ToolDefinition
    pub listed : contains_exact allowed name ≡ true
    pub registered : executor.lookup name ≡ some configured
    pub implemented : configured.tool ≡ some tool
    pub named : definition.name ≡ name
    pub validated : executor.validate definition.input_schema arguments ≡ none
    pub tried :
        Attempts (configured.retryable && configured.idempotent) arguments retry_delays events

  -- Either nothing happened and an error is returned, or the tool was called.
  abbrev pub IsExecuted : String → List String → String → W → Returned × W → Type 0
  IsExecuted name allowed arguments w r =
      (events : List Event) × (trace r.1 ≡ trace w ++ events)
      × (((events ≡ []) × (r.0.1 ≢ none)) ⊎ IsInvoked name allowed arguments events)

  refused :
      (name : String) (allowed : List String) (arguments : String) (w w' : W) (e : Error)
      → trace w' ≡ trace w
      → IsExecuted name allowed arguments w (("", some e), w')
  refused name allowed arguments w w' e same =
      ([], same ∙ sym (append-nil (trace w)), inl (refl, λ h. cc h))

  module _ (name : String) (allowed : List String) (arguments : String)
      (listed : contains_exact allowed name ≡ true) (configured : OryxTool W)
      (registered : executor.lookup name ≡ some configured) where
    module _ (tool : InvokableTool W) (implemented : configured.tool ≡ some tool) where
      invoke_all-IsExecuted :
          (definition : ToolDefinition) (w : W)
          → definition.name ≡ name
          → executor.validate definition.input_schema arguments ≡ none
          → IsExecuted name allowed arguments w
              (invoke_all redaction executor ctx session_id name configured arguments tool w)
      unfolding invoke_all
      invoke_all-IsExecuted definition w named validated =
          let (returned, w', same, events, seen, shape) =
            attempts_total redaction executor ctx session_id trace traced name configured arguments
              tool registered implemented w in
          rw (same, invoke_all)
            (
              events,
              seen,
              inr (record {
                configured = configured;
                tool = tool;
                definition = definition;
                listed = listed;
                registered = registered;
                implemented = implemented;
                named = named;
                validated = validated;
                tried = shape;
              }),
            )

      with_definition-IsExecuted :
          (definition : Result ToolDefinition) (w w' : W)
          → trace w' ≡ trace w
          → IsExecuted name allowed arguments w (
              with_definition redaction executor ctx session_id name configured arguments tool
                definition w')
      unfolding with_definition
      with_definition-IsExecuted (err e) w w' same = refused name allowed arguments w w' _ same
      with_definition-IsExecuted (ok definition) w w' same =
          elim (Bool-cases (definition.name === name)) [
            | inr other ↦ rw (other, with_definition) (refused name allowed arguments w w' _ same)
            | inl named ↦
                elim (Option-cases (executor.validate definition.input_schema arguments)) [
                  | inr (e, invalid) ↦
                      rw (named, invalid, with_definition)
                        (refused name allowed arguments w w' _ same)
                  | inl valid ↦
                      let (events, seen, shape) =
                        invoke_all-IsExecuted definition w' ((eq_iff _ _).0 named) valid in
                      rw (named, valid, with_definition)
                        (events, seen ∙ ap (λ es. es ++ events) same, shape)
                ]
          ]

    with_implementation-IsExecuted :
        (tool : Option (InvokableTool W)) (w : W)
        → configured.tool ≡ tool
        → IsExecuted name allowed arguments w
            (with_implementation redaction executor ctx session_id name configured arguments tool w)
    unfolding with_implementation
    with_implementation-IsExecuted none w same = refused name allowed arguments w w _ refl
    with_implementation-IsExecuted (some tool) w same =
        elim (Bool-cases (is_positive configured.timeout)) [
          | inr never ↦ rw (never, with_implementation) (refused name allowed arguments w w _ refl)
          | inl positive ↦
              let read = tool.info ctx w in
              rw (positive, with_implementation)
                (with_definition-IsExecuted tool same read.0 w read.1
                  (traced.info name configured tool registered same ctx w))
        ]

  -- The tool is called only if the profile allows it, it is registered under the name, implemented
  -- and named alike, and its arguments fit its schema; then the events are those of the retry loop.
  -- Otherwise nothing happens and an error is returned.
  pub execute_allowed-IsExecuted :
      (name : String) (allowed : List String) (arguments : String) (w : W)
      → IsExecuted name allowed arguments w
          (execute_allowed redaction executor ctx session_id name allowed arguments w)
  unfolding execute_allowed
  execute_allowed-IsExecuted name allowed arguments w = elim (Bool-cases (name === "")) [
    | inl empty ↦ rw (empty, execute_allowed) (refused name allowed arguments w w _ refl)
    | inr given ↦ elim (Bool-cases (contains_exact allowed name)) [
      | inr denied ↦ rw (given, denied, execute_allowed) (refused name allowed arguments w w _ refl)
      | inl listed ↦ elim (Option-cases (executor.lookup name)) [
        | inl missing ↦
            rw (given, listed, missing, execute_allowed) (refused name allowed arguments w w _ refl)
        | inr (configured, registered) ↦
            rw (given, listed, registered, execute_allowed)
              (with_implementation-IsExecuted name allowed arguments listed configured registered
                configured.tool w refl)
      ]
    ]
  ]

  -- The events of one logical call: those of the tool, and one record.
  pub record IsRecorded (name : String) (allowed : List String) (arguments : String) (w : W)
      (r : Returned × W) : Type 0 where
    pub events : List Event
    pub row : ToolInvocation
    pub seen : trace r.1 ≡ trace w ++ (events ++ Event.records row ∷ [])
    pub called : (events ≡ []) ⊎ IsInvoked name allowed arguments events
    pub owner : row.session_id ≡ session_id
    pub success_called : row.success ≡ true → IsInvoked name allowed arguments events
    pub success_text : row.success ≡ true → row.error_message ≡ none
    pub failure_text : row.success ≡ false → row.error_message ≢ none
    pub returned : r.0.1 ≡ none → row.success ≡ true

  sanitize_tool_error-none : (e : Option Error) → sanitize_tool_error redaction e ≡ none → e ≡ none
  unfolding sanitize_tool_error
  sanitize_tool_error-none none h = refl
  sanitize_tool_error-none (some e) h = ground arith

  join_errors-none : (a b : Option Error) → join_errors a b ≡ none → a ≡ none
  join_errors-none none b h = refl
  join_errors-none (some a) none h = cc
  join_errors-none (some a) (some b) h = cc

  success_iff :
      (name arguments text : String) (e : Option Error) (started finished : ℕ)
      → ((invocation redaction executor ctx session_id name arguments
              (text, e)
              started
              finished).success
            ≡ true
          → e ≡ none)
        × (e ≡ none
            → (invocation redaction executor ctx session_id name arguments
                (text, e)
                started
                finished).success
              ≡ true)
  unfolding invocation
  success_iff name arguments text none started finished = (λ h. refl, λ h. refl)
  success_iff name arguments text (some e) started finished = (λ h. cc, λ h. cc)

  owner_lem :
      (name arguments text : String) (e : Option Error) (started finished : ℕ)
      → (invocation redaction executor ctx session_id name arguments
          (text, e)
          started
          finished).session_id
        ≡ session_id
  unfolding invocation
  owner_lem name arguments text e started finished = refl

  success-error_message :
      (name arguments text : String) (e : Option Error) (started finished : ℕ)
      → ((invocation redaction executor ctx session_id name arguments
              (text, e)
              started
              finished).success
            ≡ true
          → (invocation redaction executor ctx session_id name arguments
              (text, e)
              started
              finished).error_message
            ≡ none)
        × ((invocation redaction executor ctx session_id name arguments
                (text, e)
                started
                finished).success
              ≡ false
            → (invocation redaction executor ctx session_id name arguments
                (text, e)
                started
                finished).error_message
              ≢ none)
  unfolding invocation
  success-error_message name arguments text none started finished = (λ h. refl, λ h. cc)
  success-error_message name arguments text (some e) started finished = (λ h. cc, λ h k. cc)

  called_of_success :
      (name : String) (allowed : List String) (arguments : String) (events : List Event)
      (e : Option Error)
      → ((events ≡ []) × (e ≢ none)) ⊎ IsInvoked name allowed arguments events
      → e ≡ none
      → IsInvoked name allowed arguments events
  called_of_success name allowed arguments events e (inl (nothing, error)) h = absurd (error h)
  called_of_success name allowed arguments events e (inr invoked) h = invoked

  called_either :
      (name : String) (allowed : List String) (arguments : String) (events : List Event)
      (e : Option Error)
      → ((events ≡ []) × (e ≢ none)) ⊎ IsInvoked name allowed arguments events
      → (events ≡ []) ⊎ IsInvoked name allowed arguments events
  called_either name allowed arguments events e (inl (nothing, error)) = inl nothing
  called_either name allowed arguments events e (inr invoked) = inr invoked

  -- Every call of Execute ends with exactly one record, after the events of the tool. A record says
  -- success only if the tool was called and there is no error message, and whenever Execute returns
  -- no error; a record of a failure has an error message.
  pub execute_recorded-IsRecorded :
      (allowed : List String) (call : ToolCall) (w : W)
      → IsRecorded
          (trim_space call.function.name)
          allowed
          call.function.arguments
          w
          (execute_recorded redaction executor ctx session_id allowed call w)
  unfolding execute_recorded
  execute_recorded-IsRecorded allowed call w =
      let name = trim_space call.function.name in
      let arguments = call.function.arguments in
      let started = executor.now w in
      let r = execute_allowed redaction executor ctx session_id name allowed arguments started.1 in
      let finished = executor.now r.1 in
      let safe : Option Error = sanitize_tool_error redaction r.0.1 in
      let row =
        invocation redaction executor ctx session_id name arguments (r.0.0, safe) started.0
          finished.0 in
      let (events, seen, how) = execute_allowed-IsExecuted name allowed arguments started.1 in
      record {
        events = events;
        row = row;
        seen =
            traced.create (without_cancel ctx) row finished.1
            ∙ ap (λ es. es ++ Event.records row ∷ [])
                (traced.now r.1 ∙ seen ∙ ap (λ es. es ++ events) (traced.now w))
            ∙ append_assoc (trace w) events _;
        called = called_either name allowed arguments events r.0.1 how;
        owner = owner_lem name arguments r.0.0 safe started.0 finished.0;
        success_called = λ h. called_of_success name allowed arguments events r.0.1 how (
            sanitize_tool_error-none r.0.1
              ((success_iff name arguments r.0.0 safe started.0 finished.0).0 h));
        success_text = (success-error_message name arguments r.0.0 safe started.0 finished.0).0;
        failure_text = (success-error_message name arguments r.0.0 safe started.0 finished.0).1;
        returned = λ h.
            (success_iff name arguments r.0.0 safe started.0 finished.0).1
              (join_errors-none safe _ h);
      }
