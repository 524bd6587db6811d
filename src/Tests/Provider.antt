-- ===== src/Tests/Provider.antt =====
-- A service with one model; the world is the list of the audit rows and the closes of a stream.
use mathlib.Core.Path.{subst}
use oryxos_go.Config.Server.{ProviderDefinition}
use oryxos_go.Common.{
  ℕ, suc, ◌≡◌, refl, String, none, some, List, [], ◌∷◌, ◌++◌, false, Bool-cases, inl, inr, ◌===◌,
  lookup, length,
}
use oryxos_go.Common.Int.{ℤ}
use oryxos_go.Go.Effect.{ok}
use oryxos_go.Llm.{Response, text_message, role_assistant, no_event, stream_event_completed}
use oryxos_go.Store.{LlmCall}
use oryxos_go.Provider.Registry.{Registry, ChatModel, ResponseStream, bind_profiles}
use oryxos_go.Provider.Registry.Binding.{IsBound, bind_profiles-IsBound}
use oryxos_go.Provider.Service.{Service, ToolSchemaResolver, chat, call_metadata_from}
use oryxos_go.Provider.Service.Tools.{IsKept}
use oryxos_go.Provider.Service.Rows.{ChatCall, IsAccounted, chat-IsAccounted}
use oryxos_go.Provider.Stream.{AuditedStream, close}
use oryxos_go.Provider.Stream.Steps.{IsSeen}
use oryxos_go.Provider.Stream.Audit.{Op, drive, close-drive}
use oryxos_go.Tests.Fixtures.{live, no_redaction, helper}

abbrev World : Type 0
World = List LlmCall × ℕ

abbrev hello : Response
hello = record {
  message = text_message role_assistant "hello";
  usage = record { prompt_tokens = ℤ.pos 2; completion_tokens = ℤ.pos 1; total_tokens = ℤ.pos 3 };
  finish_reason = "stop";
}

abbrev upstream : ResponseStream World
upstream = record {
  recv = λ w. (ok (record no_event { kind = stream_event_completed; response = some hello }), w);
  close = λ w. (none, (w.0, suc w.1));
}

abbrev greeter : ChatModel World
greeter = record {
  generate = λ ctx request w. (ok hello, w);
  stream = λ ctx request w. (ok (some upstream), w);
}

abbrev resolver : ToolSchemaResolver World
resolver = record {
  info = λ ctx name w.
      (some (record { name = name; description = ""; input_schema = "{}"; extra = none }), w);
}

abbrev service : Service World
service = record {
  registry = record { factories = []; models = ("helper", greeter) ∷ [] };
  resolver = some resolver;
  recorder = λ ctx row w. (none, (w.0 ++ row ∷ [], w.1));
  now = λ w. (7000000, w);
}

bound_greeter :
    (name : String) {m : ChatModel World}
    → lookup name (("helper", greeter) ∷ []) ≡ some m
    → greeter ≡ m
bound_greeter name {m} h = elim (Bool-cases ("helper" === name)) [
  | inl same ↦ let found : some greeter ≡ some m = rw same at h in cc found
  | inr other ↦ let found : none ≡ some m = rw other at h in cc found
]

service-IsKept : IsKept (λ w. w.0) service
service-IsKept = record {
  info_rows = λ given h ctx name w.
      let same : resolver ≡ given = cc h in
      subst (λ (r : ToolSchemaResolver World). (r.info ctx name w).1.0 ≡ w.0) same refl;
  generate_rows = λ name m h ctx request w.
      subst (λ (c : ChatModel World). (c.generate ctx request w).1.0 ≡ w.0) (bound_greeter name h)
        refl;
  now_rows = λ w. refl;
  recorder_rows = λ ctx row w. refl;
}

abbrev greeting : ChatCall World
greeting = record { given = some live; session_id = "s1"; chosen = some helper; messages = [] }

chat-IsAccounted_example :
    IsAccounted no_redaction
      (λ w. w.0)
      service
      greeting
      ([], 0)
      (chat no_redaction (some service) (some live) "s1" (some helper) [] ([], 0))
chat-IsAccounted_example =
    chat-IsAccounted no_redaction (λ w. w.0) service service-IsKept greeting ([], 0)

replies_hello :
    (chat no_redaction (some service) (some live) "s1" (some helper) [] ([], 0)).0 ≡ (hello, none)
unfolding chat
replies_hello = refl

abbrev opened : AuditedStream World
opened = record {
  stream = upstream;
  service = service;
  ctx = live;
  metadata = call_metadata_from "s1" helper;
  started_at = 0;
  terminal = false;
  caller_closed = false;
  upstream_closed = false;
  upstream_close_err = none;
  close_result = none;
}

upstream-IsSeen : IsSeen (λ w. w.0) (λ w. w.1) upstream service
upstream-IsSeen = record {
  recv_rows = λ w. refl;
  recv_closes = λ w. refl;
  close_rows = λ w. refl;
  close_closes = λ w. refl;
  now_rows = λ w. refl;
  now_closes = λ w. refl;
  recorder_rows = λ ctx row w. refl;
  recorder_closes = λ ctx row w. refl;
}

abbrev calls : List Op
calls = Op.receives ∷ Op.receives ∷ Op.closes_stream ∷ Op.receives ∷ []

close-drive_example :
    let driven = drive no_redaction calls opened ([], 0) in
    let w' = (close no_redaction driven.0 driven.1).2 in (length w'.0 ≡ 1) × (w'.1 ≡ 1)
close-drive_example =
    close-drive no_redaction (λ w. w.0) (λ w. w.1) calls opened ([], 0) upstream-IsSeen refl refl
      refl

abbrev bare : Registry World
bare = record { factories = ("deepseek", λ ctx config w. (ok (some greeter), w)) ∷ []; models = [] }

abbrev declared : List ProviderDefinition
declared = record { name = "deepseek"; api_key = "k" } ∷ []

bind_profiles-IsBound_example :
    IsBound
      (helper ∷ [])
      (λ registry. registry)
      bare
      (bind_profiles no_redaction
        (λ registry. registry)
        (some bare)
        (some live)
        (some (helper ∷ []))
        declared
        ([], 0)).0
bind_profiles-IsBound_example =
    bind_profiles-IsBound no_redaction (λ registry. registry) bare (some live) (helper ∷ [])
      declared ([], 0)
