-- ===== src/Provider/Eino/RoundTrip.antt =====
-- internal/provider/eino_adapter.go: the conversion of a message to Eino and back.
use mathlib.Core.Path.{subst}
use oryxos_go.Common.{
  ◌≡◌, refl, ◌∙◌, ap, sym, ◌≢◌, String, some, List, [], ◌∷◌, map, true, false, Bool-cases, inl, inr,
  ◌===◌, if_false, ◌&&◌, ===_self, ===_ne, eq_iff,
}
use oryxos_go.Go.Effect.{ok, Result-cases}
use oryxos_go.Llm.{Message, ToolCall, role_system, role_user, role_assistant, role_tool}
use oryxos_go.Provider.Eino.{
  EinoRoles, EinoMessage, to_eino_call, from_eino_call, to_eino_role, from_eino_role,
  to_eino_message, from_eino_message, from_eino_message_with_role_mode, message_of, eino_of,
}

-- The four role names of the library differ from one another.
pub record IsDistinct (roles : EinoRoles) : Type 0 where
  pub system_user : roles.system ≢ roles.user
  pub system_assistant : roles.system ≢ roles.assistant
  pub system_tool : roles.system ≢ roles.tool
  pub user_assistant : roles.user ≢ roles.assistant
  pub user_tool : roles.user ≢ roles.tool
  pub assistant_tool : roles.assistant ≢ roles.tool

map-from_eino_call : (calls : List ToolCall) → map from_eino_call (map to_eino_call calls) ≡ calls
map-from_eino_call [] = refl
map-from_eino_call (call ∷ calls) = λ i. call ∷ map-from_eino_call calls i

module _ (roles : EinoRoles) (distinct : IsDistinct roles) where
  from_system : from_eino_role roles roles.system ≡ ok role_system
  unfolding from_eino_role
  from_system = rw (===_self roles.system, from_eino_role) refl

  from_user : from_eino_role roles roles.user ≡ ok role_user
  unfolding from_eino_role
  from_user =
      let apart_system : (roles.user === roles.system) ≡ false =
        ===_ne (λ e. distinct.system_user (sym e)) in
      rw (apart_system, ===_self roles.user, from_eino_role) refl

  from_assistant : from_eino_role roles roles.assistant ≡ ok role_assistant
  unfolding from_eino_role
  from_assistant =
      let apart_system : (roles.assistant === roles.system) ≡ false =
        ===_ne (λ e. distinct.system_assistant (sym e)) in
      let apart_user : (roles.assistant === roles.user) ≡ false =
        ===_ne (λ e. distinct.user_assistant (sym e)) in
      rw (apart_system, apart_user, ===_self roles.assistant, from_eino_role) refl

  from_tool : from_eino_role roles roles.tool ≡ ok role_tool
  unfolding from_eino_role
  from_tool =
      let apart_system : (roles.tool === roles.system) ≡ false =
        ===_ne (λ e. distinct.system_tool (sym e)) in
      let apart_user : (roles.tool === roles.user) ≡ false =
        ===_ne (λ e. distinct.user_tool (sym e)) in
      let apart_assistant : (roles.tool === roles.assistant) ≡ false =
        ===_ne (λ e. distinct.assistant_tool (sym e)) in
      rw (apart_system, apart_user, apart_assistant, ===_self roles.tool, from_eino_role) refl

  back :
      (role name eino converted : String)
      → (role === name) ≡ true
      → from_eino_role roles eino ≡ ok name
      → ok eino ≡ ok converted
      → from_eino_role roles converted ≡ ok role
  back role name eino converted is_name from h =
      let same : eino ≡ converted = cc h in
      let named : role ≡ name = (eq_iff role name).0 is_name in
      ap (from_eino_role roles) (sym same) ∙ from ∙ ap ok (sym named)

  from_eino_role-to_eino_role :
      (role converted : String)
      → to_eino_role roles role ≡ ok converted
      → from_eino_role roles converted ≡ ok role
  unfolding to_eino_role
  from_eino_role-to_eino_role role converted h = elim (Bool-cases (role === role_system)) [
    | inl is_system ↦
        back role role_system roles.system converted is_system from_system
          (rw (is_system, to_eino_role) at h)
    | inr no_system ↦ elim (Bool-cases (role === role_user)) [
      | inl is_user ↦
          back role role_user roles.user converted is_user from_user
            (rw (no_system, is_user, to_eino_role) at h)
      | inr no_user ↦ elim (Bool-cases (role === role_assistant)) [
        | inl is_assistant ↦
            back role role_assistant roles.assistant converted is_assistant from_assistant
              (rw (no_system, no_user, is_assistant, to_eino_role) at h)
        | inr no_assistant ↦ elim (Bool-cases (role === role_tool)) [
          | inl is_tool ↦
              back role role_tool roles.tool converted is_tool from_tool
                (rw (no_system, no_user, no_assistant, is_tool, to_eino_role) at h)
          | inr no_tool ↦
              let refused = rw (no_system, no_user, no_assistant, no_tool, to_eino_role) at h in
              cc refused
        ]
      ]
    ]
  ]

  no_mode : (role : String) → (role === "" && false) ≡ false
  no_mode role = elim (Bool-cases (role === "")) [
    | inl blank ↦ rw blank refl
    | inr filled ↦ rw filled refl
  ]

  from_eino_message_lem :
      (converted : EinoMessage) (role : String)
      → from_eino_role roles converted.role ≡ ok role
      → from_eino_message roles (some converted) ≡ ok (message_of converted role)
  unfolding from_eino_message from_eino_message_with_role_mode
  from_eino_message_lem converted role h = if_false (no_mode converted.role) _ _ ∙ rw h refl

  -- Where the role names of the library differ, a message that `toEinoMessage` accepts is given back
  -- unchanged by `fromEinoMessage`.
  pub from_eino_message-to_eino_message :
      (message : Message) (converted : EinoMessage)
      → to_eino_message roles message ≡ ok converted
      → from_eino_message roles (some converted) ≡ ok message
  unfolding to_eino_message
  from_eino_message-to_eino_message message converted h =
      elim (Result-cases (to_eino_role roles message.role)) [
        | inl (e, bad) ↦ let refused = rw (bad, to_eino_message) at h in cc refused
        | inr (role, good) ↦
            let same : ok (eino_of message role) ≡ ok converted = rw (good, to_eino_message) at h in
            let sent : eino_of message role ≡ converted = cc same in
            subst (λ (c : EinoMessage). from_eino_message roles (some c) ≡ ok message) sent
              (from_eino_message_lem (eino_of message role) message.role
                  (from_eino_role-to_eino_role message.role role good)
                ∙ (λ i.
                    ok (record message { tool_calls = map-from_eino_call message.tool_calls i })))
      ]
