-- ===== src/Config/Server/Accepts.antt =====
-- internal/config/load.go: which settings `validateServerConfig` accepts.
pub mod Providers
pub mod Complete
use oryxos_go.Common.{
  ◌≤◌, ◌≡◌, refl, ◌⊎◌, inl, inr, String, Option, none, some, true, false, ◌&&◌, leb, ◌===◌, if_elim,
  Bool-cases, arith,
}
use oryxos_go.Common.Int.{ℤ, is_positive}
use oryxos_go.Go.Parse.{atoi}
use oryxos_go.Go.Effect.{Result, ok, err}
use oryxos_go.Config.{ConfigError, Configured, configured, rejected, and_then, unless_error}
use oryxos_go.Config.Server.{validate_port, validate_host, validate_log_format, positive_duration}

-- A test that passes exactly under the condition.
pub data Tested (Q : Type 0) : Option ConfigError → Type 0 where
  passes : Q → Tested Q none
  fails : (e : ConfigError) → ¬ Q → Tested Q (some e)

-- A value that is given exactly under the condition, and what holds of it.
pub data Judged {A : Type 0} (Q : Type 0) (P : A → Type 0) : Configured A → Type 0 where
  accepts : (a : A) → Q → P a → Judged Q P (configured a)
  rejects : (e : ConfigError) → ¬ Q → Judged Q P (rejected e)

under :
    {A : Type 0} (Q Q' : Type 0) (P : A → Type 0) (out : Configured A)
    → Q
    → Judged Q' P out
    → Judged (Q × Q') P out
under Q Q' P _ q (accepts a q' p) = accepts a (q, q') p
under Q Q' P _ q (rejects e bad) = rejects e (λ (q'' : Q × Q'). bad q''.1)

pub unless_error-Judged :
    {A : Type 0} (Q Q' : Type 0) (P : A → Type 0) (test : Option ConfigError) (m : Configured A)
    → Tested Q test
    → (Q → Judged Q' P m)
    → Judged (Q × Q') P (unless_error test m)
unless_error-Judged Q Q' P _ m (passes q) next = under Q Q' P m q (next q)
unless_error-Judged Q Q' P _ m (fails e bad) next = rejects e (λ (q : Q × Q'). bad q.0)

pub and_then-Judged :
    {A B : Type 0} (Q Q' : Type 0) (P : A → Type 0) (P' : B → Type 0) (m : Configured A)
    (f : A → Configured B)
    → Judged Q P m
    → ((a : A) → P a → Judged Q' P' (f a))
    → Judged (Q × Q') P' (and_then m f)
and_then-Judged Q Q' P P' _ f (accepts a q p) next = under Q Q' P' (f a) q (next a p)
and_then-Judged Q Q' P P' _ f (rejects e bad) next = rejects e (λ (q : Q × Q'). bad q.0)

-- A port from 1 to 65535.
pub IsPort : Result ℤ → Type 0
IsPort (err e) = ⊥
IsPort (ok (ℤ.pos n)) = (1 ≤ n) × (n ≤ 65535)
IsPort (ok (ℤ.negsuc n)) = ⊥

-- A host that is not empty, and a port.
pub IsHostPort : Result (String × String) → Type 0
unfolding atoi
IsHostPort (err e) = ⊥
IsHostPort (ok (host, port)) = ((host === "") ≡ false) × IsPort (atoi port)

pub IsLogFormat : String → Type 0
IsLogFormat log_format = ((log_format === "console") ≡ true) ⊎ ((log_format === "json") ≡ true)

-- A duration greater than zero.
pub IsDuration : Result ℤ → Type 0
IsDuration (err e) = ⊥
IsDuration (ok duration) = is_positive duration ≡ true

pub validate_port-Tested : (number : Result ℤ) → Tested (IsPort number) (validate_port number)
unfolding IsPort
validate_port-Tested (err e) = fails _ (λ h. h)
validate_port-Tested (ok (ℤ.negsuc n)) = fails _ (λ h. h)
validate_port-Tested (ok (ℤ.pos n)) =
    if_elim (Tested ((1 ≤ n) × (n ≤ 65535))) (leb 1 n && leb n 65535) none _
      (λ h. passes (grind (arith, h), grind (arith, h)))
      (λ h. fails _ (λ (lower, upper). grind (arith, h, lower, upper)))

pub validate_host-Tested :
    (found : Result (String × String)) → Tested (IsHostPort found) (validate_host found)
unfolding IsHostPort validate_host
validate_host-Tested (err e) = fails _ (λ h. h)
validate_host-Tested (ok (host, port)) =
    if_elim (Tested (((host === "") ≡ false) × IsPort (atoi port))) (host === "") _ _
      (λ h. fails _ (λ (q : ((host === "") ≡ false) × IsPort (atoi port)). cc (h, q.0)))
      (λ h. under_test h (validate_port-Tested (atoi port)))
  where
    under_test :
        {out : Option ConfigError}
        → (host === "") ≡ false
        → Tested (IsPort (atoi port)) out
        → Tested (((host === "") ≡ false) × IsPort (atoi port)) out
    under_test h (passes q) = passes (h, q)
    under_test h (fails e bad) =
        fails e (λ (q : ((host === "") ≡ false) × IsPort (atoi port)). bad q.1)

pub validate_log_format-Tested :
    (log_format : String) → Tested (IsLogFormat log_format) (validate_log_format log_format)
unfolding IsLogFormat validate_log_format
validate_log_format-Tested log_format = elim (Bool-cases (log_format === "console")) [
  | inl console ↦ rw console (passes (inl refl))
  | inr other ↦ elim (Bool-cases (log_format === "json")) [
    | inl json ↦ rw (other, json) (passes (inr refl))
    | inr neither ↦ rw (other, neither) (fails _ (λ h. elim h [ inl c ↦ cc | inr j ↦ cc ]))
  ]
]

pub positive_duration-Judged :
    (path : String) (found : Result ℤ)
    → Judged
        (IsDuration found)
        (λ d. (found ≡ ok d) × (is_positive d ≡ true))
        (positive_duration path found)
unfolding IsDuration positive_duration
positive_duration-Judged path (err e) = rejects _ (λ h. h)
positive_duration-Judged path (ok d) =
    if_elim (Judged (is_positive d ≡ true) (λ d'. (ok d ≡ ok d') × (is_positive d' ≡ true)))
      (is_positive d) _ _ (λ h. accepts d h (refl, h)) (λ h. rejects _ (λ q. cc (h, q)))
