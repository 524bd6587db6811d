-- ===== src/Go/Effect.antt =====
-- Calls into code outside the repository. The state of that code is an unknown type `W`; a call
-- takes it and gives it back. A Go function with an error result returns a `Result`.
use oryxos_go.Common.{◌≡◌, refl, ◌⊎◌, inl, inr, String, Option, none, some}
use oryxos_go.Go.Error.{Error, wrap}

pub data Result {ℓ} (A : Type ℓ) : Type ℓ where
  ok : A → Result A
  err : Error → Result A

-- An error result that may be nil, beside a value that is only read without an error.
abbrev pub checked : {A : Type 0} → A → Option Error → Result A
checked a none = ok a
checked a (some e) = err e

-- `fmt.Errorf("prefix: %w", err)` where the call fails.
abbrev pub annotate : {A : Type 0} → String → Result A → Result A
annotate prefix (ok a) = ok a
annotate prefix (err e) = err (wrap prefix e)

-- A call failed or returned a value.
pub Result-cases {ℓ} :
    {V : Type ℓ} (called : Result V)
    → ((failure : Error) × (called ≡ err failure)) ⊎ ((value : V) × (called ≡ ok value))
Result-cases (err failure) = inl (failure, refl)
Result-cases (ok value) = inr (value, refl)

abbrev pub Eff : Type 0 → Type 0 → Type 0
Eff W A = W → A × W

abbrev pub Exec : Type 0 → Type 0 → Type 0
Exec W A = W → Result A × W

module _ {W A : Type 0} where
  abbrev pub pure : A → Exec W A
  pure a w = (ok a, w)

  abbrev pub raise : Error → Exec W A
  raise e w = (err e, w)

module _ {W A B : Type 0} where
  abbrev pub continue : Result A → (A → Exec W B) → Exec W B
  continue (ok a) f w = f a w
  continue (err e) f w = (err e, w)

  infixl 5 ◌>>=◌
  abbrev pub ◌>>=◌ : Exec W A → (A → Exec W B) → Exec W B
  ◌>>=◌ m f w = let (r, w') = m w in continue r f w'

-- correlation.go
pub record Correlation : Type 0 where
  pub request_id : String
  pub session_id : String
  pub profile_name : String
  pub channel : String
  pub schedule_id : String

-- A context: its correlation value, and what `ctx.Err()` answers in a state of the world.
pub record Context (W : Type 0) : Type 0 where
  pub correlation : Correlation
  pub cancelled : W → Option Error

-- `observability.WithCorrelation`
abbrev pub with_correlation : {W : Type 0} → Context W → Correlation → Context W
with_correlation ctx correlation = record ctx { correlation = correlation }

-- `context.WithoutCancel`
abbrev pub without_cancel : {W : Type 0} → Context W → Context W
without_cancel ctx = record ctx { cancelled = λ w. none }
