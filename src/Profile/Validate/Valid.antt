-- ===== src/Profile/Validate/Valid.antt =====
-- internal/profile/loader.go: what holds of a profile that `validateProfile` returns, and which forms
-- it accepts.
use oryxos_go.Common.{◌≡◌, refl, String, List, Bool, true, false, not, ◌===◌, if_elim}
use oryxos_go.Common.Int.{is_positive}
use oryxos_go.Go.Error.{Error}
use oryxos_go.Go.Effect.{Result, ok, err}
use oryxos_go.Profile.{Profile, RawProfile}
use oryxos_go.Profile.Validate.{declared_in, is_finite, valid_profile, validate_profile}

-- A profile that the rest of the program can use.
pub record IsValid (declared : List String) (p : Profile) : Type 0 where
  pub named : (p.name === "") ≡ false
  pub provided : (p.provider.name === "") ≡ false
  pub declared_eq : declared_in declared p.provider.name ≡ true
  pub modelled : (p.provider.model === "") ≡ false
  pub finite : is_finite p.provider.temperature ≡ true
  pub iterates : is_positive p.settings.max_iterations ≡ true
  pub remembers : is_positive p.settings.max_history_turns ≡ true

-- The outcome of a validation.
pub data IsValidated (raw : RawProfile) (declared : List String) : Result Profile → Type 0 where
  accepted :
      IsValid declared (valid_profile raw) → IsValidated raw declared (ok (valid_profile raw))
  refused : (e : Error) → ¬ IsValid declared (valid_profile raw) → IsValidated raw declared (err e)

is_true : (b : Bool) → not b ≡ false → b ≡ true
is_true true h = refl
is_true false h = cc

is_false : (b : Bool) → not b ≡ true → b ≡ false
is_false true h = cc
is_false false h = refl

-- `validateProfile` accepts a form exactly where the profile made of it is valid: its name, provider
-- and model are not blank, its provider is declared, its temperature is a finite number, and its two
-- limits are positive. It then returns that profile, with spaces trimmed and the defaults filled in.
pub validate_profile-IsValidated :
    (raw : RawProfile) (declared : List String)
    → IsValidated raw declared (validate_profile raw declared)
unfolding validate_profile valid_profile
validate_profile-IsValidated raw declared =
    if_elim P _ _ _ (λ h. refused _ (λ v. cc (h, v.named)))
      (λ named.
        if_elim P _ _ _ (λ h. refused _ (λ v. cc (h, v.provided)))
          (λ provided.
            if_elim P _ _ _ (λ h. refused _ (λ v. cc (is_false _ h, v.declared_eq)))
              (λ declared_eq.
                if_elim P _ _ _ (λ h. refused _ (λ v. cc (h, v.modelled)))
                  (λ modelled.
                    if_elim P _ _ _ (λ h. refused _ (λ v. cc (is_false _ h, v.finite)))
                      (λ finite.
                        if_elim P _ _ _ (λ h. refused _ (λ v. cc (is_false _ h, v.iterates)))
                          (λ iterates.
                            if_elim P _ _ _ (λ h. refused _ (λ v. cc (is_false _ h, v.remembers)))
                              (λ remembers. accepted (record {
                                named = named;
                                provided = provided;
                                declared_eq = is_true _ declared_eq;
                                modelled = modelled;
                                finite = is_true _ finite;
                                iterates = is_true _ iterates;
                                remembers = is_true _ remembers;
                              }))))))))
  where
    P : Result Profile → Type 0
    P out = IsValidated raw declared out
