-- ===== src/Config/Server/Accepts/Providers.antt =====
-- internal/config/load.go: which providers `validateProviders` accepts.
use oryxos_go.Common.{
  eq_iff, ℕ, suc, ◌≡◌, refl, ap, ◌⊎◌, inl, inr, String, List, [], ◌∷◌, map, true, false, not, ◌&&◌,
  ◌===◌, All, Distinct, if_elim, Bool-cases,
}
use oryxos_go.Go.Text.{trim_space, is_blank}
use oryxos_go.Config.{Configured, configured, and_then}
use oryxos_go.Config.Keys.{seen_in}
use oryxos_go.Config.Keys.Distinct.{Unseen, Unseen-split, Unseen-join, Unseen-none}
use oryxos_go.Config.Server.{
  ProviderDefinition, RawProviderDefinition, string_or_default, validate_provider,
  validate_providers_from, validate_providers,
}
use oryxos_go.Config.Server.Accepts.{Judged, accepts, rejects}

-- The name and the provider that stand for a definition.
abbrev pub provider_name : RawProviderDefinition → String
unfolding trim_space
provider_name raw = trim_space (string_or_default raw.name "")

abbrev pub provider_of : RawProviderDefinition → ProviderDefinition
provider_of raw = record { name = provider_name raw; api_key = string_or_default raw.api_key "" }

pub IsSupported : String → Type 0
IsSupported name = ((name === "deepseek") ≡ true) ⊎ ((name === "minimax") ≡ true)

-- A supported name, and a key that is not blank.
pub IsProvider : RawProviderDefinition → Type 0
unfolding is_blank trim_space
IsProvider raw =
    IsSupported (provider_name raw) × (is_blank (string_or_default raw.api_key "") ≡ false)

-- Every definition is a provider, and no name stands twice.
pub AreProviders : List RawProviderDefinition → Type 0
unfolding IsProvider
AreProviders raws = All IsProvider raws × Distinct (map provider_name raws)

-- So after the names `seen`.
abbrev AreProvidersAfter : List String → List RawProviderDefinition → Type 0
AreProvidersAfter seen raws =
    All IsProvider raws × Unseen seen (map provider_name raws) × Distinct (map provider_name raws)

supported_named : (name : String) → IsSupported name → (name === "") ≡ false
unfolding IsSupported
supported_named name (inl h) = rw ((eq_iff name "deepseek").0 h) refl
supported_named name (inr h) = rw ((eq_iff name "minimax").0 h) refl

unsupported :
    (name : String)
    → (not (name === "deepseek") && not (name === "minimax")) ≡ true
    → ¬ IsSupported name
unfolding IsSupported
unsupported name h (inl d) = cc (rw d at h)
unsupported name h (inr m) = elim (Bool-cases (name === "deepseek")) [
  | inl d ↦ cc (rw d at h)
  | inr o ↦ cc (rw (o, m) at h)
]

supported :
    (name : String)
    → (not (name === "deepseek") && not (name === "minimax")) ≡ false
    → IsSupported name
unfolding IsSupported
supported name h = elim (Bool-cases (name === "deepseek")) [
  | inl d ↦ inl d
  | inr o ↦ elim (Bool-cases (name === "minimax")) [
    | inl m ↦ inr m
    | inr other ↦ cc (rw (o, other) at h)
  ]
]

followed :
    (seen : List String) (raw : RawProviderDefinition) (raws : List RawProviderDefinition)
    (rest : Configured (List ProviderDefinition))
    → seen_in (provider_name raw) seen ≡ false
    → IsProvider raw
    → Judged
        (AreProvidersAfter (provider_name raw ∷ seen) raws)
        (λ ps. ps ≡ map provider_of raws)
        rest
    → Judged
        (AreProvidersAfter seen (raw ∷ raws))
        (λ ps. ps ≡ map provider_of (raw ∷ raws))
        (and_then rest (λ providers. configured (provider_of raw ∷ providers)))
followed seen raw raws _ new good (accepts ps (all_good, unseen, distinct) same) =
    let (others, all_unseen) =
      Unseen-split (provider_name raw) seen (map provider_name raws) unseen in
    accepts _ ((good, all_good), (new, all_unseen), (others, distinct))
      (ap (λ (qs : List ProviderDefinition). provider_of raw ∷ qs) same)
followed seen raw raws _ new good (rejects e bad) =
    rejects e (λ (q : AreProvidersAfter seen (raw ∷ raws)).
      bad (q.0.1, Unseen-join (provider_name raw) seen (map provider_name raws) q.2.0 q.1.1, q.2.1))

validate_provider-Judged :
    (index : ℕ) (seen : List String) (raw : RawProviderDefinition)
    (raws : List RawProviderDefinition) (rest : Configured (List ProviderDefinition))
    → Judged
        (AreProvidersAfter (provider_name raw ∷ seen) raws)
        (λ ps. ps ≡ map provider_of raws)
        rest
    → Judged
        (AreProvidersAfter seen (raw ∷ raws))
        (λ ps. ps ≡ map provider_of (raw ∷ raws))
        (validate_provider index seen raw rest)
unfolding validate_provider IsProvider
validate_provider-Judged index seen raw raws rest judged =
    if_elim P (provider_name raw === "") _ _
      (λ h. rejects _ (λ (q : Q). cc (h, supported_named (provider_name raw) (q.0.0.0))))
      (λ named.
        if_elim P (not (provider_name raw === "deepseek") && not (provider_name raw === "minimax"))
          _ _ (λ h. rejects _ (λ (q : Q). unsupported (provider_name raw) h (q.0.0.0)))
          (λ known.
            if_elim P (seen_in (provider_name raw) seen) _ _
              (λ h. rejects _ (λ (q : Q). cc (h, q.1.0)))
              (λ new.
                if_elim P (is_blank (string_or_default raw.api_key "")) _ _
                  (λ h. rejects _ (λ (q : Q). cc (h, q.0.0.1)))
                  (λ keyed.
                    followed seen raw raws rest new (supported (provider_name raw) known, keyed)
                      judged))))
  where
    Q : Type 0
    Q = AreProvidersAfter seen (raw ∷ raws)

    P : Configured (List ProviderDefinition) → Type 0
    P out = Judged Q (λ ps. ps ≡ map provider_of (raw ∷ raws)) out

validate_providers_from-Judged :
    (index : ℕ) (seen : List String) (raws : List RawProviderDefinition)
    → Judged
        (AreProvidersAfter seen raws)
        (λ ps. ps ≡ map provider_of raws)
        (validate_providers_from index seen raws)
unfolding validate_providers_from
validate_providers_from-Judged index seen [] = accepts [] (tt, tt, tt) refl
validate_providers_from-Judged index seen (raw ∷ raws) =
    validate_provider-Judged index seen raw raws _
      (validate_providers_from-Judged (suc index) (provider_name raw ∷ seen) raws)

without_seen :
    (raws : List RawProviderDefinition) (out : Configured (List ProviderDefinition))
    → Judged (AreProvidersAfter [] raws) (λ ps. ps ≡ map provider_of raws) out
    → Judged (AreProviders raws) (λ ps. ps ≡ map provider_of raws) out
unfolding AreProviders
without_seen raws _ (accepts ps q same) = accepts ps (q.0, q.2) same
without_seen raws _ (rejects e bad) =
    rejects e (λ q. bad (q.0, Unseen-none (map provider_name raws), q.1))

pub validate_providers-Judged :
    (raws : List RawProviderDefinition)
    → Judged (AreProviders raws) (λ ps. ps ≡ map provider_of raws) (validate_providers raws)
unfolding validate_providers
validate_providers-Judged raws = without_seen raws _ (validate_providers_from-Judged 0 [] raws)
