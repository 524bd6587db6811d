-- ===== src/Config/Load/Sound.antt =====
-- internal/config/load.go: what `LoadServerYAML` gives, from the bytes to the configuration.
use mathlib.Core.Path.{subst}
use oryxos_go.Common.{
  ◌⊎◌, inl, inr, ◌≡◌, refl, String, Option, none, some, [], Option-cases, if_elim,
}
use oryxos_go.Go.Error.{Sentinel, is}
use oryxos_go.Config.{
  ConfigError, Configured, configured, rejected, and_then, unless_error, Node, absent, document,
  sequence, mapping, scalar, alias,
}
use oryxos_go.Config.Keys.{reject_duplicate_keys}
use oryxos_go.Config.Keys.Distinct.{HasDistinctKeys, reject_duplicate_keys-HasDistinctKeys}
use oryxos_go.Config.Expand.{expand_scalars}
use oryxos_go.Config.Shape.{validate_yaml_shape}
use oryxos_go.Config.Server.{RawServerConfig, ServerConfig}
use oryxos_go.Config.Server.Accepts.{Judged, accepts, rejects}
use oryxos_go.Config.Server.Accepts.Complete.{
  IsAcceptable, IsConfigOf, validate_server_config-Judged,
}
use oryxos_go.Config.Load.{
  prepare_present, YamlLibrary, is_eof, no_document, decode_single_document, decode_strict_raw,
  prepare, load_server_yaml,
}

-- What holds of the value, if there is one.
abbrev pub Holds : {A : Type 0} → (A → Type 0) → Configured A → Type 0
Holds P (configured a) = P a
Holds P (rejected e) = Unit

and_then-Holds :
    {A B : Type 0} (P : A → Type 0) (P' : B → Type 0) (m : Configured A) (f : A → Configured B)
    → Holds P m
    → ((a : A) → P a → Holds P' (f a))
    → Holds P' (and_then m f)
and_then-Holds P P' (configured a) f h next = next a h
and_then-Holds P P' (rejected e) f h next = tt

-- After a test that passed.
unless_error-Holds :
    {A : Type 0} (P : A → Type 0) (test : Option ConfigError) (m : Configured A)
    → (test ≡ none → Holds P m)
    → Holds P (unless_error test m)
unless_error-Holds P none m h = h refl
unless_error-Holds P (some e) m h = tt

trivial : {A : Type 0} (out : Configured A) → Holds (λ a. Unit {0}) out
trivial (configured a) = tt
trivial (rejected e) = tt

module _ (yaml : YamlLibrary) where
  decode_single_document-eq :
      (text : String)
      → Holds (λ root. root ≡ (yaml.decode text).0) (decode_single_document yaml text)
  unfolding decode_single_document no_document
  decode_single_document-eq text =
      if_elim (Holds (λ root. root ≡ (yaml.decode text).0)) (is_eof (yaml.decode text).1)
        (no_document (yaml.decode_trailing text) (yaml.decode text).0) _
        (λ h. elim (Option-cases (yaml.decode_trailing text)) [
          | inl eq ↦ rw eq tt
          | inr (e, eq) ↦ rw eq (
              if_elim (Holds (λ root. root ≡ (yaml.decode text).0)) (is e Sentinel.eof) _ _
                (λ h'. refl) (λ h'. tt))
        ])
        (λ h. tt)

  prepare_present-HasDistinctKeys :
      (lookup_env : Option (String → Option String)) (root : Node)
      → Holds (λ expanded. HasDistinctKeys root) (prepare_present yaml lookup_env root)
  unfolding prepare_present
  prepare_present-HasDistinctKeys lookup_env root =
      unless_error-Holds (λ expanded. HasDistinctKeys root) (reject_duplicate_keys root []) _
        (λ h.
          let distinct = (reject_duplicate_keys-HasDistinctKeys root []).0 h in
          and_then-Holds {A = Node} (λ expanded. Unit {0}) (λ expanded. HasDistinctKeys root) _ _
            (trivial (expand_scalars lookup_env root []))
            (λ expanded k.
              unless_error-Holds (λ expanded'. HasDistinctKeys root) (validate_yaml_shape expanded)
                _ (λ passed. distinct)))

  -- A document is missing, or has no duplicate keys.
  pub IsUnambiguous : Node → Type 0
  IsUnambiguous root = (root ≡ absent) ⊎ HasDistinctKeys root

  weaken :
      (root : Node) (out : Configured Node)
      → Holds (λ expanded. HasDistinctKeys root) out
      → Holds (λ expanded. IsUnambiguous root) out
  unfolding IsUnambiguous
  weaken root (configured expanded) h = inr h
  weaken root (rejected e) h = tt

  prepare-IsUnambiguous :
      (lookup_env : Option (String → Option String)) (root : Node)
      → Holds (λ expanded. IsUnambiguous root) (prepare yaml lookup_env root)
  unfolding prepare IsUnambiguous
  prepare-IsUnambiguous lookup_env absent = inl refl
  prepare-IsUnambiguous lookup_env (document nodes) =
      weaken (document nodes) _ (prepare_present-HasDistinctKeys lookup_env (document nodes))
  prepare-IsUnambiguous lookup_env (sequence line nodes) =
      weaken (sequence line nodes) _
        (prepare_present-HasDistinctKeys lookup_env (sequence line nodes))
  prepare-IsUnambiguous lookup_env (mapping line pairs) =
      weaken (mapping line pairs) _
        (prepare_present-HasDistinctKeys lookup_env (mapping line pairs))
  prepare-IsUnambiguous lookup_env (scalar line tag value) =
      weaken (scalar line tag value) _
        (prepare_present-HasDistinctKeys lookup_env (scalar line tag value))
  prepare-IsUnambiguous lookup_env (alias line value) =
      weaken (alias line value) _ (prepare_present-HasDistinctKeys lookup_env (alias line value))

  -- A configuration of acceptable settings.
  pub IsSettled : ServerConfig → Type 0
  IsSettled config =
      (settings : RawServerConfig) × IsAcceptable yaml.parse_duration settings
      × IsConfigOf yaml.parse_duration settings config

  judged-Holds :
      (root : Node) (raw : RawServerConfig) (out : Configured ServerConfig)
      → IsUnambiguous root
      → Judged (IsAcceptable yaml.parse_duration raw) (IsConfigOf yaml.parse_duration raw) out
      → Holds (λ config. IsUnambiguous root × IsSettled config) out
  unfolding IsSettled
  judged-Holds root raw _ h (accepts config q p) = (h, (raw, q, p))
  judged-Holds root raw _ h (rejects e bad) = tt

  -- Where `LoadServerYAML` gives a configuration, no mapping of the document that was decoded has a
  -- key twice (or there is no document), and the configuration is made of acceptable settings: it has
  -- an address with a host and a port from 1 to 65535, a known log format, timeouts greater than zero
  -- and distinct supported providers with a key.
  pub load_server_yaml-IsSettled :
      (lookup_env : Option (String → Option String)) (text : String)
      → Holds
          (λ config. IsUnambiguous (yaml.decode text).0 × IsSettled config)
          (load_server_yaml yaml lookup_env text)
  unfolding load_server_yaml
  load_server_yaml-IsSettled lookup_env text =
      and_then-Holds (λ root. root ≡ (yaml.decode text).0) target _ _
        (decode_single_document-eq text)
        (λ root same.
          and_then-Holds (λ expanded. IsUnambiguous root) target _ _
            (prepare-IsUnambiguous lookup_env root)
            (λ expanded unambiguous.
              and_then-Holds (λ raw. Unit {0}) target _ _
                (trivial (decode_strict_raw yaml expanded))
                (λ raw k.
                  judged-Holds (yaml.decode text).0 raw _ (subst IsUnambiguous same unambiguous)
                    (validate_server_config-Judged yaml.parse_duration raw))))
    where
      target : ServerConfig → Type 0
      target config = IsUnambiguous (yaml.decode text).0 × IsSettled config
