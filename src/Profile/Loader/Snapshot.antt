-- ===== src/Profile/Loader/Snapshot.antt =====
-- internal/profile/loader.go and registry.go: what the registry of a directory holds.
use mathlib.Core.Path.{subst}
use oryxos_go.Go.Scan.{sort_texts, length-sort_texts}
use oryxos_go.Common.{
  Distinct, sym, ℕ, suc, ◌+◌, ◌≡◌, refl, ◌∙◌, ◌≢◌, arith, String, Option, none, some, Option-cases,
  List, [], ◌∷◌, inl, inr, length, length-append, All, lookup, if_elim,
}
use oryxos_go.Go.Error.{Error, Redaction, Sentinel, is, wrap}
use oryxos_go.Go.Effect.{Result, ok, err}
use oryxos_go.Profile.{Profile, RawProfile}
use oryxos_go.Profile.Validate.Valid.{
  IsValid, IsValidated, accepted, refused, validate_profile-IsValidated,
}
use oryxos_go.Profile.Registry.{
  ProfileRegistry, get_profile, len, new_registry, new_registry-eq, get_profile-eq,
}
use oryxos_go.Profile.Loader.{
  Files, DirEntry, Loading, Diagnostic, no_profiles, loaded, load_paths, load_file, read_text,
  load_text, decoded, one_document, load_directory, read_entries, yaml_paths,
}
use oryxos_go.Profile.Loader.Index.{IsIndex, empty-IsIndex, insert-IsIndex}

-- A registry has a valid profile under each of its distinct names, that of the profile, and under no
-- other; its length counts them.
pub record IsSnapshot (declared : List String) (registry : ProfileRegistry) : Type 0 where
  pub distinct : Distinct registry.names
  pub bound :
      All
        (λ (name : String).
          (p : Profile) × (lookup name registry.profiles ≡ some p)
          × (p.name ≡ name)
          × IsValid declared p)
        registry.names
  pub found : (name : String) → get_profile (some registry) name ≡ lookup name registry.profiles
  pub others :
      (name : String)
      → All (λ (n : String). n ≢ name) registry.names
      → get_profile (some registry) name ≡ none
  pub count : len (some registry) ≡ length registry.names

pub data IsSound (declared : List String) : Result Profile → Type 0 where
  unreadable : (e : Error) → IsSound declared (err e)
  sound : (p : Profile) → IsValid declared p → IsSound declared (ok p)

validated-IsSound :
    (raw : RawProfile) (declared : List String) (out : Result Profile)
    → IsValidated raw declared out
    → IsSound declared out
validated-IsSound raw declared _ (accepted valid) = sound _ valid
validated-IsSound raw declared _ (refused e bad) = unreadable e

snapshot :
    {declared : List String} (profiles : List (String × Profile)) (names : List String)
    → IsIndex declared profiles names
    → IsSnapshot declared (record { profiles = profiles; names = names })
unfolding len
snapshot profiles names index = record {
  distinct = index.distinct;
  bound = index.bound;
  found = λ name. get_profile-eq _ name;
  others = λ name h. get_profile-eq _ name ∙ index.others name h;
  count = index.count;
}

-- The state of the loop after `handled` paths: each gave a profile or a diagnostic.
record IsLoading (declared : List String) (handled : ℕ) (state : Loading) : Type 0 where
  index : IsIndex declared state.profiles state.names
  handled_eq : length state.names + length state.diagnostics ≡ handled

-- The outcome of `LoadDirectory` where reading the directory gives `listing`.
pub data IsLoaded (declared : List String) (join_path : String → String)
    (listing : Result (List DirEntry)) : Result (ProfileRegistry × List Diagnostic) → Type 0 where
  unlisted :
      (e : Error)
      → listing ≡ err e
      → IsLoaded declared join_path listing (err (wrap "read profile directory" e))
  listed :
      (entries : List DirEntry) (registry : ProfileRegistry) (diagnostics : List Diagnostic)
      → listing ≡ ok entries
      → IsSnapshot declared registry
      → length registry.names + length diagnostics ≡ length (yaml_paths join_path entries)
      → IsLoaded declared join_path listing (ok (registry, diagnostics))

module _ {W : Type 0} (redaction : Redaction) (files : Files W) (declared : List String) where
  one_document-IsSound :
      (raw : RawProfile) (next : Option Error) → IsSound declared (one_document raw declared next)
  unfolding one_document
  one_document-IsSound raw none = unreadable _
  one_document-IsSound raw (some e) =
      if_elim (λ out. IsSound declared out) (is e Sentinel.eof) _ _
        (λ h. validated-IsSound raw declared _ (validate_profile-IsValidated raw declared))
        (λ h. unreadable _)

  decoded-IsSound :
      (text : String) (found : Result RawProfile)
      → IsSound declared (decoded redaction files declared text found)
  unfolding decoded
  decoded-IsSound text (err e) = unreadable _
  decoded-IsSound text (ok raw) = one_document-IsSound raw (files.decode_next text)

  load_text-IsSound :
      (text : Result String) → IsSound declared (load_text redaction files declared text)
  unfolding load_text
  load_text-IsSound (err e) = unreadable _
  load_text-IsSound (ok text) = decoded-IsSound text (files.decode text)

  read_text-IsSound :
      (text : Result String) → IsSound declared (read_text redaction files declared text)
  unfolding read_text
  read_text-IsSound (err e) = unreadable _
  read_text-IsSound (ok text) = load_text-IsSound _

  loaded_loading :
      (handled : ℕ) (state : Loading) (path : String) (found : Result Profile)
      → IsSound declared found
      → IsLoading declared handled state
      → IsLoading declared (suc handled) (loaded redaction files declared state path found)
  unfolding loaded
  loaded_loading handled state path _ (unreadable e) loading = record {
    index = loading.index;
    handled_eq = omega (
      arith,
      loading.handled_eq,
      length-append {0} state.diagnostics (record { path = path; cause = some e } ∷ []),
    );
  }
  loaded_loading handled state path _ (sound p valid) loading =
      elim (Option-cases (lookup p.name state.profiles)) [
        | inl missing ↦ rw missing (record {
          index = insert-IsIndex declared state.profiles state.names p loading.index valid missing;
          handled_eq =
              omega (arith, loading.handled_eq, length-append {0} state.names (p.name ∷ []));
        })
        | inr (q, there) ↦ rw there (record {
          index = loading.index;
          handled_eq =
              omega (arith, loading.handled_eq, length-append {0} state.diagnostics (_ ∷ []));
        })
      ]

  load_paths_loading :
      (paths : List String) (handled : ℕ) (state : Loading) (w : W)
      → IsLoading declared handled state
      → IsLoading declared
          (handled + length paths)
          (load_paths redaction files declared paths state w).0
  unfolding load_paths load_file
  load_paths_loading [] handled state w loading = record {
    index = loading.index;
    handled_eq = omega (arith, loading.handled_eq);
  }
  load_paths_loading (path ∷ paths) handled state w loading =
      let (text, w') = files.read_file path w in
      let next =
        load_paths_loading paths (suc handled)
          (loaded redaction files declared state path (read_text redaction files declared text)) w'
          (loaded_loading handled state path _ (read_text-IsSound text) loading) in
      let sum : suc handled + length paths ≡ handled + length (path ∷ paths) = omega arith in
      subst
        (λ (n : ℕ).
          IsLoading declared n (load_paths redaction files declared (path ∷ paths) state w).0)
        sum next

  read_entries_lem :
      (directory : String) (listing : Result (List DirEntry)) (w : W)
      → IsLoaded declared
          (files.join_path directory)
          listing
          (read_entries redaction files declared directory listing w).0
  unfolding read_entries
  read_entries_lem directory (err e) w = unlisted e refl
  read_entries_lem directory (ok entries) w =
      let paths = yaml_paths (files.join_path directory) entries in
      let state = (load_paths redaction files declared (sort_texts paths) no_profiles w).0 in
      let loading =
        load_paths_loading (sort_texts paths) 0 no_profiles w
          (record { index = empty-IsIndex declared; handled_eq = refl }) in
      let same = new_registry-eq state.profiles state.names in
      listed entries (new_registry state.profiles state.names) state.diagnostics refl
        (subst (λ (r : ProfileRegistry). IsSnapshot declared r) (sym same)
          (snapshot state.profiles state.names loading.index))
        (rw same (omega (arith, loading.handled_eq, length-sort_texts paths)))

  -- `LoadDirectory` either fails because the directory cannot be read, or gives a registry and
  -- diagnostics, of which there are together as many as YAML files in the directory. The names of the
  -- registry are distinct and each has a valid profile of that name; no other name has one; `Len`
  -- counts the names.
  pub load_directory-IsLoaded :
      (directory : String) (w : W)
      → IsLoaded declared
          (files.join_path directory)
          (files.read_dir directory w).0
          (load_directory redaction files declared directory w).0
  unfolding load_directory
  load_directory-IsLoaded directory w =
      let (listing, w') = files.read_dir directory w in read_entries_lem directory listing w'
