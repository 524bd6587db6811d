-- ===== src/Profile/Registry.antt =====
-- internal/profile/registry.go: the profiles of a directory by name.
use oryxos_go.Common.{
  ℕ, suc, String, Option, none, some, List, [], ◌∷◌, map, lookup, is_some, if◌then◌else◌, ◌≡◌, refl,
  ap,
}
use oryxos_go.Profile.{Profile}
use oryxos_go.Profile.Clone.{clone_profile, clone_profile-eq}

pub record ProfileRegistry : Type 0 where
  pub profiles : List (String × Profile)
  pub names : List String

abbrev clone_entry : String × Profile → String × Profile
unfolding clone_profile
clone_entry (name, p) = (name, clone_profile p)

-- `newRegistry`
unfoldable pub new_registry : List (String × Profile) → List String → ProfileRegistry
unfolding clone_entry
new_registry profiles names = record { profiles = map clone_entry profiles; names = names }

-- A copy of what was found.
abbrev clone_found : Option Profile → Option Profile
unfolding clone_profile
clone_found none = none
clone_found (some p) = some (clone_profile p)

-- `Get`; a registry that is none is nil.
unfoldable pub get_profile : Option ProfileRegistry → String → Option Profile
unfolding clone_found
get_profile none name = none
get_profile (some registry) name = clone_found (lookup name registry.profiles)

-- The number of the keys of a map.
unfoldable pub key_count : List (String × Profile) → ℕ
key_count [] = 0
key_count (entry ∷ entries) =
    let rest = key_count entries in if is_some (lookup entry.0 entries) then rest else suc rest

-- `Len`
unfoldable pub len : Option ProfileRegistry → ℕ
unfolding key_count
len none = 0
len (some registry) = key_count registry.profiles

abbrev list_names : ProfileRegistry → List String → List (Option Profile)
unfolding clone_found
list_names registry [] = []
list_names registry (name ∷ names) =
    clone_found (lookup name registry.profiles) ∷ list_names registry names

-- `List`; an entry that is none is a nil profile.
unfoldable pub list : Option ProfileRegistry → List (Option Profile)
unfolding list_names
list none = []
list (some registry) = list_names registry registry.names

map-clone_entry : (profiles : List (String × Profile)) → map clone_entry profiles ≡ profiles
unfolding clone_entry
map-clone_entry [] = refl
map-clone_entry (entry ∷ entries) =
    λ i. (entry.0, clone_profile-eq entry.1 i) ∷ map-clone_entry entries i

-- The copies do not change what the registry holds.
pub new_registry-eq :
    (profiles : List (String × Profile)) (names : List String)
    → new_registry profiles names ≡ record { profiles = profiles; names = names }
unfolding new_registry
new_registry-eq profiles names =
    λ i. record { profiles = map-clone_entry profiles i; names = names }

clone_found-eq : (found : Option Profile) → clone_found found ≡ found
unfolding clone_found
clone_found-eq none = refl
clone_found-eq (some p) = ap some (clone_profile-eq p)

pub get_profile-eq :
    (registry : ProfileRegistry) (name : String)
    → get_profile (some registry) name ≡ lookup name registry.profiles
unfolding get_profile
get_profile-eq registry name = clone_found-eq (lookup name registry.profiles)
