-- ===== src/Profile/Clone.antt =====
-- internal/profile/loader.go and registry.go: the copies of a profile and of its channels. The copy of
-- a list of texts or structs is the list.
use oryxos_go.Common.{◌≡◌, refl, ap, Option, none, some, List, [], ◌∷◌, map}
use oryxos_go.Go.Json.{Value, Elements, Members}
use oryxos_go.Profile.{Profile, ChannelConfig}

-- `cloneConfigValue`
mutual
  pub clone_config_value : Value → Value
  clone_config_value (Value.object fields) = Value.object (clone_config_members fields)
  clone_config_value (Value.array items) = Value.array (clone_config_elements items)
  clone_config_value (Value.boolean b) = Value.boolean b
  clone_config_value (Value.number digits) = Value.number digits
  clone_config_value (Value.text s) = Value.text s
  clone_config_value Value.null = Value.null

  pub clone_config_elements : Elements → Elements
  clone_config_elements Elements.no_element = Elements.no_element
  clone_config_elements (Elements.element v vs) =
      Elements.element (clone_config_value v) (clone_config_elements vs)

  pub clone_config_members : Members → Members
  clone_config_members Members.no_member = Members.no_member
  clone_config_members (Members.member k v fs) =
      Members.member k (clone_config_value v) (clone_config_members fs)

pub clone_channel : ChannelConfig → ChannelConfig
unfolding clone_config_value
clone_channel channel = record channel {
  config = elim channel.config [ none ↦ none | some given ↦ some (clone_config_members given) ];
}

-- `cloneChannels`
unfoldable pub clone_channels : List ChannelConfig → List ChannelConfig
clone_channels channels = map clone_channel channels

-- `cloneProfile`, of a profile that is not nil.
unfoldable pub clone_profile : Profile → Profile
unfolding clone_channels clone_channel clone_config_value
clone_profile source = record source { channels = clone_channels source.channels }

mutual
  unfolding clone_config_value

  clone_config_value-eq : (v : Value) → clone_config_value v ≡ v
  clone_config_value-eq (Value.object fields) = ap Value.object (clone_config_members-eq fields)
  clone_config_value-eq (Value.array items) = ap Value.array (clone_config_elements-eq items)
  clone_config_value-eq (Value.boolean b) = refl
  clone_config_value-eq (Value.number digits) = refl
  clone_config_value-eq (Value.text s) = refl
  clone_config_value-eq Value.null = refl

  clone_config_elements-eq : (vs : Elements) → clone_config_elements vs ≡ vs
  clone_config_elements-eq Elements.no_element = refl
  clone_config_elements-eq (Elements.element v vs) =
      λ i. Elements.element (clone_config_value-eq v i) (clone_config_elements-eq vs i)

  clone_config_members-eq : (fs : Members) → clone_config_members fs ≡ fs
  clone_config_members-eq Members.no_member = refl
  clone_config_members-eq (Members.member k v fs) =
      λ i. Members.member k (clone_config_value-eq v i) (clone_config_members-eq fs i)

clone_config-eq :
    (given : Option Members)
    → elim given as (λ x. Option Members) [ none ↦ none | some fs ↦ some (clone_config_members fs) ]
      ≡ given
clone_config-eq none = refl
clone_config-eq (some fs) = ap some (clone_config_members-eq fs)

-- A copy has the value of what it copies.
pub clone_channels-eq : (channels : List ChannelConfig) → clone_channels channels ≡ channels
unfolding clone_channels clone_channel
clone_channels-eq [] = refl
clone_channels-eq (channel ∷ channels) =
    λ i. record channel { config = clone_config-eq channel.config i } ∷ clone_channels-eq channels i

pub clone_profile-eq : (source : Profile) → clone_profile source ≡ source
unfolding clone_profile
clone_profile-eq source = λ i. record source { channels = clone_channels-eq source.channels i }
