-- ===== src/Profile.antt =====
-- internal/profile/profile.go: the profile and the form in which YAML decodes to it. A float32 is
-- its IEEE 754 bit pattern, a number below 2 ^ 32.
pub mod Clone
pub mod Validate
pub mod Registry
pub mod Loader
use oryxos_go.Common.{ℕ, String, Bool, Option, List}
use oryxos_go.Common.Int.{ℤ}
use oryxos_go.Go.Json.{Members}

pub record IdentityConfig : Type 0 where
  pub agent_name : String
  pub prompt : String

pub record ProviderConfig : Type 0 where
  pub name : String
  pub model : String
  pub temperature : ℕ

pub record NotifyChannelConfig : Type 0 where
  pub name : String
  pub type : String
  pub url : String

pub record ScheduleConfig : Type 0 where
  pub id : String
  pub cron : String
  pub timezone : String
  pub message : String
  pub enabled : Bool

pub record ChannelConfig : Type 0 where
  pub name : String
  pub config : Option Members

pub record SettingsConfig : Type 0 where
  pub max_iterations : ℤ
  pub max_history_turns : ℤ

pub record Profile : Type 0 where
  pub name : String
  pub description : String
  pub identity : IdentityConfig
  pub provider : ProviderConfig
  pub tools : List String
  pub skills : List String
  pub mcp_servers : List String
  pub notify_channels : List NotifyChannelConfig
  pub schedules : List ScheduleConfig
  pub channels : List ChannelConfig
  pub bootstrap : List String
  pub settings : SettingsConfig

pub record RawProviderConfig : Type 0 where
  pub name : String
  pub model : String
  pub temperature : Option ℕ

pub record RawSettingsConfig : Type 0 where
  pub max_iterations : Option ℤ
  pub max_history_turns : Option ℤ

pub record RawProfile : Type 0 where
  pub name : String
  pub description : String
  pub identity : IdentityConfig
  pub provider : RawProviderConfig
  pub tools : List String
  pub skills : List String
  pub mcp_servers : List String
  pub notify_channels : List NotifyChannelConfig
  pub schedules : List ScheduleConfig
  pub channels : List ChannelConfig
  pub bootstrap : List String
  pub settings : RawSettingsConfig
