-- ===== src/Config.antt =====
-- What the login asks of the configuration: config/model/user-config.js, firewall-config.js and
-- system-config.js in config/mycat-config.js. Strings are their bytes.
pub mod Privileges
use mycat_js.Prelude.{ℕ, Bool, List}
use mycat_js.Sql.Chars.{Text}

pub record UserConfig : Type 0 where
  pub name : Text
  pub password : Text
  pub benchmark : ℕ
  pub default_account : Bool
  pub schemas : List Text

-- A host pattern is its `test`.
pub record FirewallConfig : Type 0 where
  pub white_hosts : List (Text × List UserConfig)
  pub white_host_masks : List ((Text → Bool) × List UserConfig)

pub record SystemConfig : Type 0 where
  pub none_password_login : Bool
  pub use_compression : Bool
  pub cluster_heartbeat_user : Text
  pub cluster_heartbeat_pass : Text
  pub idle_timeout : ℕ

-- `schemas` are the names of the map's entries.
pub record MycatConfig : Type 0 where
  pub schemas : List Text
  pub users : List (Text × UserConfig)
  pub system : SystemConfig
  pub firewall : FirewallConfig
