-- ===== src/Config/Privileges.antt =====
-- config/mycat-privileges.js
pub mod Allowing
use mycat_js.Prelude.{
  ℕ, Bool, true, false, not, ◌&&◌, ◌||◌, List, [], ◌∷◌, Option, none, some, if◌then◌else◌, Result,
  ok, err, type_error,
}
use mycat_js.Sql.Chars.{Text}
use mycat_js.Backend.Source.{same_text, upper}
use mycat_js.Config.{UserConfig, MycatConfig}

abbrev pub is_empty {ℓ} : {A : Type ℓ} → List A → Bool
is_empty [] = true
is_empty (x ∷ xs) = false

-- Map.get
unfoldable pub entry : {A : Type 0} → Text → List (Text × A) → Option A
entry key [] = none
entry key ((k, a) ∷ rest) = let later = entry key rest in if same_text k key then some a else later

-- A user's name may be `null`, which no entry has.
abbrev pub user_entry : {A : Type 0} → Option Text → List (Text × A) → Option A
user_entry none users = none
user_entry (some user) users = entry user users

-- Set.has, and Map.has of a map's names.
unfoldable pub has_text : Text → List Text → Bool
has_text x [] = false
has_text x (y ∷ ys) = same_text y x || has_text x ys

unfoldable pub schema_exists : MycatConfig → Text → Bool
schema_exists c schema = has_text (upper schema) c.schemas

-- `conf.name === user`
unfoldable pub is_named : Option Text → UserConfig → Bool
is_named none conf = false
is_named (some user) conf = same_text conf.name user

-- The loop over the users of a host.
unfoldable pub any_named : Option Text → List UserConfig → Bool
any_named user [] = false
any_named user (conf ∷ rest) = is_named user conf || any_named user rest

-- The loop over the masks.
unfoldable pub any_mask : Option Text → Text → List ((Text → Bool) × List UserConfig) → Bool
any_mask user host [] = false
any_mask user host ((test, users) ∷ rest) =
    let later = any_mask user host rest in
    if test host then (if any_named user users then true else later) else later

abbrev pub is_some {ℓ} : {A : Type ℓ} → Option A → Bool
is_some none = false
is_some (some a) = true

abbrev host_named : Option Text → Option (List UserConfig) → Bool
host_named user none = false
host_named user (some users) = any_named user users

unfoldable pub check_white_host_policy : MycatConfig → Option Text → Text → Bool
check_white_host_policy c user host =
    if is_empty c.firewall.white_hosts && is_empty c.firewall.white_host_masks
    then is_some (user_entry user c.users)
    else if host_named user (entry host c.firewall.white_hosts)
    then true
    else any_mask user host c.firewall.white_host_masks

unfoldable pub user_exists : MycatConfig → Option Text → Text → Bool
user_exists c user host = check_white_host_policy c user host

-- `user && user === clusterHeartbeatUser`
abbrev pub is_cluster_user : MycatConfig → Option Text → Bool
is_cluster_user c none = false
is_cluster_user c (some user) =
    not (is_empty user) && same_text user c.system.cluster_heartbeat_user

password_of : Option Text → Option UserConfig → Result Text
password_of user none = err type_error
password_of user (some conf) = ok (if is_named user conf then conf.password else [])

-- Without an entry, `conf.name` throws.
unfoldable pub get_password : MycatConfig → Option Text → Result Text
unfolding password_of
get_password c user =
    if is_cluster_user c user
    then ok c.system.cluster_heartbeat_pass
    else password_of user (user_entry user c.users)

unfoldable pub get_user_schemas : MycatConfig → Option Text → List Text
get_user_schemas c user = elim (user_entry user c.users) [ none ↦ [] | some conf ↦ conf.schemas ]

unfoldable pub get_benchmark : MycatConfig → Option Text → ℕ
get_benchmark c user = elim (user_entry user c.users) [ none ↦ 0 | some conf ↦ conf.benchmark ]
