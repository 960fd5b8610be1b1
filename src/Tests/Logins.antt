-- ===== src/Tests/Logins.antt =====
-- The login, at concrete inputs.
use mycat_js.Prelude.{
  ℕ, zero, suc, ◌%◌, ◌≡◌, ◌<◌, refl, true, false, [], ◌∷◌, ◌++◌, Option, none, some, replicate,
  length, length-replicate, arith, ltb, ◌==◌,
}
use mathlib.Core.Logic.{◌↔◌}
use mycat_js.Runtime
use mycat_js.Net.Message
use mycat_js.Buffer.Helper.{read_u24_le}
use mycat_js.Runtime.{Bytes, le_bytes}
use mycat_js.Sql.Chars.{Text}
use mycat_js.Sql.Words.{codes}
use mycat_js.Net.Message.{Chunk, shared_empty, fresh}
use mycat_js.Net.Packets.Login.{AuthPacket, ReadEnd, read_ok}
use mycat_js.Net.Packets.Login as LoginPacket
use mycat_js.Util.Password.{scramble411}
use mycat_js.Util.Password.Checking.{AreBytes, IsHash, verifies, scramble411-verifies}
use mycat_js.Config.{UserConfig, MycatConfig}
use mycat_js.Config.Privileges.{check_white_host_policy, get_password, entry, is_named}
use mycat_js.Config.Privileges.Allowing.{Allowed, check_white_host_policy_iff}
use mycat_js.Frontend.Auth.{AuthHandler, Server, invoke, account}
use mycat_js.Frontend.Auth.Granted.{Granted}
use mycat_js.Frontend.Auth.Invoked.{Asks, invoke_iff}
use mycat_js.Frontend.Auth.Refused.{Settled, invoke-Settled, empty_password_refused}
use mycat_js.Frontend.Seed.{ascii_seed, IsAscii, ascii_seed-IsAscii, any_usable}
use mycat_js.Frontend.Command.{Session, handle}
use mycat_js.Frontend.Command.Handled.{Handled, handle-Handled}
use mycat_js.Tests.Words.{at_text}
use mycat_js.Tests.Pools.{runtime}
use mycat_js.Backend.Source.{same_text}

-- A hash of 20 bytes.
abbrev toy_hash : Bytes → Bytes
toy_hash m = replicate 20 (length m % 256)

replicate-AreBytes : (n v : ℕ) → v < 256 → AreBytes (replicate n v)
replicate-AreBytes zero v h = tt
replicate-AreBytes (suc n) v h = (h, replicate-AreBytes n v h)

toy_hash-IsHash : IsHash toy_hash
toy_hash-IsHash = record {
  length_lem = λ m. length-replicate 20 (length m % 256);
  bytes_lem = λ m. replicate-AreBytes 20 (length m % 256) (omega arith);
}

abbrev user_of : Text → Text → UserConfig
user_of name password = record {
  name = name;
  password = password;
  benchmark = 9;
  default_account = false;
  schemas = codes "SHOP" ∷ [];
}

-- Bob has a password, and Eve has none.
abbrev shop : MycatConfig
shop = record {
  schemas = codes "SHOP" ∷ [];
  users =
      (codes "bob", user_of (codes "bob") (codes "pw"))
      ∷ (codes "eve", user_of (codes "eve") [])
      ∷ [];
  system = record {
    none_password_login = false;
    use_compression = true;
    cluster_heartbeat_user = codes "beat";
    cluster_heartbeat_pass = codes "beat";
    idle_timeout = 60;
  };
  firewall = record {
    white_hosts = (codes "localhost", user_of (codes "bob") (codes "pw") ∷ []) ∷ [];
    white_host_masks = ((λ host. ltb 3 (length host)), user_of (codes "eve") [] ∷ []) ∷ [];
  };
}

abbrev server : Server
server = record {
  config = shop;
  frontends = 2;
  encodes = λ index. index == 33;
  sha1 = toy_hash;
  platform = runtime;
}

abbrev greeted : AuthHandler
greeted = record {
  packet = none;
  seq = 0;
  attached = true;
  source = record {
    host = codes "localhost";
    authenticated = false;
    closed = false;
    seed = some (replicate 20 65);
    user = some [];
    schema = [];
    max_packet_size = 0;
    charset_index = 33;
    idle_timeout = 0;
    support_compress = false;
    sent = [];
  };
}

-- A login packet of capabilities, a user, a password with its length, and what follows.
abbrev login_bytes : ℕ → Text → Bytes → Bytes → Bytes
login_bytes flags user password rest =
    le_bytes 3 0
    ++ (1
        ∷ (le_bytes 4 flags
            ++ (le_bytes 4 1024
                ++ (33
                    ∷ (replicate 23 0 ++ (user ++ (0 ∷ (length password ∷ (password ++ rest)))))))))

abbrev bob_bytes : Bytes
bob_bytes = login_bytes 8 (codes "bob") (replicate 20 42) (codes "shop" ++ (0 ∷ []))

abbrev eve_bytes : Bytes
eve_bytes = login_bytes 0 (codes "eve") [] []

check_white_host_policy_iff_example :
    (check_white_host_policy shop (some (codes "eve")) (codes "10.0.0.1") ≡ true)
    ↔ Allowed shop (some (codes "eve")) (codes "10.0.0.1")
check_white_host_policy_iff_example =
    check_white_host_policy_iff shop (some (codes "eve")) (codes "10.0.0.1")

invoke_iff_example : ((invoke server bob_bytes 63 greeted).0.source.authenticated ≡ true) ↔ (
    (k : AuthPacket) × Asks server bob_bytes 63 greeted k
    × Granted server (account server k) greeted.source)
invoke_iff_example = invoke_iff server bob_bytes 63 greeted refl

invoke-Settled_example : Settled (invoke server bob_bytes 63 greeted)
invoke-Settled_example = invoke-Settled server bob_bytes 63 greeted refl

-- What the client sent is read as this packet.
abbrev read_packet : ℕ → Text → Option Chunk → Text → AuthPacket
read_packet flags user password plugin = record {
  payload_length = 0;
  sequence_id = 1;
  client_flags = flags;
  max_packet_size = 1024;
  charset_index = 33;
  user = some user;
  password = password;
  database = [];
  allow_multi_statements = false;
  client_auth_plugin = some plugin;
}

eve_read :
    LoginPacket.read runtime server.encodes eve_bytes 41
    ≡ read_ok (read_packet 0 (codes "eve") (some shared_empty) [])
unfolding LoginPacket.read LoginPacket.read_fields LoginPacket.read_options LoginPacket.read_plugin
    LoginPacket.read_database Message.read_u8 Message.read_u24 Message.message Message.read_u32
    Message.read_bytes_with_length Message.read_length Message.read_string_with_null
    Message.read_bytes_with_null Message.skip Message.copy_bytes Message.has_remaining
    Message.read_bytes Message.zero_offset Runtime.read_u8 Runtime.read_u16_le Runtime.read_u32_le
    Runtime.overwrite Runtime.byte_at read_u24_le
eve_read = refl

empty_password_refused_example : (invoke server eve_bytes 41 greeted).0.source.authenticated ≡ false
unfolding get_password same_text entry is_named
empty_password_refused_example =
    empty_password_refused server eve_bytes 41 greeted
      (read_packet 0 (codes "eve") (some shared_empty) []) shared_empty refl refl eve_read refl refl

scramble411-verifies_example :
    verifies toy_hash
      (toy_hash (toy_hash (codes "pw")))
      (replicate 20 65)
      (scramble411 toy_hash (codes "pw") (replicate 20 65))
    ≡ true
scramble411-verifies_example =
    scramble411-verifies toy_hash (codes "pw") (replicate 20 65) toy_hash-IsHash

ascii_seed-IsAscii_example :
    (out : Bytes) × (ascii_seed (130 ∷ 0 ∷ 65 ∷ 128 ∷ []) (128 ∷ 7 ∷ 9 ∷ []) ≡ some out)
    × IsAscii (130 ∷ 0 ∷ 65 ∷ 128 ∷ []) out
unfolding any_usable
ascii_seed-IsAscii_example = ascii_seed-IsAscii (130 ∷ 0 ∷ 65 ∷ 128 ∷ []) (128 ∷ 7 ∷ 9 ∷ []) refl

abbrev quiet : Session
quiet = record {
  load_data_started = false;
  closed = false;
  schema = codes "shop";
  quit = 0;
  query = 4;
  other = 0;
  sent = [];
}

abbrev select_bytes : Bytes
select_bytes = 20 ∷ 0 ∷ 0 ∷ 0 ∷ 3 ∷ codes "select @a;select @b"

handle-Handled_example :
    Handled
      (codes "SHOP" ∷ [])
      (at_text [] 0)
      (codes "select @a;select @b")
      quiet
      0
      (handle (λ b. b) false (codes "SHOP" ∷ []) (at_text [] 0) select_bytes 24 quiet)
unfolding Runtime.byte_at Runtime.read_u8
handle-Handled_example =
    handle-Handled (λ b. b) false (codes "SHOP" ∷ []) (at_text [] 0) select_bytes 24 0 quiet refl
      refl refl
