-- ===== src/Frontend/Auth.antt =====
-- frontend/handler/front-auth-handler.js: a client logs in. The write of an answer succeeds, and
-- the text of an error is not modelled.
pub mod Entering
pub mod Granted
pub mod Invoked
pub mod Refused
use mycat_js.Prelude.{
  ℕ, ◌+◌, ◌%◌, Bool, true, false, not, ◌&&◌, ◌||◌, List, [], ◌∷◌, ◌++◌, Option, none, some, ◌==◌,
  ltb, leb, if◌then◌else◌, Error, type_error, plain_error, Result, ok, err, ◌>>=◌, length, take,
}
use mycat_js.Sql.Chars.{Text}
use mycat_js.Runtime.{Bytes, Platform, byte_at}
use mycat_js.Backend.Source.{same_text, upper}
use mycat_js.Net.Message.{Chunk, chunk_bytes}
use mycat_js.Net.Packets.{has_flag, client_compress}
use mycat_js.Net.Packets.Login.{AuthPacket, ReadEnd, read_ok, read_throws, sends_and_throws}
use mycat_js.Net.Packets.Login as LoginPacket
use mycat_js.Net.Packets.AuthSwitch.{AuthSwitchPacket, new_auth_switch}
use mycat_js.Net.Packets.AuthSwitch
use mycat_js.Util.Password.{scramble411}
use mycat_js.Config.{UserConfig, MycatConfig}
use mycat_js.Config.Privileges.{
  is_empty, user_exists, get_password, get_user_schemas, get_benchmark, schema_exists, has_text,
}
use mycat_js.Sql.Words.{codes}

abbrev com_quit : ℕ
com_quit = 1

-- The test for a QuitPacket.
abbrev pub is_quit : Bytes → ℕ → Bool
is_quit buffer length = length == 5 && byte_at buffer 4 == com_quit

abbrev pub er_con_count_error : ℕ
er_con_count_error = 1040

abbrev pub er_dbaccess_denied : ℕ
er_dbaccess_denied = 1044

abbrev pub er_access_denied : ℕ
er_access_denied = 1045

abbrev pub er_bad_db : ℕ
er_bad_db = 1049

abbrev default_plugin : Text
default_plugin = codes "mysql_native_password"

-- What a client is sent: an error packet of a sequence number and an error number, the OK packet of
-- a sequence number, or the authentication switch.
pub data Answer : Type 0 where
  error_answer : ℕ → ℕ → Answer
  ok_answer : ℕ → Answer
  switch_answer : AuthSwitchPacket → Answer

-- The connection, as far as the login uses it. `sent` has the last answer first.
pub record Source : Type 0 where
  pub host : Text
  pub authenticated : Bool
  pub closed : Bool
  pub seed : Option Bytes
  pub user : Option Text
  pub schema : Text
  pub max_packet_size : ℕ
  pub charset_index : ℕ
  pub idle_timeout : ℕ
  pub support_compress : Bool
  pub sent : List Answer

-- The handler's fields, and whether the connection's handler still has it.
pub record AuthHandler : Type 0 where
  pub packet : Option AuthPacket
  pub seq : ℕ
  pub attached : Bool
  pub source : Source

-- What the login uses of the server: the configuration, the number of frontend connections, the
-- charset indexes that have an encoding, the hash, and the runtime.
pub record Server : Type 0 where
  pub config : MycatConfig
  pub frontends : ℕ
  pub encodes : ℕ → Bool
  pub sha1 : Bytes → Bytes
  pub platform : Platform

-- How `invoke` ends: it returns the packet, it returns undefined, or it throws.
pub data Ending : Type 0 where
  passes : Ending
  stops : Ending
  throws : Error → Ending

unfoldable pub answer : AuthHandler → Answer → AuthHandler
answer s a = record s { source = record s.source { sent = a ∷ s.source.sent } }

unfoldable pub close : AuthHandler → AuthHandler
close s = record s { source = record s.source { closed = true } }

-- `failure(source, this.#seq + 1, errno, ..)`
unfoldable pub failure : AuthHandler → ℕ → AuthHandler
unfolding answer close
failure s errno = close (answer s (error_answer (s.seq + 1) errno))

-- The name of the last default account, if there is one.
unfoldable pub set_default_account : Option Text → List (Text × UserConfig) → Option Text
set_default_account user [] = user
set_default_account user ((key, conf) ∷ rest) =
    set_default_account (if conf.default_account then some conf.name else user) rest

-- `plugin && def.compare(plugin) !== 0`
unfoldable pub other_plugin : Option Bytes → Bool
other_plugin none = false
other_plugin (some plugin) = not (is_empty plugin) && not (same_text default_plugin plugin)

switch : AuthHandler → Result AuthSwitchPacket → AuthHandler × Ending
unfolding answer
switch s (err e) = (s, throws e)
switch s (ok k) = (answer s (switch_answer (record k { sequence_id = s.seq + 1 })), stops)

module _ (sv : Server) where
  -- `!password` is true for `null`, and false for a buffer, also for an empty one.
  pub matches_password : Option Bytes → Option Chunk → Text → Result Bool
  unfolding scramble411
  matches_password seed none pass = ok (is_empty pass)
  matches_password none (some chunk) pass = if is_empty pass then ok false else err type_error
  matches_password (some seed) (some chunk) pass =
      if is_empty pass
      then ok false
      else ok (same_text (chunk_bytes chunk) (scramble411 sv.sha1 pass seed))

  unfoldable pub check_password : Option Bytes → Option Chunk → Option Text → Result Bool
  unfolding matches_password
  check_password seed password user = get_password sv.config user >>= matches_password seed password

  unfoldable pub conns_limited : Option Text → Bool
  conns_limited user =
      let benchmark = get_benchmark sv.config user in ltb 0 benchmark && leb benchmark sv.frontends

  -- The error number that checkSchema calls back with, if it does.
  unfoldable pub check_schema : Text → Option Text → Option ℕ
  check_schema schema user =
      if is_empty schema
      then none
      else if schema_exists sv.config (upper schema)
      then (if has_text (upper schema) (get_user_schemas sv.config user)
          then none
          else some er_dbaccess_denied)
      else some er_bad_db

  -- `success`, and the removal of the handler. The charset's setter throws for an index without an
  -- encoding. The OK packet takes the low byte of the sequence number.
  unfoldable pub success : AuthPacket → AuthHandler → AuthHandler × Ending
  unfolding answer
  success ap s =
      let known = record s.source {
        authenticated = true;
        seed = none;
        user = ap.user;
        schema = ap.database;
        max_packet_size = ap.max_packet_size;
      } in
      if sv.encodes ap.charset_index
      then (
        answer
            (record s {
              attached = false;
              source = record known {
                charset_index = ap.charset_index;
                idle_timeout = sv.config.system.idle_timeout;
                support_compress =
                    has_flag ap.client_flags client_compress && sv.config.system.use_compression;
              };
            })
            (ok_answer ((s.seq + 1) % 256)),
        stops,
      )
      else (record s { source = known }, throws plain_error)

  enter : AuthPacket → AuthHandler → Option ℕ → AuthHandler × Ending
  unfolding success failure
  enter ap s none = success ap s
  enter ap s (some errno) = (failure s errno, stops)

  -- From connsLimited on.
  unfoldable pub admit : AuthPacket → AuthHandler → AuthHandler × Ending
  unfolding enter conns_limited check_schema
  admit ap s =
      if conns_limited ap.user
      then (failure s er_con_count_error, stops)
      else enter ap s (check_schema ap.database ap.user)

  pub judge : AuthPacket → AuthHandler → Result Bool → AuthHandler × Ending
  unfolding admit failure
  judge ap s (err e) = (s, throws e)
  judge ap s (ok false) = (failure s er_access_denied, stops)
  judge ap s (ok true) = admit ap s

  -- From userExists on.
  unfoldable pub decide : AuthPacket → AuthHandler → AuthHandler × Ending
  unfolding judge check_password
  decide ap s =
      if not (user_exists sv.config ap.user s.source.host)
      then judge ap s (ok false)
      else if sv.config.system.none_password_login
      then judge ap s (ok true)
      else judge ap s (check_password s.source.seed ap.password ap.user)

  -- The packet, of which the user may be another without passwords.
  unfoldable pub account : AuthPacket → AuthPacket
  unfolding set_default_account
  account ap =
      if sv.config.system.none_password_login
      then record ap { user = set_default_account ap.user sv.config.users }
      else ap

  unfoldable pub authenticate : AuthPacket → AuthHandler → AuthHandler × Ending
  unfolding account decide
  authenticate ap s = decide (account ap) (record s { packet = some (account ap) })

  -- The answer to a switch takes the place of the password.
  switched : AuthPacket → AuthHandler → Result (ℕ × ℕ × Chunk) → AuthHandler × Ending
  unfolding authenticate
  switched ap s (err e) = (s, throws e)
  switched ap s (ok (n, seq, chunk)) =
      authenticate (record ap { password = some chunk }) (record s { seq = seq + 1 })

  unfoldable pub second_packet : Bytes → ℕ → AuthPacket → AuthHandler → AuthHandler × Ending
  unfolding switched
  second_packet buffer length ap s =
      switched ap s
        (new_auth_switch none none >>= λ k. AuthSwitch.read sv.platform k (take length buffer))

  unfoldable pub take_packet : AuthPacket → AuthHandler → AuthHandler × Ending
  unfolding switch authenticate
  take_packet ap s =
      if other_plugin ap.client_auth_plugin
      then switch s (new_auth_switch (some default_plugin) s.source.seed)
      else authenticate ap s

  -- `read` throws where it does not succeed, so that `res.ok` is always true.
  first_packet : AuthHandler → ReadEnd → AuthHandler × Ending
  unfolding take_packet answer
  first_packet s (read_throws e) = (s, throws e)
  first_packet s (sends_and_throws seq errno e) = (answer s (error_answer seq errno), throws e)
  first_packet s (read_ok ap) = take_packet ap (record s { packet = some ap; seq = ap.sequence_id })

  pub by_packet : Bytes → ℕ → AuthHandler → Option AuthPacket → AuthHandler × Ending
  unfolding first_packet second_packet
  by_packet buffer length s none =
      first_packet s (LoginPacket.read sv.platform sv.encodes buffer length)
  by_packet buffer length s (some ap) = second_packet buffer length ap s

  unfoldable pub invoke : Bytes → ℕ → AuthHandler → AuthHandler × Ending
  unfolding by_packet close
  invoke buffer length s =
      if s.source.authenticated
      then (s, passes)
      else if is_quit buffer length
      then (close s, stops)
      else by_packet buffer length s s.packet
