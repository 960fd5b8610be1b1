-- ===== src/Frontend/Auth/Granted.antt =====
-- Whom frontend/handler/front-auth-handler.js lets in.
use mycat_js.Prelude.{
  ◌≡◌, ◌<◌, refl, ap, ◌∙◌, sym, true, false, [], Bool-cases, ◌⊎◌, inl, inr, ok, ◌>>=◌, >>=-eq-ok,
}
use mathlib.Core.Path.{subst}
use mycat_js.Sql.Chars.{Text}
use mycat_js.Backend.Source.{upper}
use mycat_js.Net.Packets.Login.{AuthPacket}
use mycat_js.Config.Privileges.{
  user_exists, get_password, get_user_schemas, get_benchmark, schema_exists, has_text,
}
use mycat_js.Config.Privileges.Allowing.{Allowed, check_white_host_policy_iff}
use mycat_js.Frontend.Auth.{Source, AuthHandler, Server, matches_password, check_password, decide}
use mycat_js.Frontend.Auth.Entering.{
  Knows, matches-Knows, Knows-matches, In, Entered, limited_iff, check_schema-Chosen,
  Chosen-check_schema, judge_iff, decide_unknown, decide_free, decide_checks,
}

-- What it takes to log in as the packet's user, behind the choice of the account.
pub record Granted (sv : Server) (k : AuthPacket) (s : Source) : Type 0 where
  pub allowed : Allowed sv.config k.user s.host
  pub password :
      (sv.config.system.none_password_login ≡ true)
      ⊎ ((pass : Text) × (get_password sv.config k.user ≡ ok pass)
          × Knows sv s.seed k.password pass)
  pub room : (get_benchmark sv.config k.user ≡ 0) ⊎ (sv.frontends < get_benchmark sv.config k.user)
  pub schema :
      (k.database ≡ [])
      ⊎ ((schema_exists sv.config (upper k.database) ≡ true)
          × (has_text (upper k.database) (get_user_schemas sv.config k.user) ≡ true))

-- The user may come without a password, or knows it.
abbrev Proves : Server → AuthPacket → Source → Type 0
Proves sv k s =
    (sv.config.system.none_password_login ≡ true)
    ⊎ ((pass : Text) × (get_password sv.config k.user ≡ ok pass) × Knows sv s.seed k.password pass)

grant :
    (sv : Server) (k : AuthPacket) (s : Source)
    → user_exists sv.config k.user s.host ≡ true
    → Proves sv k s
    → Entered sv k
    → Granted sv k s
unfolding user_exists
grant sv k s e p (f, g) = record {
  allowed = (check_white_host_policy_iff sv.config k.user s.host).0 e;
  password = p;
  room = (limited_iff sv k.user).0 f;
  schema = check_schema-Chosen sv k.database k.user g;
}

checked :
    (sv : Server) (k : AuthPacket) (s : Source)
    → check_password sv s.seed k.password k.user ≡ ok true
    → Proves sv k s
unfolding check_password
checked sv k s h =
    let (pass, g, m) = >>=-eq-ok (get_password sv.config k.user) _ h in
    inr (pass, g, matches-Knows sv s.seed k.password pass m)

pub decide-Granted :
    (sv : Server) (k : AuthPacket) (s : AuthHandler)
    → s.source.authenticated ≡ false
    → In (decide sv k s)
    → Granted sv k s.source
decide-Granted sv k s out h = elim (Bool-cases (user_exists sv.config k.user s.source.host)) [
  | inl e ↦ elim (Bool-cases sv.config.system.none_password_login) [
    | inl f ↦
        grant sv k s.source e (inl f)
          ((judge_iff sv k s (ok true) out).0 (subst In (decide_free sv k s e f) h)).1
    | inr f ↦
        (let (q, entered) = (judge_iff sv k s _ out).0 (subst In (decide_checks sv k s e f) h) in
          grant sv k s.source e (checked sv k s.source q) entered)
  ]
  | inr e ↦
      absurd (cc ((judge_iff sv k s (ok false) out).0 (subst In (decide_unknown sv k s e) h)).0)
]

Granted-Entered : (sv : Server) (k : AuthPacket) (s : Source) → Granted sv k s → Entered sv k
Granted-Entered sv k s g =
    ((limited_iff sv k.user).1 g.room, Chosen-check_schema sv k.database k.user g.schema)

free-In :
    (sv : Server) (k : AuthPacket) (s : AuthHandler)
    → s.source.authenticated ≡ false
    → user_exists sv.config k.user s.source.host ≡ true
    → Entered sv k
    → sv.config.system.none_password_login ≡ true
    → In (decide sv k s)
free-In sv k s out e entered f =
    subst In (sym (decide_free sv k s e f)) ((judge_iff sv k s (ok true) out).1 (refl, entered))

proven-In :
    (sv : Server) (k : AuthPacket) (s : AuthHandler)
    → s.source.authenticated ≡ false
    → user_exists sv.config k.user s.source.host ≡ true
    → Entered sv k
    → Proves sv k s.source
    → In (decide sv k s)
unfolding check_password
proven-In sv k s out e entered (inl f) = free-In sv k s out e entered f
proven-In sv k s out e entered (inr (pass, g, knows)) =
    elim (Bool-cases sv.config.system.none_password_login) [
      | inl f ↦ free-In sv k s out e entered f
      | inr f ↦ subst In (sym (decide_checks sv k s e f)) (
          (judge_iff sv k s _ out).1 (
            ap (λ r. r >>= matches_password sv s.source.seed k.password) g
                ∙ Knows-matches sv s.source.seed k.password pass knows,
            entered,
          ))
    ]

pub Granted-decide :
    (sv : Server) (k : AuthPacket) (s : AuthHandler)
    → s.source.authenticated ≡ false
    → Granted sv k s.source
    → In (decide sv k s)
unfolding user_exists
Granted-decide sv k s out g =
    proven-In sv k s out ((check_white_host_policy_iff sv.config k.user s.source.host).1 g.allowed)
      (Granted-Entered sv k s.source g) g.password
