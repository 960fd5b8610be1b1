-- ===== src/Frontend/Auth/Entering.antt =====
-- The tests of frontend/handler/front-auth-handler.js.
use mycat_js.Prelude.{
  if_true, if_false, ◌≡◌, ◌≢◌, ◌<◌, refl, ap, ◌∙◌, sym, Bool, true, false, not, [], ◌∷◌, Option,
  none, some, Bool-cases, Option-cases, ◌⊎◌, inl, inr, Result, ok, err, arith,
}
use mathlib.Core.Logic.{◌↔◌}
use mycat_js.Sql.Chars.{Text}
use mycat_js.Runtime.{Bytes}
use mycat_js.Backend.Source.{upper}
use mycat_js.Util.Scheduler.Names.{same_text_eq, same_text_refl}
use mycat_js.Util.Password.{scramble411}
use mycat_js.Net.Message.{Chunk, chunk_bytes}
use mycat_js.Net.Packets.Login.{AuthPacket}
use mycat_js.Config.Privileges.{
  is_empty, user_exists, get_user_schemas, get_benchmark, schema_exists, has_text,
}
use mycat_js.Frontend.Auth.{
  AuthHandler, Server, Ending, answer, close, failure, matches_password, check_password,
  conns_limited, check_schema, success, enter, admit, judge, decide,
}

-- The client sent no password where the user has none, and otherwise the scramble of the user's
-- password and the seed of the greeting.
abbrev pub Knows : Server → Option Bytes → Option Chunk → Text → Type 0
Knows sv seed password pass =
    ((pass ≡ []) × (password ≡ none))
    ⊎ ((chunk : Chunk) × (salt : Bytes) × (pass ≢ [])
        × (password ≡ some chunk)
        × (seed ≡ some salt)
        × (chunk_bytes chunk ≡ scramble411 sv.sha1 pass salt))

abbrev truth : Result Bool → Bool
truth (err e) = false
truth (ok b) = b

pub clash : {A : Type 0} (b : Bool) → b ≡ true → b ≡ false → A
clash b h k = absurd (cc)

empty_or : (xs : Text) → (xs ≡ []) ⊎ ((xs ≢ []) × (is_empty xs ≡ false))
empty_or [] = inl refl
empty_or (x ∷ xs) = inr ((λ h. cc), refl)

pub matches-Knows :
    (sv : Server) (seed : Option Bytes) (password : Option Chunk) (pass : Text)
    → matches_password sv seed password pass ≡ ok true
    → Knows sv seed password pass
unfolding matches_password
matches-Knows sv seed none [] h = inl (refl, refl)
matches-Knows sv seed none (x ∷ xs) h = cc
matches-Knows sv none (some chunk) [] h = cc
matches-Knows sv none (some chunk) (x ∷ xs) h = cc
matches-Knows sv (some salt) (some chunk) [] h = cc
matches-Knows sv (some salt) (some chunk) (x ∷ xs) h =
    inr (chunk, salt, (λ e. cc), refl, refl, same_text_eq (chunk_bytes chunk) _ (ap truth h))

pub Knows-matches :
    (sv : Server) (seed : Option Bytes) (password : Option Chunk) (pass : Text)
    → Knows sv seed password pass
    → matches_password sv seed password pass ≡ ok true
unfolding matches_password
Knows-matches sv seed password pass (inl (e, f)) = rw (e, f) refl
Knows-matches sv seed password pass (inr (chunk, salt, nonempty, e, f, g)) = elim (empty_or pass) [
  | inl z ↦ absurd (nonempty z)
  | inr (w, z) ↦ rw (e, f, z, g) (ap ok (same_text_refl (scramble411 sv.sha1 pass salt)))
]

abbrev pub In : AuthHandler × Ending → Type 0
In r = r.0.source.authenticated ≡ true

-- Behind connsLimited and checkSchema.
abbrev pub Entered : Server → AuthPacket → Type 0
Entered sv k = (conns_limited sv k.user ≡ false) × (check_schema sv k.database k.user ≡ none)

success-In : (sv : Server) (k : AuthPacket) (s : AuthHandler) → In (success sv k s)
unfolding success answer
success-In sv k s = elim (Bool-cases (sv.encodes k.charset_index)) [
  | inl e ↦ rw e refl
  | inr e ↦ rw e refl
]

admit_iff :
    (sv : Server) (k : AuthPacket) (s : AuthHandler)
    → s.source.authenticated ≡ false
    → In (admit sv k s) ↔ Entered sv k
unfolding admit enter failure answer close
admit_iff sv k s out = elim (Bool-cases (conns_limited sv k.user)) [
  | inl e ↦ ((λ h. clash _ (rw e at h) out), (λ (f, g). clash (conns_limited sv k.user) e f))
  | inr e ↦ elim (Option-cases (check_schema sv k.database k.user)) [
    | inl f ↦ ((λ h. (e, f)), (λ h. rw (e, f) (success-In sv k s)))
    | inr (errno, f) ↦ ((λ h. clash _ (rw (e, f) at h) out), (λ (g, h). absurd (cc (sym f ∙ h))))
  ]
]

pub limited_iff :
    (sv : Server) (user : Option Text)
    → (conns_limited sv user ≡ false)
      ↔ ((get_benchmark sv.config user ≡ 0) ⊎ (sv.frontends < get_benchmark sv.config user))
unfolding conns_limited
limited_iff sv user = (ground arith, ground arith)

-- checkSchema lets the client in.
abbrev pub Chosen : Server → Text → Option Text → Type 0
Chosen sv schema user =
    (schema ≡ [])
    ⊎ ((schema_exists sv.config (upper schema) ≡ true)
        × (has_text (upper schema) (get_user_schemas sv.config user) ≡ true))

pub check_schema-Chosen :
    (sv : Server) (schema : Text) (user : Option Text)
    → check_schema sv schema user ≡ none
    → Chosen sv schema user
unfolding check_schema
check_schema-Chosen sv [] user h = inl refl
check_schema-Chosen sv (x ∷ xs) user h =
    elim (Bool-cases (schema_exists sv.config (upper (x ∷ xs)))) [
      | inl e ↦ elim (Bool-cases (has_text (upper (x ∷ xs)) (get_user_schemas sv.config user))) [
        | inl f ↦ inr (e, f)
        | inr f ↦ absurd (cc (rw (e, f) at h))
      ]
      | inr e ↦ absurd (cc (rw e at h))
    ]

pub Chosen-check_schema :
    (sv : Server) (schema : Text) (user : Option Text)
    → Chosen sv schema user
    → check_schema sv schema user ≡ none
unfolding check_schema
Chosen-check_schema sv [] user h = refl
Chosen-check_schema sv (x ∷ xs) user (inl h) = absurd (cc h)
Chosen-check_schema sv (x ∷ xs) user (inr (e, f)) = rw (e, f) refl

pub judge_iff :
    (sv : Server) (k : AuthPacket) (s : AuthHandler) (r : Result Bool)
    → s.source.authenticated ≡ false
    → In (judge sv k s r) ↔ ((r ≡ ok true) × Entered sv k)
unfolding judge failure answer close
judge_iff sv k s (err e) out = ((λ h. clash _ h out), (λ (e, f). absurd (cc e)))
judge_iff sv k s (ok false) out = ((λ h. clash _ h out), (λ (e, f). absurd (cc e)))
judge_iff sv k s (ok true) out =
    ((λ h. (refl, (admit_iff sv k s out).0 h)), (λ (e, f). (admit_iff sv k s out).1 f))

pub decide_unknown :
    (sv : Server) (k : AuthPacket) (s : AuthHandler)
    → user_exists sv.config k.user s.source.host ≡ false
    → decide sv k s ≡ judge sv k s (ok false)
unfolding decide
decide_unknown sv k s e = if_true _ _ _ (ap not e)

pub decide_free :
    (sv : Server) (k : AuthPacket) (s : AuthHandler)
    → user_exists sv.config k.user s.source.host ≡ true
    → sv.config.system.none_password_login ≡ true
    → decide sv k s ≡ judge sv k s (ok true)
unfolding decide
decide_free sv k s e f = if_false _ _ _ (ap not e) ∙ if_true _ _ _ f

pub decide_checks :
    (sv : Server) (k : AuthPacket) (s : AuthHandler)
    → user_exists sv.config k.user s.source.host ≡ true
    → sv.config.system.none_password_login ≡ false
    → decide sv k s ≡ judge sv k s (check_password sv s.source.seed k.password k.user)
unfolding decide
decide_checks sv k s e f = if_false _ _ _ (ap not e) ∙ if_false _ _ _ f
