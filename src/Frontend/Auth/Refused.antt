-- ===== src/Frontend/Auth/Refused.antt =====
-- How frontend/handler/front-auth-handler.js answers those whom it does not let in.
use mycat_js.Prelude.{
  if_true, if_false, ℕ, ◌+◌, ◌%◌, ◌≡◌, ◌≢◌, refl, ap, ◌∙◌, not, Error, plain_error, sym, Bool, true,
  false, List, [], ◌∷◌, Option, none, some, Bool-cases, ◌⊎◌, inl, inr, Result, ok, err,
  reference_error,
}
use mathlib.Core.Path.{subst}
use mycat_js.Sql.Chars.{Text}
use mycat_js.Runtime.{Bytes}
use mycat_js.Net.Message.{Chunk}
use mycat_js.Net.Packets.Login.{AuthPacket, ReadEnd, read_ok, read_throws, sends_and_throws}
use mycat_js.Net.Packets.Login as LoginPacket
use mycat_js.Net.Packets.AuthSwitch.{new_auth_switch}
use mycat_js.Config.Privileges.{get_password, user_exists}
use mycat_js.Frontend.Auth.{
  Source, Answer, ok_answer, AuthHandler, Server, Ending, passes, stops, throws, answer, close,
  failure, conns_limited, check_schema, success, enter, admit, judge, decide, account, authenticate,
  switched, second_packet, other_plugin, switch, take_packet, first_packet, by_packet, invoke,
  is_quit,
}
use mycat_js.Frontend.Auth.Entering.{clash}
use mycat_js.Frontend.Auth.Granted.{Granted}
use mycat_js.Frontend.Auth.Invoked.{invoke_iff, invoke_quits, invoke_goes, read_ok_eq}

-- The client is in, and the OK packet is what it was sent last.
abbrev pub Welcomed : AuthHandler → Type 0
Welcomed s =
    (s.source.authenticated ≡ true)
    × (s.attached ≡ false)
    × (rest : List Answer) × (s.source.sent ≡ ok_answer ((s.seq + 1) % 256) ∷ rest)

-- The handler passes no packet on; where it returns, the client is in or the connection is closed.
abbrev pub Settled : AuthHandler × Ending → Type 0
Settled r = (r.1 ≢ passes) × (r.1 ≡ stops → (r.0.source.closed ≡ true) ⊎ Welcomed r.0)

closes : {A B : Type 0} → A → (stops ≢ passes) × (stops ≡ stops → A ⊎ B)
closes h = ((λ e. cc e), (λ e. inl h))

welcomes : {A B : Type 0} → B → (stops ≢ passes) × (stops ≡ stops → A ⊎ B)
welcomes h = ((λ e. cc e), (λ e. inr h))

fails : {A : Type 0} (thrown : Error) → (throws thrown ≢ passes) × (throws thrown ≡ stops → A)
fails thrown = ((λ e. cc e), (λ e. absurd (cc e)))

module _ (sv : Server) where
  success-Settled : (k : AuthPacket) (s : AuthHandler) → Settled (success sv k s)
  unfolding success answer
  success-Settled k s = elim (Bool-cases (sv.encodes k.charset_index)) [
    | inl e ↦ rw e (welcomes (refl, refl, s.source.sent, refl))
    | inr e ↦ rw e (fails plain_error)
  ]

  enter-Settled : (k : AuthPacket) (s : AuthHandler) (o : Option ℕ) → Settled (enter sv k s o)
  unfolding enter failure close
  enter-Settled k s none = success-Settled k s
  enter-Settled k s (some errno) = closes refl

  judge-Settled : (k : AuthPacket) (s : AuthHandler) (r : Result Bool) → Settled (judge sv k s r)
  unfolding judge admit failure close
  judge-Settled k s (err e) = fails e
  judge-Settled k s (ok false) = closes refl
  judge-Settled k s (ok true) = elim (Bool-cases (conns_limited sv k.user)) [
    | inl e ↦ rw e (closes refl)
    | inr e ↦ rw e (enter-Settled k s (check_schema sv k.database k.user))
  ]

  decide-Settled : (k : AuthPacket) (s : AuthHandler) → Settled (decide sv k s)
  unfolding decide
  decide-Settled k s = elim (Bool-cases (user_exists sv.config k.user s.source.host)) [
    | inl e ↦ elim (Bool-cases sv.config.system.none_password_login) [
      | inl f ↦
          subst Settled (sym (if_false _ _ _ (ap not e) ∙ if_true _ _ _ f))
            (judge-Settled k s (ok true))
      | inr f ↦
          subst Settled (sym (if_false _ _ _ (ap not e) ∙ if_false _ _ _ f)) (judge-Settled k s _)
    ]
    | inr e ↦ subst Settled (sym (if_true _ _ _ (ap not e))) (judge-Settled k s (ok false))
  ]

  first_packet-Settled : (s : AuthHandler) (r : ReadEnd) → Settled (first_packet sv s r)
  unfolding first_packet take_packet switch new_auth_switch authenticate
  first_packet-Settled s (read_throws e) = fails e
  first_packet-Settled s (sends_and_throws seq errno e) = fails e
  first_packet-Settled s (read_ok k) = elim (Bool-cases (other_plugin k.client_auth_plugin)) [
    | inl e ↦ rw e (fails reference_error)
    | inr e ↦ rw e (
        decide-Settled (account sv k)
          (record s { packet = some (account sv k); seq = k.sequence_id }))
  ]

  by_packet-Settled :
      (buffer : Bytes) (n : ℕ) (s : AuthHandler) (o : Option AuthPacket)
      → Settled (by_packet sv buffer n s o)
  unfolding by_packet second_packet switched new_auth_switch
  by_packet-Settled buffer n s none = first_packet-Settled s _
  by_packet-Settled buffer n s (some k) = fails reference_error

-- For a client that is not in, `invoke` passes no packet on to the handlers behind it, and where
-- it returns, the connection is closed or the client is in, the handler is removed, and the OK
-- packet with the next sequence number is what it was sent last.
pub invoke-Settled :
    (sv : Server) (buffer : Bytes) (n : ℕ) (s : AuthHandler)
    → s.source.authenticated ≡ false
    → Settled (invoke sv buffer n s)
invoke-Settled sv buffer n s out = elim (Bool-cases (is_quit buffer n)) [
  | inl e ↦ subst Settled (sym (invoke_quits sv buffer n s out e)) (closes refl)
  | inr e ↦
      subst Settled (sym (invoke_goes sv buffer n s out e))
        (by_packet-Settled sv buffer n s s.packet)
]

abbrev text_or : Text → Result Text → Text
text_or other (err e) = other
text_or other (ok pass) = pass

free_unknown :
    (sv : Server) (k : AuthPacket) (s : Source) (chunk : Chunk)
    → sv.config.system.none_password_login ≡ false
    → k.password ≡ some chunk
    → get_password sv.config k.user ≡ ok []
    → Granted sv k s
    → ⊥
free_unknown sv k s chunk needs p free g = elim g.password [
  | inl e ↦ clash _ e needs
  | inr (pass, h, knows) ↦ elim knows [
    | inl (e, f) ↦ absurd (cc (sym p ∙ f))
    | inr (c, salt, nonempty, f, e, l) ↦ nonempty (ap (text_or []) (sym h ∙ free))
  ]
]

-- A user of an empty password whose login brings a password that is not null, an empty one too,
-- is not let in, where passwords are asked for.
pub empty_password_refused :
    (sv : Server) (buffer : Bytes) (n : ℕ) (s : AuthHandler) (k : AuthPacket) (chunk : Chunk)
    → s.source.authenticated ≡ false
    → sv.config.system.none_password_login ≡ false
    → LoginPacket.read sv.platform sv.encodes buffer n ≡ read_ok k
    → k.password ≡ some chunk
    → get_password sv.config k.user ≡ ok []
    → (invoke sv buffer n s).0.source.authenticated ≡ false
unfolding account
empty_password_refused sv buffer n s k chunk out needs r p free =
    elim (Bool-cases (invoke sv buffer n s).0.source.authenticated) [
      | inr e ↦ e
      | inl e ↦
          (let (q, (o, quit, rq, plugin), g) = (invoke_iff sv buffer n s out).0 e in
            let same : account sv q ≡ k = if_false _ _ _ needs ∙ read_ok_eq (sym rq ∙ r) in
            absurd (
              free_unknown sv k s.source chunk needs p free
                (subst (λ u. Granted sv u s.source) same g)))
    ]
