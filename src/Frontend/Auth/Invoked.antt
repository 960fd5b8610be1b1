-- ===== src/Frontend/Auth/Invoked.antt =====
-- Whom a packet to frontend/handler/front-auth-handler.js lets in.
use mycat_js.Prelude.{
  if_true, if_false, ℕ, ◌≡◌, refl, ap, ◌∙◌, sym, true, false, Option, none, some, Bool-cases, inl,
  inr, length,
}
use mathlib.Core.Logic.{◌↔◌}
use mathlib.Core.Path.{subst}
use mycat_js.Runtime.{Bytes}
use mycat_js.Net.Packets.Login.{AuthPacket, ReadEnd, read_ok, read_throws, sends_and_throws}
use mycat_js.Net.Packets.Login as LoginPacket
use mycat_js.Net.Packets.AuthSwitch.{new_auth_switch}
use mycat_js.Frontend.Auth.{
  AuthHandler, Server, stops, answer, close, account, authenticate, switched, second_packet,
  other_plugin, switch, take_packet, first_packet, by_packet, invoke, is_quit,
}
use mycat_js.Frontend.Auth.Entering.{clash, In}
use mycat_js.Frontend.Auth.Granted.{Granted, decide-Granted, Granted-decide}

abbrev packet_of : AuthPacket → ReadEnd → AuthPacket
packet_of k (read_ok q) = q
packet_of k (read_throws e) = k
packet_of k (sends_and_throws seq errno e) = k

pub read_ok_eq : {k q : AuthPacket} → read_ok k ≡ read_ok q → k ≡ q
read_ok_eq {k} h = ap (packet_of k) h

-- The first packet of a client that logs in, which the greeting's plugin made.
abbrev pub Asks : Server → Bytes → ℕ → AuthHandler → AuthPacket → Type 0
Asks sv buffer length s k =
    (s.packet ≡ none)
    × (is_quit buffer length ≡ false)
    × (LoginPacket.read sv.platform sv.encodes buffer length ≡ read_ok k)
    × (other_plugin k.client_auth_plugin ≡ false)

take_packet_iff :
    (sv : Server) (k : AuthPacket) (s : AuthHandler)
    → s.source.authenticated ≡ false
    → In (take_packet sv k s)
      ↔ ((other_plugin k.client_auth_plugin ≡ false) × Granted sv (account sv k) s.source)
unfolding take_packet switch new_auth_switch authenticate
take_packet_iff sv k s out =
    let moved = record s { packet = some (account sv k) } in
    elim (Bool-cases (other_plugin k.client_auth_plugin)) [
      | inl e ↦ ((λ h. clash _ (rw e at h) out), (λ (f, g). clash _ e f))
      | inr e ↦ (
        (λ h. (e, decide-Granted sv (account sv k) moved out (rw e at h))),
        (λ (f, g). rw e (Granted-decide sv (account sv k) moved out g)),
      )
    ]

first_packet_iff :
    (sv : Server) (s : AuthHandler) (r : ReadEnd)
    → s.source.authenticated ≡ false
    → In (first_packet sv s r) ↔ (
        (k : AuthPacket) × (r ≡ read_ok k)
        × (other_plugin k.client_auth_plugin ≡ false)
        × Granted sv (account sv k) s.source)
unfolding first_packet answer
first_packet_iff sv s (read_throws e) out = ((λ h. clash _ h out), (λ (k, f, g, h). absurd (cc f)))
first_packet_iff sv s (sends_and_throws seq errno e) out =
    ((λ h. clash _ h out), (λ (k, f, g, h). absurd (cc f)))
first_packet_iff sv s (read_ok k) out =
    let taken = take_packet_iff sv k (record s { packet = some k; seq = k.sequence_id }) out in
    (
      (λ h. (k, refl, (taken.0 h).0, (taken.0 h).1)),
      (λ (q, e, f, g).
          (let same : k ≡ q = read_ok_eq e in
            taken.1 (
              ap (λ p. other_plugin p.client_auth_plugin) same ∙ f,
              subst (λ p. Granted sv (account sv p) s.source) (sym same) g,
            ))),
    )

by_packet_iff :
    (sv : Server) (buffer : Bytes) (n : ℕ) (s : AuthHandler) (o : Option AuthPacket)
    → s.source.authenticated ≡ false
    → In (by_packet sv buffer n s o) ↔ (
        (k : AuthPacket) × (o ≡ none)
        × (LoginPacket.read sv.platform sv.encodes buffer n ≡ read_ok k)
        × (other_plugin k.client_auth_plugin ≡ false)
        × Granted sv (account sv k) s.source)
unfolding by_packet second_packet switched new_auth_switch
by_packet_iff sv buffer n s none out =
    let first = first_packet_iff sv s (LoginPacket.read sv.platform sv.encodes buffer n) out in
    (
      (λ h. (let (k, e, f, g) = first.0 h in (k, refl, e, f, g))),
      (λ (k, o, e, f, g). first.1 (k, e, f, g)),
    )
by_packet_iff sv buffer n s (some q) out =
    ((λ h. clash _ h out), (λ (k, e, f, g, h). absurd (cc e)))

module _ (sv : Server) (buffer : Bytes) (n : ℕ) (s : AuthHandler) where
  pub invoke_quits :
      s.source.authenticated ≡ false
      → is_quit buffer n ≡ true
      → invoke sv buffer n s ≡ (record s { source = record s.source { closed = true } }, stops)
  unfolding invoke close
  invoke_quits out e = if_false _ _ _ out ∙ if_true _ _ _ e

  pub invoke_goes :
      s.source.authenticated ≡ false
      → is_quit buffer n ≡ false
      → invoke sv buffer n s ≡ by_packet sv buffer n s s.packet
  unfolding invoke
  invoke_goes out e = if_false _ _ _ out ∙ if_false _ _ _ e

-- After a packet of a client that is not in, it is in exactly if this is its first packet, no
-- quit packet, and a login that is read, of no other plugin than the greeting's, whose user, or
-- the default account where no passwords are asked for, is let in from the host, needs no
-- password or knows it, and is below its limit of connections, and whose schema is empty or
-- exists and is one of the user's.
pub invoke_iff :
    (sv : Server) (buffer : Bytes) (n : ℕ) (s : AuthHandler)
    → s.source.authenticated ≡ false
    → ((invoke sv buffer n s).0.source.authenticated ≡ true)
      ↔ ((k : AuthPacket) × Asks sv buffer n s k × Granted sv (account sv k) s.source)
invoke_iff sv buffer n s out =
    let by = by_packet_iff sv buffer n s s.packet out in
    elim (Bool-cases (is_quit buffer n)) [
      | inl e ↦ (
        (λ h. clash _ (subst In (invoke_quits sv buffer n s out e) h) out),
        (λ (k, (o, f, r, p), g). clash _ e f),
      )
      | inr e ↦ (
        (λ h.
            (let (k, o, r, f, g) = by.0 (subst In (invoke_goes sv buffer n s out e) h) in
              (k, (o, e, r, f), g))),
        (λ (k, (o, f, r, p), g).
            subst In (sym (invoke_goes sv buffer n s out e)) (by.1 (k, o, r, p, g))),
      )
    ]
