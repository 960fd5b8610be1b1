-- ===== src/Frontend/ReadHandler/Ends.antt =====
-- That the loop of readUnCompressed in frontend/handler/front-read-handler.js ends, and how long its
-- packets are.
use mycat_js.Prelude.{
  ℕ, zero, suc, ◌+◌, ◌≡◌, ◌≤◌, ◌<◌, Option, none, some, length, ltb, ◌==◌, Result, ok, err, arith,
  Bool-cases, inl, inr, ==_iff, ltb-false→le, refl, sym, ap, ◌∙◌,
}
use mycat_js.Runtime.{Bytes}
use mycat_js.Buffer.Helper.{read_u24_le}
use mycat_js.Frontend.ReadHandler.{
  Socket, Source, max_packet_len, Ended, packet, too_large, failed, Vars, Round, ended, again,
  received, joined, behind_payload, read_payload, behind_header, round, rounds, read_uncompressed,
}

-- A packet's length is within a limit.
abbrev pub EndIsWithin : ℕ → Ended → Type 0
EndIsWithin m (packet b n) = n ≤ m
EndIsWithin m too_large = Unit {0}
EndIsWithin m (failed e) = Unit {0}

-- The length with the header that the first payload is to add.
abbrev size : ℕ → Vars → ℕ
size h v = elim v.buffer [ none ↦ v.length + h | some b ↦ v.length ]

-- The length is that of the header and the payloads so far, which are within the limit.
abbrev IsCounted : ℕ → ℕ → Vars → Type 0
IsCounted h m v = (size h v ≡ h + v.packet_length) × (v.packet_length ≤ m)

-- A round ends within the limits, or goes on behind a full payload and keeps them.
abbrev Keeps : {S : Type 0} → ℕ → ℕ → Vars → Round S → Type 0
Keeps h m v (ended e t) = EndIsWithin (h + m) e
Keeps h m v (again w t) =
    (w.packet_length ≡ v.packet_length + max_packet_len)
    × IsCounted h m w
    × (t.header_size ≡ h)
    × (t.max_allowed_packet ≡ m)

abbrev vars : Option Bytes → ℕ → ℕ → Vars
vars b l p = record { buffer = b; length = l; packet_length = p }

joined-IsCounted :
    (h m : ℕ) (b : Option Bytes) (l p : ℕ) (head : Bytes) (n : ℕ) (payload : Bytes)
    → IsCounted h m (vars b l p)
    → p + n ≤ m
    → let w = joined h (vars b l p) head n payload in
      IsCounted h m w × (w.length ≤ h + m) × (w.packet_length ≡ p + n)
unfolding joined
joined-IsCounted h m none l p head n payload c k = ((omega arith, omega arith), omega arith, refl)
joined-IsCounted h m (some b) l p head n payload c k =
    ((omega arith, omega arith), omega arith, refl)

module _ {S : Type 0} (k : Socket S) where
  payload-Keeps :
      (s : Source S) (v : Vars) (head : Bytes) (n : ℕ) (r : Result (Option (Bytes × S)))
      → IsCounted s.header_size s.max_allowed_packet v
      → v.packet_length + n ≤ s.max_allowed_packet
      → Keeps s.header_size s.max_allowed_packet v (behind_payload s v head n (received s r))
  unfolding behind_payload received
  payload-Keeps s v head n (err e) c l = tt
  payload-Keeps s v head n (ok none) c l = tt
  payload-Keeps s v head n (ok (some (payload, t))) c l =
      let (counted, short, grows) =
        joined-IsCounted s.header_size s.max_allowed_packet v.buffer v.length v.packet_length head n
          payload c l in
      elim (Bool-cases (n == max_packet_len)) [
        | inl e ↦ rw e (
          grows ∙ ap (λ x. v.packet_length + x) ((==_iff n max_packet_len).0 e),
          counted,
          refl,
          refl,
        )
        | inr e ↦ rw e short
      ]

  header-Keeps :
      (s : Source S) (v : Vars) (r : Result (Option (Bytes × S)))
      → IsCounted s.header_size s.max_allowed_packet v
      → Keeps s.header_size s.max_allowed_packet v (behind_header k s v (received s r))
  unfolding behind_header read_payload received
  header-Keeps s v (err e) c = tt
  header-Keeps s v (ok none) c = tt
  header-Keeps s v (ok (some (head, t))) c =
      let s' : Source S = record s { socket = t; in_bytes = s.in_bytes + length head } in
      let n = read_u24_le head 0 in
      elim (Bool-cases (ltb s.max_allowed_packet (v.packet_length + n))) [
        | inl e ↦ rw e tt
        | inr e ↦ rw e (payload-Keeps s' v head n (k.read t n) c (ltb-false→le _ _ e))
      ]

  round-Keeps :
      (s : Source S) (v : Vars) (h m : ℕ)
      → s.header_size ≡ h
      → s.max_allowed_packet ≡ m
      → IsCounted h m v
      → Keeps h m v (round k s v)
  unfolding round
  round-Keeps s v h m hh hm = rw (sym hh, sym hm) (header-Keeps s v (k.read s.socket s.header_size))

  -- A round's outcome, where the rounds behind it end.
  round-Ends :
      (fuel h m : ℕ) (v : Vars) (r : Round S)
      → Keeps h m v r
      → ((w : Vars) (t : Source S)
          → Keeps h m v (again w t)
          → (e : Ended) × (u : Source S) × (rounds k fuel t w ≡ some (e, u))
            × EndIsWithin (h + m) e)
      → (e : Ended) × (u : Source S) × (◌≡◌ {A = Option (Ended × Source S)}
          (elim r [ ended e t ↦ some (e, t) | again w t ↦ rounds k fuel t w ])
          (some (e, u)))
        × EndIsWithin (h + m) e
  round-Ends fuel h m v (ended e t) q f = (e, t, refl, q)
  round-Ends fuel h m v (again w t) q f = f w t q

  rounds-Ends :
      (fuel h m : ℕ) (s : Source S) (v : Vars)
      → s.header_size ≡ h
      → s.max_allowed_packet ≡ m
      → IsCounted h m v
      → m < v.packet_length + fuel
      → (e : Ended) × (t : Source S) × (rounds k fuel s v ≡ some (e, t)) × EndIsWithin (h + m) e
  unfolding rounds
  rounds-Ends zero h m s v hh hm c l = absurd (omega arith)
  rounds-Ends (suc fuel) h m s v hh hm c l =
      round-Ends fuel h m v (round k s v) (round-Keeps s v h m hh hm c)
        (λ w t q. rounds-Ends fuel h m t w q.2 q.3 q.1 (omega (arith, q.0)))

-- Whatever the socket gives, the loop ends within its fuel: with an error, with the refusal of a
-- packet over the limit, or with a packet whose length is at most the limit and its header.
pub read_uncompressed-Ends :
    {S : Type 0} (k : Socket S) (s : Source S)
    → (e : Ended) × (t : Source S) × (read_uncompressed k s ≡ some (e, t))
      × EndIsWithin (s.header_size + s.max_allowed_packet) e
unfolding read_uncompressed
read_uncompressed-Ends k s =
    rounds-Ends k (s.max_allowed_packet + 1) s.header_size s.max_allowed_packet s (vars none 0 0)
      refl refl (omega arith, omega arith) (omega arith)
