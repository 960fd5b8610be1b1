-- ===== src/Frontend/Seed.antt =====
-- The seed of the greeting and the server's capabilities, in frontend/front-connection.js.
use mycat_js.Prelude.{
  ℕ, zero, suc, ◌+◌, ◌%◌, ◌≡◌, ◌<◌, ◌⊎◌, refl, ap, ◌∙◌, sym, not, ◌||◌, Bool, true, false, [], ◌∷◌,
  Option, none, some, ◌==◌, if◌then◌else◌, arith, inl, inr,
}
use mycat_js.Runtime.{Bytes}
use mycat_js.Net.Packets.{
  has_flag, client_compress, client_plugin_auth, client_secure_connection, client_connect_with_db,
  client_protocol_41,
}

-- The `while` of asciiSeed for a byte that is 0 in its low bits: `r` is the number drawn last, and
-- `draws` are the bytes that `randomBytes` gives. Where they end, the model has no answer.
unfoldable pub fill : ℕ → Bytes → Option (ℕ × Bytes)
fill (suc r) draws = some (suc r, draws)
fill zero [] = none
fill zero (d ∷ draws) = fill (d % 0x80) draws

abbrev with_byte : ℕ → Option Bytes → Option Bytes
with_byte b none = none
with_byte b (some seed) = some (b ∷ seed)

-- The loop over the bytes of the seed.
unfoldable pub seed_loop : ℕ → Bytes → Bytes → Option Bytes
seed_loop r [] draws = some []
seed_loop r (b ∷ seed) draws = elim (b % 0x80) [
  | zero ↦ elim (fill r draws) [
    | none ↦ none
    | some (q, rest) ↦ with_byte q (seed_loop q seed rest)
  ]
  | suc c ↦ with_byte (suc c) (seed_loop r seed draws)
]

unfoldable pub ascii_seed : Bytes → Bytes → Option Bytes
ascii_seed seed draws = seed_loop 0 seed draws

-- `flag |= bit`, for bits that the flag does not have yet. The bits without a name here are
-- CLIENT_LONG_PASSWORD, FOUND_ROWS and LONG_FLAG; then ODBC, LOCAL_FILES, IGNORE_SPACE, INTERACTIVE,
-- IGNORE_SIGPIPE and TRANSACTIONS; and MULTI_RESULTS.
unfoldable pub server_capabilities : Bool → Bool → ℕ
server_capabilities use_compression use_handshake_v10 =
    1
    + 2
    + 4
    + client_connect_with_db
    + (if use_compression then client_compress else 0)
    + (64 + 128 + 256 + client_protocol_41 + 1024 + 4096 + 8192)
    + client_secure_connection
    + 131072
    + (if use_handshake_v10 then client_plugin_auth else 0)

-- One of the bytes is not 0 in its low bits.
unfoldable pub any_usable : Bytes → Bool
any_usable [] = false
any_usable (d ∷ draws) = not (d % 0x80 == 0) || any_usable draws

-- Byte for byte, what a seed is made of: a byte from 1 to 127 that is the low bits of the seed's,
-- if those are not 0.
abbrev pub IsAscii : Bytes → Bytes → Type 0
IsAscii [] [] = Unit {0}
IsAscii [] (c ∷ out) = ⊥
IsAscii (b ∷ seed) [] = ⊥
IsAscii (b ∷ seed) (c ∷ out) =
    (0 < c) × (c < 128) × ((b % 128 ≡ 0) ⊎ (c ≡ b % 128)) × IsAscii seed out

fill_ends :
    (r : ℕ) (draws : Bytes)
    → r < 128
    → (0 < r) ⊎ (any_usable draws ≡ true)
    → (q : ℕ) × (rest : Bytes) × (fill r draws ≡ some (q, rest)) × (0 < q) × (q < 128)
unfolding fill any_usable
fill_ends (suc r) draws lt h = (suc r, draws, refl, omega arith, lt)
fill_ends zero [] lt (inl h) = absurd (omega arith)
fill_ends zero [] lt (inr h) = absurd (cc h)
fill_ends zero (d ∷ draws) lt (inl h) = absurd (omega arith)
fill_ends zero (d ∷ draws) lt (inr h) = fill_ends (d % 128) draws (omega arith) (ground arith)

filled :
    (r b q : ℕ) (seed draws rest : Bytes)
    → b % 128 ≡ 0
    → fill r draws ≡ some (q, rest)
    → seed_loop r (b ∷ seed) draws ≡ with_byte q (seed_loop q seed rest)
unfolding seed_loop
filled r b q seed draws rest e f = rw (seed_loop, e, f) refl

kept :
    (r b c : ℕ) (seed draws : Bytes)
    → b % 128 ≡ suc c
    → seed_loop r (b ∷ seed) draws ≡ with_byte (suc c) (seed_loop r seed draws)
unfolding seed_loop
kept r b c seed draws e = rw (seed_loop, e) refl

zero_or : (n : ℕ) → (n ≡ 0) ⊎ ((c : ℕ) × (n ≡ suc c))
zero_or zero = inl refl
zero_or (suc c) = inr (c, refl)

seed_loop-IsAscii :
    (r : ℕ) (seed draws : Bytes)
    → r < 128
    → (0 < r) ⊎ (any_usable draws ≡ true)
    → (out : Bytes) × (seed_loop r seed draws ≡ some out) × IsAscii seed out
unfolding seed_loop
seed_loop-IsAscii r [] draws lt h = ([], refl, tt)
seed_loop-IsAscii r (b ∷ seed) draws lt h = elim (zero_or (b % 128)) [
  | inl e ↦
      (let (q, rest, f, positive, low) = fill_ends r draws lt h in
        let (out, g, a) = seed_loop-IsAscii q seed rest low (inl positive) in
        (q ∷ out, filled r b q seed draws rest e f ∙ ap (with_byte q) g, (positive, low, inl e, a)))
  | inr (c, e) ↦
      (let (out, g, a) = seed_loop-IsAscii r seed draws lt h in
        (
          suc c ∷ out,
          kept r b c seed draws e ∙ ap (with_byte (suc c)) g,
          (omega arith, omega arith, inr (sym e), a),
        ))
]

-- Where one of the bytes that are drawn is not 0 in its low 7 bits, asciiSeed ends, and gives for
-- each byte of the seed one from 1 to 127, which is the byte's low 7 bits where these are not 0.
pub ascii_seed-IsAscii :
    (seed draws : Bytes)
    → any_usable draws ≡ true
    → (out : Bytes) × (ascii_seed seed draws ≡ some out) × IsAscii seed out
unfolding ascii_seed
ascii_seed-IsAscii seed draws h = seed_loop-IsAscii 0 seed draws (omega arith) (inr h)

-- The greeting has the second part of the seed, it offers compression where the system uses it, and
-- it names a plugin where it is the one of protocol 10.
has_flag-server_capabilities :
    (use_compression use_handshake_v10 : Bool)
    → (has_flag (server_capabilities use_compression use_handshake_v10) client_secure_connection
        ≡ true)
      × (has_flag (server_capabilities use_compression use_handshake_v10) client_compress
          ≡ use_compression)
      × (has_flag (server_capabilities use_compression use_handshake_v10) client_plugin_auth
          ≡ use_handshake_v10)
unfolding server_capabilities
has_flag-server_capabilities true true = (refl, refl, refl)
has_flag-server_capabilities true false = (refl, refl, refl)
has_flag-server_capabilities false true = (refl, refl, refl)
has_flag-server_capabilities false false = (refl, refl, refl)
