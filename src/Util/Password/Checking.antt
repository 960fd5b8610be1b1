-- ===== src/Util/Password/Checking.antt =====
-- The protocol's own check of what util/mysql-password.js makes.
use mycat_js.Prelude.{
  ℕ, zero, suc, ◌+◌, ◌*◌, ◌/◌, ◌%◌, ◌≡◌, ◌<◌, refl, ap, ◌∙◌, sym, [], ◌∷◌, ◌++◌, Bool, true, arith,
  length,
}
use mycat_js.Runtime.{Bytes}
use mycat_js.Backend.Source.{same_text}
use mycat_js.Util.Scheduler.Names.{same_text_refl}
use mycat_js.Util.Password.{xor_bits, xor_bytes, scramble411}

-- 2 ^ k
abbrev span : ℕ → ℕ
span zero = 1
span (suc k) = span k + span k

xor_bits_again : (k a b : ℕ) → b < span k → xor_bits k (xor_bits k a b) a ≡ b
unfolding xor_bits
xor_bits_again zero a b h = omega arith
xor_bits_again (suc k) a b h =
    let x = xor_bits k (a / 2) (b / 2) in
    let half : ((a + b) % 2 + 2 * x) / 2 ≡ x = omega arith in
    let rest : xor_bits k x (a / 2) ≡ b / 2 = xor_bits_again k (a / 2) (b / 2) (omega arith) in
    ap (λ y. ((a + b) % 2 + 2 * x + a) % 2 + 2 * xor_bits k y (a / 2)) half
    ∙ ap (λ y. ((a + b) % 2 + 2 * x + a) % 2 + 2 * y) rest
    ∙ omega arith

-- A list of bytes.
abbrev pub AreBytes : Bytes → Type 0
AreBytes [] = Unit {0}
AreBytes (b ∷ rest) = (b < 256) × AreBytes rest

xor_bytes_again :
    (xs ys : Bytes) → length xs ≡ length ys → AreBytes ys → xor_bytes (xor_bytes xs ys) xs ≡ ys
unfolding xor_bytes
xor_bytes_again [] [] h w = refl
xor_bytes_again [] (y ∷ ys) h w = absurd (cc h)
xor_bytes_again (x ∷ xs) [] h w = absurd (cc h)
xor_bytes_again (x ∷ xs) (y ∷ ys) h w =
    rw (xor_bits_again 8 x y w.0, xor_bytes_again xs ys (omega arith) w.1) refl

-- A hash gives 20 bytes.
pub record IsHash (sha1 : Bytes → Bytes) : Type 0 where
  pub length_lem : (m : Bytes) → length (sha1 m) ≡ 20
  pub bytes_lem : (m : Bytes) → AreBytes (sha1 m)

-- How a server checks an answer that has only the hash of the hash of the password: the answer
-- without the hash of the seed and what is stored, hashed, is what is stored.
abbrev pub verifies : (Bytes → Bytes) → Bytes → Bytes → Bytes → Bool
verifies sha1 stored seed reply = same_text (sha1 (xor_bytes reply (sha1 (seed ++ stored)))) stored

-- For a hash that gives 20 bytes, what scramble411 makes of a password and a seed passes the
-- check that the protocol describes, which knows the seed and the hash of the password's hash.
pub scramble411-verifies :
    (sha1 : Bytes → Bytes) (pass seed : Bytes)
    → IsHash sha1
    → verifies sha1 (sha1 (sha1 pass)) seed (scramble411 sha1 pass seed) ≡ true
unfolding scramble411
scramble411-verifies sha1 pass seed law =
    let again =
      xor_bytes_again (sha1 (seed ++ sha1 (sha1 pass))) (sha1 pass)
        (law.length_lem (seed ++ sha1 (sha1 pass)) ∙ sym (law.length_lem pass))
        (law.bytes_lem pass) in
    ap (λ m. same_text (sha1 m) (sha1 (sha1 pass))) again ∙ same_text_refl (sha1 (sha1 pass))
