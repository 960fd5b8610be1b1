-- ===== src/Util/Password.antt =====
-- util/mysql-password.js. The hash of the runtime's `crypto` is a parameter.
pub mod Checking
use mycat_js.Prelude.{ℕ, zero, suc, ◌+◌, ◌*◌, ◌/◌, ◌%◌, [], ◌∷◌, ◌++◌}
use mycat_js.Runtime.{Bytes}

-- `a ^ b`, of the low bits.
unfoldable pub xor_bits : ℕ → ℕ → ℕ → ℕ
xor_bits zero a b = 0
xor_bits (suc k) a b = (a + b) % 2 + 2 * xor_bits k (a / 2) (b / 2)

-- The loop of scramble411. An element past the end is undefined, which counts xs 0.
unfoldable pub xor_bytes : Bytes → Bytes → Bytes
xor_bytes [] ys = []
xor_bytes (a ∷ xs) [] = xor_bits 8 a 0 ∷ xor_bytes xs []
xor_bytes (a ∷ xs) (b ∷ ys) = xor_bits 8 a b ∷ xor_bytes xs ys

unfoldable pub scramble411 : (Bytes → Bytes) → Bytes → Bytes → Bytes
scramble411 sha1 pass seed =
    let pass1 = sha1 pass in
    let pass2 = sha1 pass1 in let pass3 = sha1 (seed ++ pass2) in xor_bytes pass3 pass1
