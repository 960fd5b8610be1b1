-- ===== src/Sql/Number/Integers.antt =====
-- Integer literals: which of them are INT tokens.
use mycat_js.Prelude.{
  ℕ, ◌+◌, ◌-◌, ◌*◌, ◌^◌, ◌≡◌, ◌≢◌, ◌≤◌, ◌<◌, refl, ◌∙◌, ap, Bool, true, false, [], ◌∷◌, ◌++◌, none,
  length, ok, arith,
}
use native.Mathlib.Nat.{pow-suc, pow-le-pow_right}
use mycat_js.Sql.Chars.{Text, is_digit, is_letter}
use mycat_js.Sql.Number.{
  Scan, goes_on, breaks, scan_round, scan_loop, number_type, int_type, parse_token, int_token,
  bigint_token,
}

-- The scan of a run of digits.
abbrev running : ℕ → ℕ → Bool → Scan
running p i isn = record { i = i; isn = isn; di = none; zeros = p; ei = none; si = none }

abbrev pub AreDigits : Text → Type 0
AreDigits [] = Unit {0}
AreDigits (c ∷ cs) = (is_digit c ≡ true) × AreDigits cs

-- The text ends, or goes on with a character that ends a word.
abbrev pub EndsWord : Text → Type 0
EndsWord [] = Unit {0}
EndsWord (c ∷ cs) = (is_digit c ≡ false) × ((is_letter c ≡ false) × (c ≢ b'.'))

first_round :
    (p c : ℕ)
    → is_digit c ≡ true
    → c ≢ b'0'
    → scan_round p c (running p (p + 1) false) ≡ goes_on (running p (p + 1) true)
unfolding scan_round
first_round p c d nz = ground arith

next_round :
    (p c i : ℕ)
    → is_digit c ≡ true
    → p + 1 < i
    → scan_round p c (running p i true) ≡ goes_on (running p i true)
unfolding scan_round
next_round p c i d h = ground arith

last_round :
    (p c i : ℕ)
    → is_digit c ≡ false
    → is_letter c ≡ false
    → c ≢ b'.'
    → scan_round p c (running p (i + 1) true) ≡ breaks (running p i true)
unfolding scan_round
last_round p c i d l h = ground arith

loop_ends : (p c : ℕ) (s t : Scan) → scan_round p c s ≡ goes_on t → scan_loop p c [] s ≡ breaks t
unfolding scan_loop
loop_ends p c s t h = rw (h, scan_loop)

loop_goes_on :
    (p c d : ℕ) (ds : Text) (s t : Scan)
    → scan_round p c s ≡ goes_on t
    → scan_loop p c (d ∷ ds) s ≡ scan_loop p d ds (record t { i = t.i + 1 })
unfolding scan_loop
loop_goes_on p c d ds s t h = rw (h, scan_loop)

loop_breaks :
    (p c : ℕ) (ds : Text) (s t : Scan) → scan_round p c s ≡ breaks t → scan_loop p c ds s ≡ breaks t
unfolding scan_loop
loop_breaks p c [] s t h = rw (h, scan_loop)
loop_breaks p c (d ∷ ds) s t h = rw (h, scan_loop)

digits_loop :
    (p c i j : ℕ) (ds rest : Text) (isn : Bool)
    → p < i
    → j ≡ i + length ds
    → scan_round p c (running p i isn) ≡ goes_on (running p i true)
    → AreDigits ds
    → EndsWord rest
    → scan_loop p c (ds ++ rest) (running p i isn) ≡ breaks (running p j true)
digits_loop p c i j [] [] isn lt e r d w =
    loop_ends p c _ _ r ∙ ap (λ k. breaks (running p k true)) (omega arith)
digits_loop p c i j [] (x ∷ xs) isn lt e r d w =
    loop_goes_on p c x xs _ _ r
    ∙ loop_breaks p x xs _ _ (last_round p x i w.0 w.1.0 w.1.1)
    ∙ ap (λ k. breaks (running p k true)) (omega arith)
digits_loop p c i j (x ∷ xs) rest isn lt e r d w =
    loop_goes_on p c x (xs ++ rest) _ _ r
    ∙ digits_loop p x (i + 1) j xs rest true (omega arith) (omega arith)
        (next_round p x (i + 1) d.0 (omega arith)) d.1 w

-- A literal of digits that does not start with 0, with no digit, letter or point behind it, is
-- one token that ends behind its digits, whose type goes by its place and length.
pub parse_token_digits :
    (sql : Text) (p line c : ℕ) (ds rest : Text)
    → is_digit c ≡ true
    → c ≢ b'0'
    → AreDigits ds
    → EndsWord rest
    → parse_token sql p line (c ∷ (ds ++ rest))
      ≡ ok (int_type sql p (p + 1 + length ds) p, p + 1 + length ds)
unfolding parse_token number_type is_digit
parse_token_digits sql p line c ds rest dc nz d w = ground (
  arith,
  digits_loop p c (p + 1) (p + 1 + length ds) ds rest false (omega arith) refl
      (first_round p c dc nz) d w,
)

-- The number that a literal stands for, behind the digits already read.
unfoldable pub value : ℕ → Text → ℕ
value acc [] = acc
value acc (c ∷ cs) = value (10 * acc + (c - b'0')) cs

one_digit :
    (acc d power v : ℕ)
    → d ≤ 9
    → v + 1 ≤ (10 * acc + d + 1) * power
    → v + 1 ≤ (acc + 1) * (power * 10)
one_digit acc d power v h k = grind arith

value_bound : (acc : ℕ) (ds : Text) → AreDigits ds → value acc ds + 1 ≤ (acc + 1) * 10 ^ length ds
unfolding value is_digit
value_bound acc [] d = omega arith
value_bound acc (c ∷ cs) d =
    let small : c - b'0' ≤ 9 = ground (arith, d.0) in
    rw (pow-suc 10 (length cs)) (
      one_digit acc (c - b'0') (10 ^ length cs) _ small
        (value_bound (10 * acc + (c - b'0')) cs d.1))

int_type_short : (sql : Text) (p n : ℕ) → int_type sql p (p + 1 + n) p ≡ int_token → n ≤ 14
unfolding int_type
int_type_short sql p n h = ground arith

-- A literal of digits that does not start with 0, with no digit, letter or point behind it, is at
-- most Number.MAX_SAFE_INTEGER if it becomes an INT token.
pub int_token_safe :
    (sql : Text) (p line c j : ℕ) (ds rest : Text)
    → is_digit c ≡ true
    → c ≢ b'0'
    → AreDigits ds
    → EndsWord rest
    → parse_token sql p line (c ∷ (ds ++ rest)) ≡ ok (int_token, j)
    → value 0 (c ∷ ds) ≤ 9007199254740991
int_token_safe sql p line c j ds rest dc nz d w h =
    let short : length ds ≤ 14 =
      int_type_short sql p (length ds) (cc (parse_token_digits sql p line c ds rest dc nz d w)) in
    let power : 10 ^ length (c ∷ ds) ≤ 10 ^ 15 =
      pow-le-pow_right (omega arith) {j = 15} (omega arith) in
    omega (arith, power, value_bound 0 (c ∷ ds) (dc, d))

-- A literal of 16 digits that does not start with 0, with no digit, letter or point behind it,
-- becomes a BIGINT token, also where it is at most Number.MAX_SAFE_INTEGER.
safe_bigint :
    (sql : Text) (p line c : ℕ) (ds rest : Text)
    → is_digit c ≡ true
    → c ≢ b'0'
    → AreDigits ds
    → EndsWord rest
    → length ds ≡ 15
    → value 0 (c ∷ ds) ≤ 9007199254740991
    → parse_token sql p line (c ∷ (ds ++ rest)) ≡ ok (bigint_token, p + 16)
unfolding int_type
safe_bigint sql p line c ds rest dc nz d w len safe =
    ground (arith, parse_token_digits sql p line c ds rest dc nz d w)
