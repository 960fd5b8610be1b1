-- ===== src/Sql/Number/Digits.antt =====
-- Where the scan of a word stops, and what a string of digits is.
use mycat_js.Prelude.{
  ℕ, suc, ◌+◌, ◌≡◌, ◌≤◌, ◌<◌, Bool, true, false, [], ◌∷◌, Option, none, some, if◌then◌else◌, length,
  refl, ok, arith, ◌>>=◌, >>=-eq-ok,
}
use mycat_js.Sql.Chars.{Text}
use mycat_js.Sql.Number.{
  Scan, Round, goes_on, breaks, returns_sign, throws_at, scan_round, scan_loop, finish, scan_start,
  TokenType, blank_token, comment_token, sign_token, parse_token, number_type, int_type,
}

-- The point that was read stands before the offset.
abbrev Behind : Option ℕ → ℕ → Type 0
Behind none i = Unit {0}
Behind (some d) i = d < i

Behind-suc : (di : Option ℕ) (i : ℕ) → Behind di i → Behind di (i + 1)
Behind-suc none i h = tt
Behind-suc (some d) i h = omega arith

-- The offset that a round leaves, where it does not throw: a sign takes a character.
abbrev pub Within : ℕ → ℕ → Round → Type 0
Within lo hi (goes_on t) = (lo ≤ t.i) × (t.i ≤ hi) × Behind t.di t.i
Within lo hi (breaks t) = (lo ≤ t.i) × (t.i ≤ hi)
Within lo hi (returns_sign k) = (lo + 1 ≤ k) × (k ≤ hi)
Within lo hi (throws_at k) = Unit {0}

goes_on-i : (p c : ℕ) (s : Scan) {t : Scan} → scan_round p c s ≡ goes_on t → t.i ≡ s.i
unfolding scan_round
goes_on-i p c s h = ground arith

scan_round-Within :
    (p c : ℕ) (s : Scan) → p < s.i → Behind s.di s.i → Within p s.i (scan_round p c s)
unfolding scan_round
scan_round-Within p c s h b = ground arith

Within-mono : (lo hi hi' : ℕ) (r : Round) → Within lo hi r → hi ≤ hi' → Within lo hi' r
Within-mono lo hi hi' (goes_on t) (from, upto, b) h = (from, omega arith, b)
Within-mono lo hi hi' (breaks t) w h = omega arith
Within-mono lo hi hi' (returns_sign k) w h = omega arith
Within-mono lo hi hi' (throws_at k) w h = tt

pub scan_loop-Within :
    (p c : ℕ) (ds : Text) (s : Scan)
    → p < s.i
    → Behind s.di s.i
    → Within p (s.i + length ds) (scan_loop p c ds s)
unfolding scan_loop
scan_loop-Within p c [] s h b = go (scan_round p c s) refl (scan_round-Within p c s h b)
  where
    go :
        (r : Round)
        → scan_round p c s ≡ r
        → Within p s.i r
        → Within p (s.i + 0) (scan_loop p c [] s)
    go (goes_on t) e w = rw (e, scan_loop) (omega arith)
    go (breaks t) e w = rw (e, scan_loop) (omega arith)
    go (returns_sign k) e w = rw (e, scan_loop) (omega arith)
    go (throws_at k) e w = rw (e, scan_loop) tt
scan_loop-Within p c (d ∷ ds) s h b =
    go (scan_round p c s) refl (scan_round-Within p c s h b) (scan_loop-Within p d ds)
  where
    go :
        (r : Round)
        → scan_round p c s ≡ r
        → Within p s.i r
        → ((u : Scan) → p < u.i → Behind u.di u.i → Within p (u.i + length ds) (scan_loop p d ds u))
        → Within p (s.i + suc (length ds)) (scan_loop p c (d ∷ ds) s)
    go (goes_on t) e w ih =
        let same : t.i ≡ s.i = goes_on-i p c s e in
        rw (e, scan_loop)
          (Within-mono p _ _ _
            (ih (record t { i = t.i + 1 }) (omega arith) (Behind-suc t.di t.i w.2)) (omega arith))
    go (breaks t) e w ih = rw (e, scan_loop) (omega arith)
    go (returns_sign k) e w ih = rw (e, scan_loop) (omega arith)
    go (throws_at k) e w ih = rw (e, scan_loop) tt

-- The tokens that take a character from the text, whatever it is: blanks, comments and signs.
abbrev pub moves_on : TokenType → Bool
moves_on blank_token = true
moves_on comment_token = true
moves_on sign_token = true
moves_on _ = false

int_type-stays : (sql : Text) (start stop z : ℕ) → moves_on (int_type sql start stop z) ≡ false
unfolding int_type
int_type-stays sql start stop z = ground arith

number_type-stays :
    (sql : Text) (start line : ℕ) (s : Scan) (t : TokenType)
    → number_type sql start line s ≡ ok t
    → moves_on t ≡ false
unfolding number_type
number_type-stays sql start line s t h = ground (arith, int_type-stays sql start s.i s.zeros)

-- A word is no blank and no comment.
abbrev pub IsWord : TokenType → Type 0
IsWord blank_token = ⊥
IsWord comment_token = ⊥
IsWord _ = Unit {0}

stays-IsWord : (t : TokenType) → moves_on t ≡ false → IsWord t
stays-IsWord t h = ground arith

abbrev pub Ended : ℕ → ℕ → TokenType → ℕ → Type 0
Ended p hi t j = (p + (if moves_on t then 1 else 0) ≤ j) × (j ≤ hi) × IsWord t

typed_bounds :
    (sql : Text) (p line hi : ℕ) (s : Scan) (t : TokenType) (j : ℕ)
    → (p ≤ s.i) × (s.i ≤ hi)
    → ◌>>=◌ {Next = TokenType × ℕ} (number_type sql p line s) (λ u. ok (u, s.i)) ≡ ok (t, j)
    → Ended p hi t j
typed_bounds sql p line hi s t j w h =
    let (u, e, f) = >>=-eq-ok (number_type sql p line s) (λ u. ok (u, s.i)) h in
    let stays = number_type-stays sql p line s u e in
    let word = stays-IsWord u stays in
    ended u t s.i j (cc f) (cc f) (rw (stays) (omega arith, w.1, word))
  where
    ended : (u t : TokenType) (i j : ℕ) → u ≡ t → i ≡ j → Ended p hi u i → Ended p hi t j
    ended u t i j e g h = rw⁻¹ (e, g) h

finish_bounds :
    (sql : Text) (p line hi : ℕ) (r : Round) (t : TokenType) (j : ℕ)
    → Within p hi r
    → finish sql p line r ≡ ok (t, j)
    → Ended p hi t j
unfolding finish
finish_bounds sql p line hi (goes_on s) t j (from, upto, b) h =
    typed_bounds sql p line hi s t j (from, upto) h
finish_bounds sql p line hi (breaks s) t j w h = typed_bounds sql p line hi s t j w h
finish_bounds sql p line hi (returns_sign k) t j w h = ground arith
finish_bounds sql p line hi (throws_at k) t j w h = cc

abbrev pointed : ℕ → Scan
pointed p = record (scan_start p) { i = p + 2; isn = true; di = some p }

-- A word ends inside the text, and is no blank and no comment.
pub parse_token_bounds :
    (sql : Text) (p line : ℕ) (text : Text) (t : TokenType) (j : ℕ)
    → parse_token sql p line text ≡ ok (t, j)
    → Ended p (p + length text) t j
unfolding parse_token
parse_token_bounds sql p line [] t j h = cc
parse_token_bounds sql p line (c ∷ []) t j h = ground (
  arith,
  finish_bounds sql p line (p + 1) (scan_loop p c [] (scan_start p)) t j,
  scan_loop-Within p c [] (scan_start p) (omega arith) tt,
)
parse_token_bounds sql p line (c ∷ (d ∷ ds)) t j h = ground (
  arith,
  finish_bounds sql p line _ (scan_loop p c (d ∷ ds) (scan_start p)) t j
      (scan_loop-Within p c (d ∷ ds) (scan_start p) (omega arith) tt),
  finish_bounds sql p line _ (scan_loop p d ds (pointed p)) t j
      (scan_loop-Within p d ds (pointed p) (omega arith) (omega arith)),
)
