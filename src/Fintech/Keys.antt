-- ===== src/Fintech/Keys.antt =====
-- packages/demo-db/src/keys.ts: the scope of the ledger's idempotency key.
use rupture_grid.Base.{
  ℕ, zero, suc, ◌≡◌, refl, sym, ap, Bool, true, false, [], ◌∷◌, ◌++◌, Text, codes, any, ◌==◌, arith,
}

pub data ProcessingMode : Type 0 where
  vulnerable secure : ProcessingMode

-- The code point of a colon.
abbrev pub colon : ℕ
colon = 58

abbrev pub scoped : ProcessingMode → Text → Text → Text
scoped secure payment event = codes "payment:" ++ payment
scoped vulnerable payment event = codes "event:" ++ event

-- `deriveIdempotencyKey`.
unfoldable pub derive_idempotency_key : ProcessingMode → Text → Text → Text → Text
derive_idempotency_key mode payment event wallet =
    codes "wallet-credit:" ++ (scoped mode payment event ++ (colon ∷ wallet))

abbrev pub has_colon : Text → Bool
has_colon t = any (λ c. c == colon) t

-- What the key of a mode is scoped to.
abbrev pub scope_id : ProcessingMode → Text → Text → Text
scope_id secure payment event = payment
scope_id vulnerable payment event = event

has_colon-after : (cs w : Text) → has_colon (cs ++ (colon ∷ w)) ≡ true
has_colon-after [] w = refl
has_colon-after (c ∷ cs) w = ground (arith, has_colon-after cs w)

-- The last colon splits a key.
split_last :
    (s t v w : Text)
    → has_colon v ≡ false
    → has_colon w ≡ false
    → (s ++ (colon ∷ v)) ≡ (t ++ (colon ∷ w))
    → (s ≡ t) × (v ≡ w)
split_last [] [] v w a b h = (refl, cc)
split_last [] (c ∷ cs) v w a b h =
    let e : v ≡ (cs ++ (colon ∷ w)) = cc in absurd (grind (arith, has_colon-after cs w))
split_last (c ∷ cs) [] v w a b h =
    let e : w ≡ (cs ++ (colon ∷ v)) = cc in absurd (grind (arith, has_colon-after cs v))
split_last (c ∷ cs) (d ∷ ds) v w a b h =
    let e : (cs ++ (colon ∷ v)) ≡ (ds ++ (colon ∷ w)) = cc in
    let (x, y) = split_last cs ds v w a b e in let same : c ≡ d = cc in (rw (same, x) refl, y)

-- The character at a place, 0 behind the end.
abbrev char_at : ℕ → Text → ℕ
char_at n [] = 0
char_at zero (c ∷ cs) = c
char_at (suc n) (c ∷ cs) = char_at n cs

abbrev p_code : ℕ
p_code = 112

abbrev e_code : ℕ
e_code = 101

letters_differ {ℓ} : {A : Type ℓ} → p_code ≡ e_code → A
letters_differ h = absurd (omega arith)

-- Between wallets whose identifier has no colon, equal keys have the same mode, the same wallet and
-- the same payment (SECURE) or event (VULNERABLE), whatever the identifiers of these contain.
pub derive_idempotency_key-injective :
    (m n : ProcessingMode) (p e v q f w : Text)
    → has_colon v ≡ false
    → has_colon w ≡ false
    → derive_idempotency_key m p e v ≡ derive_idempotency_key n q f w
    → (m ≡ n) × (scope_id m p e ≡ scope_id n q f) × (v ≡ w)
unfolding derive_idempotency_key codes
derive_idempotency_key-injective secure secure p e v q f w a b h =
    let t : (p ++ (colon ∷ v)) ≡ (q ++ (colon ∷ w)) = cc in
    let (x, y) = split_last p q v w a b t in (refl, x, y)
derive_idempotency_key-injective vulnerable vulnerable p e v q f w a b h =
    let t : (e ++ (colon ∷ v)) ≡ (f ++ (colon ∷ w)) = cc in
    let (x, y) = split_last e f v w a b t in (refl, x, y)
derive_idempotency_key-injective secure vulnerable p e v q f w a b h =
    letters_differ (ap (char_at 14) h)
derive_idempotency_key-injective vulnerable secure p e v q f w a b h =
    letters_differ (sym (ap (char_at 14) h))
