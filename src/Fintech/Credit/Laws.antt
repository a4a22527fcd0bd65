-- ===== src/Fintech/Credit/Laws.antt =====
-- What a committed credit keeps: balances are the sums of the ledger, and under the SECURE scope a
-- payment has one effect.
use rupture_grid.Base.{
  same_text, same_text_refl, ℕ, ◌+◌, ◌≤◌, ◌≡◌, refl, sym, ◌∙◌, inl, inr, true, false, Option, some,
  List, [], ◌∷◌, Text, count_of, ◌==◌, if◌then◌else◌, arith, Bool-cases, ==_iff, ||-true, change,
  count_of-none, update_where-member, update_where,
}
use mathlib.Core.List.{Memᴰ}
use rupture_grid.Fintech.Keys.{secure, derive_idempotency_key}
use rupture_grid.Fintech.Credit.{
  Wallet, ProviderPayment, FinancialEffect, LedgerEntry, EffectIds, WalletCreditInput, new_entry,
  has_key, increment, find_where,
}

-- The sum of the ledger entries of a wallet.
unfoldable pub credited_sum : Text → List LedgerEntry → ℕ
credited_sum id [] = 0
credited_sum id (e ∷ es) =
    (if same_text id e.wallet_id then e.amount_minor else 0) + credited_sum id es

-- Every balance is the sum of the wallet's ledger entries.
abbrev pub IsBalanced : List Wallet → List LedgerEntry → Type 0
IsBalanced wallets entries =
    (w : Wallet) → Memᴰ w wallets → w.balance_minor ≡ credited_sum w.id entries

credit_one :
    (ids : EffectIds) (input : WalletCreditInput) (entries : List LedgerEntry) (w : Wallet)
    → w.balance_minor ≡ credited_sum w.id entries
    → (change
        (λ (x : Wallet). same_text x.id input.wallet_id)
        (increment input.payment.amount_minor)
        w).balance_minor
      ≡ credited_sum
          (change
            (λ (x : Wallet). same_text x.id input.wallet_id)
            (increment input.payment.amount_minor)
            w).id
          (new_entry ids input ∷ entries)
unfolding credited_sum
credit_one ids input entries w h = ground arith

pub credit-IsBalanced :
    (ids : EffectIds) (input : WalletCreditInput) (wallets : List Wallet)
    (entries : List LedgerEntry)
    → IsBalanced wallets entries
    → IsBalanced
        (update_where
          (λ (x : Wallet). same_text x.id input.wallet_id)
          (increment input.payment.amount_minor)
          wallets)
        (new_entry ids input ∷ entries)
credit-IsBalanced ids input wallets entries h w m =
    let (x, at, e) =
      update_where-member (λ (x : Wallet). same_text x.id input.wallet_id)
        (increment input.payment.amount_minor) wallets w m in
    rw e (credit_one ids input entries x (h x at))

-- The key of a payment under the SECURE scope.
abbrev pub payment_key : ProviderPayment → Text
payment_key p = derive_idempotency_key secure p.provider_payment_id [] p.wallet_id

abbrev pub payment_of : List ProviderPayment → ℕ → Option ProviderPayment
payment_of payments id = find_where (λ (p : ProviderPayment). p.id == id) payments

abbrev pub IsCredit : List ProviderPayment → FinancialEffect → LedgerEntry → Type 0
IsCredit payments f e =
    (p : ProviderPayment) × (payment_of payments f.payment_id ≡ some p)
    × (e.idempotency_key ≡ payment_key p)

-- The ledger of a target that has only run in SECURE mode: effects and entries come in pairs, each
-- entry has its payment's key, and no key occurs twice.
abbrev pub IsKeyed : List ProviderPayment → List FinancialEffect → List LedgerEntry → Type 0
IsKeyed payments [] [] = Unit
IsKeyed payments [] (e ∷ es) = ⊥
IsKeyed payments (f ∷ fs) [] = ⊥
IsKeyed payments (f ∷ fs) (e ∷ es) =
    IsCredit payments f e × (has_key e.idempotency_key es ≡ false) × IsKeyed payments fs es

same_payment :
    (payments : List ProviderPayment) (f g : FinancialEffect) (e x : LedgerEntry)
    → IsCredit payments f e
    → IsCredit payments g x
    → f.payment_id ≡ g.payment_id
    → same_text x.idempotency_key e.idempotency_key ≡ true
same_payment payments f g e x (p, a, b) (q, c, d) same =
    let pq : p ≡ q = cc in
    let keys : x.idempotency_key ≡ e.idempotency_key = cc in
    rw keys (same_text_refl e.idempotency_key)

member_key :
    (payments : List ProviderPayment) (fs : List FinancialEffect) (es : List LedgerEntry)
    (f g : FinancialEffect) (e : LedgerEntry)
    → IsKeyed payments fs es
    → IsCredit payments f e
    → Memᴰ g fs
    → f.payment_id ≡ g.payment_id
    → has_key e.idempotency_key es ≡ true
member_key payments [] es f g e k c m same = elim m [ ]
member_key payments (h ∷ fs) [] f g e k c m same = elim k [ ]
member_key payments (h ∷ fs) (x ∷ es) f g e k c (Memᴰ.head q) same =
    rw (same_payment payments f h e x c k.0 (rw q at same)) refl
member_key payments (h ∷ fs) (x ∷ es) f g e k c (Memᴰ.tail m) same =
    rw (member_key payments fs es f g e k.2 c m same) (||-true _)

-- The number of effects of a payment.
abbrev pub effects_of : ℕ → List FinancialEffect → ℕ
effects_of id fs = count_of (λ (f : FinancialEffect). f.payment_id == id) fs

none_other :
    (payments : List ProviderPayment) (fs : List FinancialEffect) (es : List LedgerEntry)
    (f : FinancialEffect) (e : LedgerEntry) (id : ℕ)
    → IsCredit payments f e
    → has_key e.idempotency_key es ≡ false
    → IsKeyed payments fs es
    → f.payment_id ≡ id
    → effects_of id fs ≡ 0
none_other payments fs es f e id c fresh k here =
    count_of-none (λ (g : FinancialEffect). g.payment_id == id) fs
      (λ g m. elim (Bool-cases (g.payment_id == id)) [
        | inl there ↦
            let same : f.payment_id ≡ g.payment_id =
              here ∙ sym ((==_iff g.payment_id id).0 there) in
            let found = member_key payments fs es f g e k c m same in cc
        | inr h ↦ h
      ])

pub IsKeyed-once :
    (payments : List ProviderPayment) (fs : List FinancialEffect) (es : List LedgerEntry) (id : ℕ)
    → IsKeyed payments fs es
    → effects_of id fs ≤ 1
IsKeyed-once payments [] es id k = omega arith
IsKeyed-once payments (f ∷ fs) [] id k = elim k [ ]
IsKeyed-once payments (f ∷ fs) (e ∷ es) id (c, fresh, k) = elim (Bool-cases (f.payment_id == id)) [
  | inl here ↦
      let none = none_other payments fs es f e id c fresh k ((==_iff f.payment_id id).0 here) in
      ground arith
  | inr h ↦ let rest = IsKeyed-once payments fs es id k in ground arith
]
