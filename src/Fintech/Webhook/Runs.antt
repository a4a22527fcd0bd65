-- ===== src/Fintech/Webhook/Runs.antt =====
-- What any number of requests keeps, one after the other: each request's money moves in one database
-- transaction.
use rupture_grid.Base.{ℕ, ◌≤◌, ◌≡◌, refl, sym, ◌∙◌, inl, inr, List, [], ◌∷◌}
use mathlib.Core.Path.{subst}
use rupture_grid.Fintech.Keys.{secure, derive_idempotency_key}
use rupture_grid.Fintech.Credit.{
  Wallet, ProviderPayment, ProviderEvent, FinancialEffect, LedgerEntry, Db, credit_key, new_effect,
  new_entry,
}
use rupture_grid.Fintech.Credit.Laws.{
  IsBalanced, credit-IsBalanced, payment_key, IsKeyed, IsKeyed-once, effects_of,
}
use rupture_grid.Fintech.Webhook.{Request, credit_input, process_delivery, process_all}
use rupture_grid.Fintech.Webhook.Laws.{process_delivery-books}

IsBalanced-as :
    (ws ws' : List Wallet) (es es' : List LedgerEntry)
    → ws' ≡ ws
    → es' ≡ es
    → IsBalanced ws es
    → IsBalanced ws' es'
IsBalanced-as ws ws' es es' a b h =
    subst (λ x. IsBalanced x es') (sym a) (subst (λ x. IsBalanced ws x) (sym b) h)

step-IsBalanced :
    (r : Request) (db : Db)
    → IsBalanced db.wallets db.entries
    → IsBalanced (process_delivery r db).0.wallets (process_delivery r db).0.entries
step-IsBalanced r db h = elim (process_delivery-books r db) [
  | inl (s, u) ↦ IsBalanced-as _ _ _ _ s.wallets s.entries h
  | inr (p, event, found, fresh, s) ↦
      IsBalanced-as _ _ _ _ s.wallets s.entries
        (credit-IsBalanced r.ids (credit_input r event p db) db.wallets db.entries h)
]

-- If every wallet's balance is the sum of its ledger entries, that is so after any requests, in either
-- mode and whatever their answers.
pub process_all-IsBalanced :
    (rs : List Request) (db : Db)
    → IsBalanced db.wallets db.entries
    → IsBalanced (process_all rs db).wallets (process_all rs db).entries
unfolding process_all
process_all-IsBalanced [] db h = h
process_all-IsBalanced (r ∷ rs) db h =
    process_all-IsBalanced rs (process_delivery r db).0 (step-IsBalanced r db h)

-- A target in SECURE mode whose ledger has been written in that mode.
abbrev pub IsSecure : Db → Type 0
IsSecure db = (db.processing_mode ≡ secure) × IsKeyed db.payments db.effects db.entries

IsKeyed-as :
    (ps ps' : List ProviderPayment) (fs fs' : List FinancialEffect) (es es' : List LedgerEntry)
    → ps' ≡ ps
    → fs' ≡ fs
    → es' ≡ es
    → IsKeyed ps fs es
    → IsKeyed ps' fs' es'
IsKeyed-as ps ps' fs fs' es es' a b c h =
    subst (λ x. IsKeyed x fs' es') (sym a)
      (subst (λ x. IsKeyed ps x es') (sym b) (subst (λ x. IsKeyed ps fs x) (sym c) h))

credit_key-secure :
    (r : Request) (event : ProviderEvent) (p : ProviderPayment) (db : Db)
    → db.processing_mode ≡ secure
    → credit_key (credit_input r event p db) ≡ payment_key p
unfolding derive_idempotency_key
credit_key-secure r event p db h = rw h refl

step-IsSecure : (r : Request) (db : Db) → IsSecure db → IsSecure (process_delivery r db).0
step-IsSecure r db (mode, k) = elim (process_delivery-books r db) [
  | inl (s, u) ↦ (s.mode ∙ mode, IsKeyed-as _ _ _ _ _ _ s.payments s.effects s.entries k)
  | inr (p, event, found, fresh, s) ↦
      let input = credit_input r event p db in
      (
        s.mode ∙ mode,
        IsKeyed-as db.payments _ (new_effect r.ids input ∷ db.effects) _
            (new_entry r.ids input ∷ db.entries) _ s.payments s.effects s.entries
            ((p, found, credit_key-secure r event p db mode), fresh, k),
      )
]

all-IsSecure : (rs : List Request) (db : Db) → IsSecure db → IsSecure (process_all rs db)
unfolding process_all
all-IsSecure [] db h = h
all-IsSecure (r ∷ rs) db h = all-IsSecure rs (process_delivery r db).0 (step-IsSecure r db h)

-- In SECURE mode a payment has at most one financial effect after any requests, for whichever of its
-- events and however often they are delivered, if the ledger was written in that mode before.
pub process_all-once :
    (rs : List Request) (db : Db) (payment : ℕ)
    → IsSecure db
    → effects_of payment (process_all rs db).effects ≤ 1
process_all-once rs db payment h =
    let (mode, k) = all-IsSecure rs db h in IsKeyed-once _ _ _ payment k
