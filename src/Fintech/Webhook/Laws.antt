-- ===== src/Fintech/Webhook/Laws.antt =====
-- What one request does to the money, and what any number of requests keeps.
use rupture_grid.Base.{
  ℕ, ◌≡◌, refl, sym, ◌≢◌, ◌⊎◌, inl, inr, Bool, true, false, not, ◌||◌, Option, none, some, List, [],
  ◌∷◌, if◌then◌else◌, arith, Bool-cases, ==_iff,
}
use mathlib.Core.Path.{subst}
use rupture_grid.Fintech.Credit.{
  ProviderPayment, ProviderEvent, applied, Db, WalletCreditInput, EffectIds, credited, duplicate,
  broken, find_where, new_effect, new_entry, credit_key, has_key, commit_credit, effect_violates,
  entry_violates, apply_wallet_credit,
}
use rupture_grid.Fintech.Credit.Laws.{payment_of}
use rupture_grid.Fintech.Webhook.{
  Request, Response, returned, ProcessDeliveryResult, credit_input, record_delivery,
  process_recorded, process_delivery, finish, process_resolved, process_event, process_payload,
  WebhookPayload, is_consistent, is_recorded,
}

-- The answer is not a credit that was applied.
abbrev pub IsUncredited : Response → Type 0
IsUncredited response = (d : ProcessDeliveryResult) → response ≡ returned d → d.outcome ≢ applied

-- The tables of the money, the payments and the mode are as they were.
pub record SameBooks (db db' : Db) : Type 0 where
  pub mode : db'.processing_mode ≡ db.processing_mode
  pub wallets : db'.wallets ≡ db.wallets
  pub payments : db'.payments ≡ db.payments
  pub effects : db'.effects ≡ db.effects
  pub entries : db'.entries ≡ db.entries

-- A request that credits: a registered payment, a key that the ledger did not have, and the books of
-- the committed transaction.
abbrev pub IsCredited : Request → Db → Db × Response → Type 0
IsCredited r db (db', response) =
    (p : ProviderPayment) × (event : ProviderEvent) × (payment_of db.payments p.id ≡ some p)
    × (has_key (credit_key (credit_input r event p db)) db.entries ≡ false)
    × SameBooks (commit_credit r.ids (credit_input r event p db) db) db'

same : (db : Db) → SameBooks db db
same db = record { mode = refl; wallets = refl; payments = refl; effects = refl; entries = refl }

abbrev IsOutcome : Request → Db → Db × Response → Type 0
IsOutcome r db (db', response) =
    (SameBooks db db' × IsUncredited response) ⊎ IsCredited r db (db', response)

if_IsOutcome :
    (r : Request) (db : Db) (b : Bool) (response : Response) (other : Db × Response)
    → IsUncredited response
    → IsOutcome r db other
    → IsOutcome r db (if b then (db, response) else other)
if_IsOutcome r db true response other u h = inl (same db, u)
if_IsOutcome r db false response other u h = h

apply_wallet_credit-cases :
    (ids : EffectIds) (input : WalletCreditInput) (db : Db)
    → (apply_wallet_credit ids input db ≡ (db, broken))
      ⊎ ((apply_wallet_credit ids input db ≡ (db, duplicate))
          ⊎ ((has_key (credit_key input) db.entries ≡ false)
              × (apply_wallet_credit ids input db
                  ≡ (commit_credit ids input db, credited ids.effect))))
unfolding apply_wallet_credit
apply_wallet_credit-cases ids input db =
    elim (Bool-cases
      (effect_violates (new_effect ids input) db || entry_violates (new_entry ids input) db)) [
        | inl bad ↦ inl (rw bad refl)
        | inr good ↦ elim (Bool-cases (has_key (credit_key input) db.entries)) [
          | inl known ↦ inr (inl (rw (good, known) refl))
          | inr fresh ↦ inr (inr (fresh, rw (good, fresh) refl))
        ]
      ]

finish-broken :
    (r : Request) (event : ProviderEvent) (db : Db)
    → IsOutcome r db (finish r (record_delivery r event db, broken))
finish-broken r event db = inl (
  record { mode = refl; wallets = refl; payments = refl; effects = refl; entries = refl },
  λ d h. cc,
)

finish-duplicate :
    (r : Request) (event : ProviderEvent) (db : Db)
    → IsOutcome r db (finish r (record_delivery r event db, duplicate))
finish-duplicate r event db = inl (
  record { mode = refl; wallets = refl; payments = refl; effects = refl; entries = refl },
  λ d h k. cc,
)

process_recorded-IsOutcome :
    (r : Request) (event : ProviderEvent) (p : ProviderPayment) (db : Db)
    → payment_of db.payments p.id ≡ some p
    → IsOutcome r db (process_recorded r event p db)
unfolding process_recorded
process_recorded-IsOutcome r event p db found =
    elim (apply_wallet_credit-cases r.ids (credit_input r event p db)
      (record_delivery r event db)) [
        | inl e ↦ subst (λ x. IsOutcome r db (finish r x)) (sym e) (finish-broken r event db)
        | inr (inl e) ↦
            subst (λ x. IsOutcome r db (finish r x)) (sym e) (finish-duplicate r event db)
        | inr (inr (fresh, e)) ↦
            subst (λ x. IsOutcome r db (finish r x)) (sym e)
              (inr (
                p,
                event,
                found,
                fresh,
                record {
                  mode = refl;
                  wallets = refl;
                  payments = refl;
                  effects = refl;
                  entries = refl;
                },
              ))
      ]

find_where-holds :
    {A : Type 0} (p : A → Bool) (xs : List A) (x : A) → find_where p xs ≡ some x → p x ≡ true
unfolding find_where
find_where-holds p [] x h = cc
find_where-holds p (y ∷ xs) x h = ground (arith, find_where-holds p xs x)

payment_of-id :
    (payments : List ProviderPayment) (id : ℕ) (p : ProviderPayment)
    → payment_of payments id ≡ some p
    → payment_of payments p.id ≡ some p
payment_of-id payments id p h =
    let same : p.id ≡ id = (==_iff p.id id).0 (find_where-holds _ payments p h) in
    subst (λ k. payment_of payments k ≡ some p) (sym same) h

process_resolved-IsOutcome :
    (r : Request) (payload : WebhookPayload) (event : ProviderEvent) (o : Option ProviderPayment)
    (db : Db)
    → payment_of db.payments event.payment_id ≡ o
    → IsOutcome r db (process_resolved r payload event o db)
process_resolved-IsOutcome r payload event none db h = inl (same db, λ d e. cc)
process_resolved-IsOutcome r payload event (some p) db h =
    let done =
      process_recorded-IsOutcome r event p db (payment_of-id db.payments event.payment_id p h) in
    if_IsOutcome r db (not (is_consistent payload event p)) _ _ (λ d e. cc)
      (if_IsOutcome r db r.fault_triggered _ _ (λ d e. cc)
        (if_IsOutcome r db (is_recorded r.delivery_attempt_id db) _ _ (λ d e. cc) done))

process_event-IsOutcome :
    (r : Request) (payload : WebhookPayload) (o : Option ProviderEvent) (db : Db)
    → IsOutcome r db (process_event r payload o db)
process_event-IsOutcome r payload none db = inl (same db, λ d e. cc)
process_event-IsOutcome r payload (some event) db =
    process_resolved-IsOutcome r payload event _ db refl

process_payload-IsOutcome :
    (r : Request) (o : Option WebhookPayload) (db : Db) → IsOutcome r db (process_payload r o db)
process_payload-IsOutcome r none db = inl (same db, λ d e. cc)
process_payload-IsOutcome r (some payload) db = process_event-IsOutcome r payload _ db

-- A request either answers something other than an applied credit and leaves the mode, the wallets,
-- the payments, the effects and the ledger as they were, or it commits exactly one credit of a
-- registered payment under a key that the ledger did not have.
pub process_delivery-books :
    (r : Request) (db : Db)
    → (SameBooks db (process_delivery r db).0 × IsUncredited (process_delivery r db).1)
      ⊎ IsCredited r db (process_delivery r db)
unfolding process_delivery
process_delivery-books r db =
    if_IsOutcome r db (not r.authentic) _ _ (λ d e. cc) (process_payload-IsOutcome r r.payload db)
