-- ===== src/Fintech/Credit.antt =====
-- packages/demo-db/src/index.ts, `applyWalletCreditFinancialEffect`, on the tables of
-- packages/demo-db/prisma/schema.prisma. A transaction either commits or leaves the tables as they
-- were; tables are unordered, and a new row is put first. Row ids and generated ids are only
-- compared and are numbers; amounts are natural numbers, since payments are positive and balances
-- start at 0. The fresh ids of a transaction are its arguments.
pub mod Laws
use rupture_grid.Base.{
  same_text, ℕ, ◌+◌, Bool, true, false, not, ◌&&◌, ◌||◌, Option, none, some, List, [], ◌∷◌, Text,
  any, ◌==◌, if◌then◌else◌, update_where,
}
use rupture_grid.Fintech.Keys.{ProcessingMode, derive_idempotency_key}

pub record Wallet : Type 0 where
  pub id : Text
  pub currency : Text
  pub balance_minor : ℕ

pub record ProviderPayment : Type 0 where
  pub id : ℕ
  pub provider_payment_id : Text
  pub wallet_id : Text
  pub currency : Text
  pub amount_minor : ℕ

pub data EventType : Type 0 where
  payment_confirmed payment_settled : EventType

pub record ProviderEvent : Type 0 where
  pub id : ℕ
  pub payment_id : ℕ
  pub provider_event_id : Text
  pub event_type : EventType

pub data DeliveryStatus : Type 0 where
  accepted failed_processing : DeliveryStatus

pub record WebhookDelivery : Type 0 where
  pub id : ℕ
  pub event_id : ℕ
  pub delivery_attempt_id : Text
  pub status : DeliveryStatus

pub data ProcessingOutcome : Type 0 where
  applied idempotent_duplicate failed : ProcessingOutcome

pub record ProcessingAttempt : Type 0 where
  pub id : ℕ
  pub delivery_id : ℕ
  pub outcome : Option ProcessingOutcome

pub record FinancialEffect : Type 0 where
  pub id : ℕ
  pub financial_effect_id : ℕ
  pub payment_id : ℕ
  pub processing_attempt_id : ℕ
  pub wallet_id : Text
  pub amount_minor : ℕ
  pub currency : Text

pub record LedgerEntry : Type 0 where
  pub wallet_id : Text
  pub financial_effect_id : ℕ
  pub amount_minor : ℕ
  pub currency : Text
  pub idempotency_key : Text

pub record Db : Type 0 where
  pub processing_mode : ProcessingMode
  pub wallets : List Wallet
  pub payments : List ProviderPayment
  pub events : List ProviderEvent
  pub deliveries : List WebhookDelivery
  pub attempts : List ProcessingAttempt
  pub effects : List FinancialEffect
  pub entries : List LedgerEntry

pub record WalletCreditInput : Type 0 where
  pub mode : ProcessingMode
  pub wallet_id : Text
  pub payment : ProviderPayment
  pub provider_event_id : Text
  pub processing_attempt_id : ℕ

-- The generated ids: the row's and the public one.
pub record EffectIds : Type 0 where
  pub row : ℕ
  pub effect : ℕ

pub data WalletCreditResult : Type 0 where
  credited : ℕ → WalletCreditResult
  duplicate : WalletCreditResult
  broken : WalletCreditResult

-- `findUnique` by an equality test.
unfoldable pub find_where : {A : Type 0} → (A → Bool) → List A → Option A
find_where p [] = none
find_where p (x ∷ xs) = if p x then some x else find_where p xs

abbrev pub new_effect : EffectIds → WalletCreditInput → FinancialEffect
new_effect ids input = record {
  id = ids.row;
  financial_effect_id = ids.effect;
  payment_id = input.payment.id;
  processing_attempt_id = input.processing_attempt_id;
  wallet_id = input.wallet_id;
  amount_minor = input.payment.amount_minor;
  currency = input.payment.currency;
}

abbrev pub credit_key : WalletCreditInput → Text
credit_key input =
    derive_idempotency_key input.mode input.payment.provider_payment_id input.provider_event_id
      input.wallet_id

abbrev pub new_entry : EffectIds → WalletCreditInput → LedgerEntry
new_entry ids input = record {
  wallet_id = input.wallet_id;
  financial_effect_id = ids.row;
  amount_minor = input.payment.amount_minor;
  currency = input.payment.currency;
  idempotency_key = credit_key input;
}

-- The unique columns and foreign keys of `financial_effects`.
unfoldable pub effect_violates : FinancialEffect → Db → Bool
effect_violates f db =
    any (λ (g : FinancialEffect). g.id == f.id) db.effects
    || (any (λ (g : FinancialEffect). g.financial_effect_id == f.financial_effect_id) db.effects
        || (any (λ (g : FinancialEffect). g.processing_attempt_id == f.processing_attempt_id)
              db.effects
            || (not (any (λ (p : ProviderPayment). p.id == f.payment_id) db.payments)
                || (not
                      (any (λ (a : ProcessingAttempt). a.id == f.processing_attempt_id) db.attempts)
                    || not (any (λ (w : Wallet). same_text w.id f.wallet_id) db.wallets)))))

-- The other unique column of `ledger_entries`; its foreign keys are those of the effect.
abbrev pub entry_violates : LedgerEntry → Db → Bool
entry_violates e db =
    any (λ (x : LedgerEntry). x.financial_effect_id == e.financial_effect_id) db.entries

abbrev pub has_key : Text → List LedgerEntry → Bool
has_key key entries = any (λ (x : LedgerEntry). same_text x.idempotency_key key) entries

abbrev pub increment : ℕ → Wallet → Wallet
increment amount w = record {
  id = w.id;
  currency = w.currency;
  balance_minor = w.balance_minor + amount;
}

-- The tables behind the committed transaction.
abbrev pub commit_credit : EffectIds → WalletCreditInput → Db → Db
commit_credit ids input db = record {
  processing_mode = db.processing_mode;
  wallets =
      update_where (λ (w : Wallet). same_text w.id input.wallet_id)
        (increment input.payment.amount_minor) db.wallets;
  payments = db.payments;
  events = db.events;
  deliveries = db.deliveries;
  attempts = db.attempts;
  effects = new_effect ids input ∷ db.effects;
  entries = new_entry ids input ∷ db.entries;
}

-- `applyWalletCreditFinancialEffect`; a `broken` result is the error that it throws.
unfoldable pub apply_wallet_credit : EffectIds → WalletCreditInput → Db → Db × WalletCreditResult
apply_wallet_credit ids input db =
    if effect_violates (new_effect ids input) db || entry_violates (new_entry ids input) db
    then (db, broken)
    else if has_key (credit_key input) db.entries
    then (db, duplicate)
    else (commit_credit ids input db, credited ids.effect)
