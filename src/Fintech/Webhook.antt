-- ===== src/Fintech/Webhook.antt =====
-- apps/demo-fintech/src/webhook-processing-service.ts, `processDelivery`. The signature check, the
-- JSON decoding and the payload schema are observations of a request, as is the fault trigger.
pub mod Laws
pub mod Runs
use rupture_grid.Base.{
  same_text, ℕ, Bool, true, false, not, ◌&&◌, ◌||◌, Option, none, some, List, [], ◌∷◌, Text, any,
  ◌==◌, if◌then◌else◌, update_where,
}
use rupture_grid.Fintech.Credit.{
  ProviderPayment, EventType, payment_confirmed, payment_settled, ProviderEvent, DeliveryStatus,
  accepted, failed_processing, WebhookDelivery, ProcessingOutcome, applied, idempotent_duplicate,
  failed, ProcessingAttempt, Db, WalletCreditInput, EffectIds, WalletCreditResult, credited,
  duplicate, broken, apply_wallet_credit, find_where,
}

pub record WebhookPayload : Type 0 where
  pub provider_payment_id : Text
  pub provider_event_id : Text
  pub event_type : EventType
  pub amount_minor : ℕ
  pub currency : Text

-- A request: whether its signature is there and verifies, the payload that its body decodes to, if it
-- does, whether the armed fault triggers, and the ids that the database generates for it.
pub record Request : Type 0 where
  pub delivery_attempt_id : Text
  pub authentic : Bool
  pub payload : Option WebhookPayload
  pub fault_triggered : Bool
  pub delivery_row : ℕ
  pub attempt_row : ℕ
  pub ids : EffectIds

-- The error classes that the service throws.
pub data ErrorKind : Type 0 where
  provider_authentication transport not_found business_mismatch : ErrorKind
  controlled_fault_rejection duplicate_delivery_identity processing_failed : ErrorKind

pub record ProcessDeliveryResult : Type 0 where
  pub processing_attempt_id : ℕ
  pub outcome : ProcessingOutcome
  pub financial_effect_id : Option ℕ

pub data Response : Type 0 where
  thrown : ErrorKind → Response
  returned : ProcessDeliveryResult → Response

abbrev same_type : EventType → EventType → Bool
same_type payment_confirmed payment_confirmed = true
same_type payment_settled payment_settled = true
same_type _ _ = false

-- The tests of step 4.
abbrev pub is_consistent : WebhookPayload → ProviderEvent → ProviderPayment → Bool
is_consistent payload event payment =
    same_text payload.provider_payment_id payment.provider_payment_id
    && (same_type payload.event_type event.event_type
        && ((payload.amount_minor == payment.amount_minor)
            && same_text payload.currency payment.currency))

abbrev new_delivery : Request → ProviderEvent → WebhookDelivery
new_delivery r event = record {
  id = r.delivery_row;
  event_id = event.id;
  delivery_attempt_id = r.delivery_attempt_id;
  status = accepted;
}

abbrev new_attempt : Request → ProcessingAttempt
new_attempt r = record { id = r.attempt_row; delivery_id = r.delivery_row; outcome = none }

-- Step 5: the delivery and its processing attempt.
abbrev pub record_delivery : Request → ProviderEvent → Db → Db
record_delivery r event db = record {
  processing_mode = db.processing_mode;
  wallets = db.wallets;
  payments = db.payments;
  events = db.events;
  deliveries = new_delivery r event ∷ db.deliveries;
  attempts = new_attempt r ∷ db.attempts;
  effects = db.effects;
  entries = db.entries;
}

abbrev set_outcome : ProcessingOutcome → ProcessingAttempt → ProcessingAttempt
set_outcome o a = record { id = a.id; delivery_id = a.delivery_id; outcome = some o }

abbrev set_failed : WebhookDelivery → WebhookDelivery
set_failed d = record {
  id = d.id;
  event_id = d.event_id;
  delivery_attempt_id = d.delivery_attempt_id;
  status = failed_processing;
}

abbrev pub finish_attempt : ℕ → ProcessingOutcome → Db → Db
finish_attempt row o db = record {
  processing_mode = db.processing_mode;
  wallets = db.wallets;
  payments = db.payments;
  events = db.events;
  deliveries = db.deliveries;
  attempts = update_where (λ (a : ProcessingAttempt). a.id == row) (set_outcome o) db.attempts;
  effects = db.effects;
  entries = db.entries;
}

abbrev pub fail_delivery : ℕ → Db → Db
fail_delivery row db = record {
  processing_mode = db.processing_mode;
  wallets = db.wallets;
  payments = db.payments;
  events = db.events;
  deliveries = update_where (λ (d : WebhookDelivery). d.id == row) set_failed db.deliveries;
  attempts = db.attempts;
  effects = db.effects;
  entries = db.entries;
}

-- The `catch` and step 7.
abbrev pub finish : Request → Db × WalletCreditResult → Db × Response
finish r (db, credited effect) = (
  finish_attempt r.attempt_row applied db,
  returned (record {
    processing_attempt_id = r.attempt_row;
    outcome = applied;
    financial_effect_id = some effect;
  }),
)
finish r (db, duplicate) = (
  finish_attempt r.attempt_row idempotent_duplicate db,
  returned (record {
    processing_attempt_id = r.attempt_row;
    outcome = idempotent_duplicate;
    financial_effect_id = none;
  }),
)
finish r (db, broken) = (
  fail_delivery r.delivery_row (finish_attempt r.attempt_row failed db),
  thrown processing_failed,
)

abbrev pub credit_input : Request → ProviderEvent → ProviderPayment → Db → WalletCreditInput
credit_input r event payment db = record {
  mode = db.processing_mode;
  wallet_id = payment.wallet_id;
  payment = payment;
  provider_event_id = event.provider_event_id;
  processing_attempt_id = r.attempt_row;
}

-- Steps 5 to 7, when the delivery identity is new.
unfoldable pub process_recorded : Request → ProviderEvent → ProviderPayment → Db → Db × Response
process_recorded r event payment db =
    finish r
      (apply_wallet_credit r.ids (credit_input r event payment db) (record_delivery r event db))

abbrev pub is_recorded : Text → Db → Bool
is_recorded id db = any (λ (d : WebhookDelivery). same_text d.delivery_attempt_id id) db.deliveries

abbrev pub process_resolved :
    Request → WebhookPayload → ProviderEvent → Option ProviderPayment → Db → Db × Response
process_resolved r payload event none db = (db, thrown not_found)
process_resolved r payload event (some payment) db =
    if not (is_consistent payload event payment)
    then (db, thrown business_mismatch)
    else if r.fault_triggered
    then (db, thrown controlled_fault_rejection)
    else if is_recorded r.delivery_attempt_id db
    then (db, thrown duplicate_delivery_identity)
    else process_recorded r event payment db

-- Step 3. A foreign key gives every event its payment, so that a missing one does not occur.
abbrev pub process_event : Request → WebhookPayload → Option ProviderEvent → Db → Db × Response
process_event r payload none db = (db, thrown not_found)
process_event r payload (some event) db =
    process_resolved r payload event
      (find_where (λ (p : ProviderPayment). p.id == event.payment_id) db.payments) db

abbrev pub process_payload : Request → Option WebhookPayload → Db → Db × Response
process_payload r none db = (db, thrown transport)
process_payload r (some payload) db =
    process_event r payload
      (find_where (λ (e : ProviderEvent). same_text e.provider_event_id payload.provider_event_id)
        db.events)
      db

unfoldable pub process_delivery : Request → Db → Db × Response
process_delivery r db =
    if not r.authentic then (db, thrown provider_authentication) else process_payload r r.payload db

-- Requests one after the other.
unfoldable pub process_all : List Request → Db → Db
process_all [] db = db
process_all (r ∷ rs) db = process_all rs (process_delivery r db).0
