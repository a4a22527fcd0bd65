-- ===== src/Fintech/Examples.antt =====
-- One payment with two events, delivered one after the other.
use mathlib.Core.List.{Memᴰ}
use rupture_grid.Base.{
  ◌≤◌, ◌≡◌, refl, ◌⊎◌, true, false, some, List, [], ◌∷◌, ℕ, Text, codes, ◌-◌, none, find_by, arith,
}
use rupture_grid.Fintech.Keys.{
  secure, scope_id, derive_idempotency_key, derive_idempotency_key-injective,
}
use rupture_grid.Fintech.Credit.{
  Wallet, ProviderPayment, EventType, payment_confirmed, payment_settled, ProviderEvent, Db,
}
use rupture_grid.Fintech.Credit.Laws.{IsBalanced, credited_sum, effects_of}
use rupture_grid.Fintech.Faults.{FaultPlan, trigger_count, lesser, trigger_count-exact}
use rupture_grid.Fintech.Webhook.{Request, process_delivery, process_all}
use rupture_grid.Fintech.Webhook.Laws.{SameBooks, IsUncredited, IsCredited, process_delivery-books}
use rupture_grid.Fintech.Webhook.Runs.{process_all-IsBalanced, process_all-once}

abbrev wallet : Wallet
wallet = record { id = codes "w-1"; currency = codes "PKR"; balance_minor = 0 }

abbrev payment : ProviderPayment
payment = record {
  id = 2;
  provider_payment_id = codes "pay:0001";
  wallet_id = codes "w-1";
  currency = codes "PKR";
  amount_minor = 500;
}

abbrev event : ℕ → Text → EventType → ProviderEvent
event id name type = record { id = id; payment_id = 2; provider_event_id = name; event_type = type }

abbrev target : Db
target = record {
  processing_mode = secure;
  wallets = wallet ∷ [];
  payments = payment ∷ [];
  events =
      event 3 (codes "evt-confirmed") payment_confirmed
      ∷ event 4 (codes "evt-settled") payment_settled
      ∷ [];
  deliveries = [];
  attempts = [];
  effects = [];
  entries = [];
}

abbrev delivery : Text → Text → EventType → ℕ → Request
delivery attempt name type row = record {
  delivery_attempt_id = attempt;
  authentic = true;
  payload = some (record {
    provider_payment_id = codes "pay:0001";
    provider_event_id = name;
    event_type = type;
    amount_minor = 500;
    currency = codes "PKR";
  });
  fault_triggered = false;
  delivery_row = row;
  attempt_row = row;
  ids = record { row = row; effect = row };
}

abbrev confirmed : Request
confirmed = delivery (codes "d-1") (codes "evt-confirmed") payment_confirmed 20

abbrev both : List Request
both = confirmed ∷ delivery (codes "d-2") (codes "evt-settled") payment_settled 21 ∷ []

derive_idempotency_key-injective_example :
    (secure ≡ secure)
    × (scope_id secure (codes "pay:0001") (codes "a")
        ≡ scope_id secure (codes "pay:0001") (codes "b"))
    × (codes "w-1" ≡ codes "w-1")
unfolding derive_idempotency_key codes
derive_idempotency_key-injective_example =
    derive_idempotency_key-injective secure secure (codes "pay:0001") (codes "a") (codes "w-1")
      (codes "pay:0001") (codes "b") (codes "w-1") refl refl refl

process_delivery-books_example :
    (SameBooks target (process_delivery confirmed target).0
      × IsUncredited (process_delivery confirmed target).1)
    ⊎ IsCredited confirmed target (process_delivery confirmed target)
process_delivery-books_example = process_delivery-books confirmed target

target-IsBalanced : IsBalanced target.wallets target.entries
unfolding credited_sum
target-IsBalanced w (Memᴰ.head e) = rw e refl
target-IsBalanced w (Memᴰ.tail m) = elim m [ ]

process_all-IsBalanced_example :
    IsBalanced (process_all both target).wallets (process_all both target).entries
process_all-IsBalanced_example = process_all-IsBalanced both target target-IsBalanced

process_all-once_example : effects_of 2 (process_all both target).effects ≤ 1
process_all-once_example = process_all-once both target 2 (refl, tt)

abbrev armed : FaultPlan
armed = record {
  fault_kind = 6;
  plan_version = 1;
  activation = 1;
  max_triggers = 2;
  triggers_used = 0;
  armed_at = 100;
  expires_at = 900;
  last_triggered_at = none;
}

trigger_count-exact_example :
    trigger_count 6 (200 ∷ 210 ∷ 220 ∷ []) (armed ∷ [])
    ≡ lesser 3 (armed.max_triggers - armed.triggers_used)
unfolding find_by
trigger_count-exact_example =
    trigger_count-exact (200 ∷ 210 ∷ 220 ∷ []) 6 (armed ∷ []) armed refl
      (omega arith, (omega arith, (omega arith, tt)))
