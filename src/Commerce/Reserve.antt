-- ===== src/Commerce/Reserve.antt =====
-- The SECURE reserve pipeline of packages/commerce-db/src/checkout-core.ts on the tables of
-- packages/commerce-db/prisma/schema.prisma. The pipeline is one transaction: where it throws, the
-- tables stay as they were. Ids and SKUs are only compared and are numbers; the fresh ids are
-- arguments. The settlement's row lock orders the transactions on an intent.
pub mod Laws
use rupture_grid.Base.{
  ℕ, zero, suc, Bool, true, false, not, ◌&&◌, ◌||◌, List, [], ◌∷◌, any, ◌==◌, if◌then◌else◌,
  update_where,
}

-- The remaining units of a SKU, a signed column: `units n` is n, `short n` is -(n + 1).
pub data Units : Type 0 where
  units short : ℕ → Units

abbrev pub decrement : Units → Units
decrement (units zero) = short 0
decrement (units (suc n)) = units n
decrement (short n) = short (suc n)

-- `remainingAvailableUnits > 0`.
abbrev pub is_available : Units → Bool
is_available (units (suc n)) = true
is_available _ = false

pub record Sku : Type 0 where
  pub id : ℕ
  pub sku : ℕ
  pub initial_available_units : ℕ
  pub remaining_available_units : Units

pub data IntentStatus : Type 0 where
  unsettled settled : IntentStatus

pub record CheckoutIntent : Type 0 where
  pub id : ℕ
  pub sku : ℕ
  pub status : IntentStatus

pub record Order : Type 0 where
  pub id : ℕ
  pub intent_id : ℕ
  pub processing_attempt_id : ℕ

pub record Reservation : Type 0 where
  pub id : ℕ
  pub order_id : ℕ
  pub sku : ℕ

pub record Db : Type 0 where
  pub skus : List Sku
  pub intents : List CheckoutIntent
  pub orders : List Order
  pub reservations : List Reservation

-- A submission: the intent row that it resolved to, its attempt, and the generated ids.
pub record Submission : Type 0 where
  pub intent : CheckoutIntent
  pub attempt_id : ℕ
  pub order_id : ℕ
  pub reservation_id : ℕ

pub data ReserveOutcome : Type 0 where
  accepted : (order reservation : ℕ) → ReserveOutcome
  intent_already_accepted stock_unavailable : ReserveOutcome
  broken : ReserveOutcome

abbrev is_unsettled : IntentStatus → Bool
is_unsettled unsettled = true
is_unsettled settled = false

-- The row that the conditional settlement matches.
abbrev pub is_open_intent : ℕ → CheckoutIntent → Bool
is_open_intent id i = i.id == id && is_unsettled i.status

abbrev pub settle_intent : CheckoutIntent → CheckoutIntent
settle_intent i = record { id = i.id; sku = i.sku; status = settled }

-- The row that the conditional decrement matches.
abbrev pub has_unit : ℕ → Sku → Bool
has_unit sku s = s.sku == sku && is_available s.remaining_available_units

abbrev pub take_unit : Sku → Sku
take_unit s = record {
  id = s.id;
  sku = s.sku;
  initial_available_units = s.initial_available_units;
  remaining_available_units = decrement s.remaining_available_units;
}

-- The unique columns of the two inserted rows.
abbrev pub violates : Submission → Db → Bool
violates x db =
    any (λ (o : Order). o.id == x.order_id || o.processing_attempt_id == x.attempt_id) db.orders
    || any (λ (r : Reservation). r.id == x.reservation_id || r.order_id == x.order_id)
        db.reservations

abbrev pub commit_reserve : Submission → Db → Db
commit_reserve x db = record {
  skus = update_where (has_unit x.intent.sku) take_unit db.skus;
  intents = update_where (is_open_intent x.intent.id) settle_intent db.intents;
  orders =
      record { id = x.order_id; intent_id = x.intent.id; processing_attempt_id = x.attempt_id }
      ∷ db.orders;
  reservations =
      record { id = x.reservation_id; order_id = x.order_id; sku = x.intent.sku } ∷ db.reservations;
}

-- `reserveIdempotentIntentScoped`; `broken` is an error that it throws on.
unfoldable pub reserve : Submission → Db → Db × ReserveOutcome
reserve x db =
    if not (any (is_open_intent x.intent.id) db.intents)
    then (db, intent_already_accepted)
    else if not (any (has_unit x.intent.sku) db.skus)
    then (db, stock_unavailable)
    else if violates x db
    then (db, broken)
    else (commit_reserve x db, accepted x.order_id x.reservation_id)

-- Submissions in the order in which their transactions commit.
unfoldable pub reserve_all : List Submission → Db → Db
reserve_all [] db = db
reserve_all (x ∷ xs) db = reserve_all xs (reserve x db).0
