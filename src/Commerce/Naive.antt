-- ===== src/Commerce/Naive.antt =====
-- The VULNERABLE pipeline of packages/commerce-db/src/checkout-core.ts, `reserveNaiveCheckThenAct`: a
-- check outside any transaction, and an act in one. Other submissions run in between.
pub mod Fresh
pub mod Oversell
use rupture_grid.Base.{
  ℕ, ◌+◌, Bool, true, false, Option, none, some, List, [], ◌∷◌, any, ◌==◌, if◌then◌else◌, find_by,
  update_where,
}
use rupture_grid.Commerce.Reserve.{
  is_available, Sku, Db, Submission, ReserveOutcome, accepted, broken, violates, take_unit,
}

-- Steps 1 and 2: the row that the decision was made on, or why there is none.
pub data Check : Type 0 where
  proceed : (row : ℕ) → Check
  sold_out missing : Check

abbrev decide : Option Sku → Check
decide none = missing
decide (some s) = if is_available s.remaining_available_units then proceed s.id else sold_out

unfoldable pub naive_check : ℕ → Db → Check
naive_check sku db = decide (find_by (λ s. s.sku) sku db.skus)

abbrev pub find_sku : ℕ → Db → Option Sku
find_sku row db = find_by (λ s. s.id) row db.skus

abbrev pub commit_act : Submission → ℕ → Db → Db
commit_act x row db = record {
  skus = update_where (λ (s : Sku). s.id == row) take_unit db.skus;
  intents = db.intents;
  orders =
      record { id = x.order_id; intent_id = x.intent.id; processing_attempt_id = x.attempt_id }
      ∷ db.orders;
  reservations =
      record { id = x.reservation_id; order_id = x.order_id; sku = x.intent.sku } ∷ db.reservations;
}

abbrev pub act_on : Submission → ℕ → Db → Option Sku → Db × ReserveOutcome
act_on x row db none = (db, broken)
act_on x row db (some s) =
    if violates x db
    then (db, broken)
    else (commit_act x row db, accepted x.order_id x.reservation_id)

-- Step 3.
unfoldable pub naive_act : Submission → ℕ → Db → Db × ReserveOutcome
naive_act x row db = act_on x row db (find_sku row db)

-- The acts of overlapping submissions, in the order in which they commit.
unfoldable pub naive_acts : List Submission → ℕ → Db → Db
naive_acts [] row db = db
naive_acts (x ∷ xs) row db = naive_acts xs row (naive_act x row db).0

abbrev pub one_if_accepted : ReserveOutcome → ℕ
one_if_accepted (accepted o r) = 1
one_if_accepted _ = 0

-- How many of them are accepted.
unfoldable pub accepted_count : List Submission → ℕ → Db → ℕ
accepted_count [] row db = 0
accepted_count (x ∷ xs) row db =
    one_if_accepted (naive_act x row db).1 + accepted_count xs row (naive_act x row db).0

abbrev pub act_after : List Submission → Db → Check → Db
act_after xs db (proceed row) = naive_acts xs row db
act_after xs db _ = db

-- Submissions for one SKU that overlap: each has checked before the first of them acts.
unfoldable pub overlapping : List Submission → ℕ → Db → Db
overlapping xs sku db = act_after xs db (naive_check sku db)
