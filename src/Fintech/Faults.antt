-- ===== src/Fintech/Faults.antt =====
-- packages/demo-db/src/fault-control.ts: the plans of controlled faults, one per kind, and the trigger
-- that a delivery consumes. Kinds, versions and activations are only compared or stored, and are
-- numbers; times are milliseconds.
use rupture_grid.Base.{
  ℕ, ◌+◌, ◌-◌, ◌<◌, ◌≡◌, refl, ap, ◌∙◌, inl, inr, Bool, true, false, ◌&&◌, Option, none, some, List,
  [], ◌∷◌, length, ltb, leb, ◌==◌, if◌then◌else◌, arith, find_by, guarded, guarded-passes,
  guarded-fails, find_by-update_key, update_where, Bool-cases,
}

pub record FaultPlan : Type 0 where
  pub fault_kind : ℕ
  pub plan_version : ℕ
  pub activation : ℕ
  pub max_triggers : ℕ
  pub triggers_used : ℕ
  pub armed_at : ℕ
  pub expires_at : ℕ
  pub last_triggered_at : Option ℕ

pub data ConsumeOutcome : Type 0 where
  triggered budget_exhausted disarmed : ConsumeOutcome

-- The row that the conditional increment matches.
abbrev pub can_trigger : ℕ → FaultPlan → Bool
can_trigger at p = ltb at p.expires_at && ltb p.triggers_used p.max_triggers

abbrev pub bump : ℕ → FaultPlan → FaultPlan
bump at p = record p { triggers_used = p.triggers_used + 1; last_triggered_at = some at }

abbrev pub find_plan : ℕ → List FaultPlan → Option FaultPlan
find_plan kind plans = find_by (λ p. p.fault_kind) kind plans

-- The probe behind an increment that matched nothing.
abbrev probe : ℕ → Option FaultPlan → ConsumeOutcome
probe at none = disarmed
probe at (some p) = if leb p.expires_at at then disarmed else budget_exhausted

abbrev consume_matched : ℕ → ℕ → List FaultPlan → Option FaultPlan → List FaultPlan × ConsumeOutcome
consume_matched kind at plans none = (plans, probe at (find_plan kind plans))
consume_matched kind at plans (some p) =
    (update_where (λ q. q.fault_kind == kind && can_trigger at q) (bump at) plans, triggered)

unfoldable pub consume_trigger : ℕ → ℕ → List FaultPlan → List FaultPlan × ConsumeOutcome
consume_trigger kind at plans =
    consume_matched kind at plans (guarded (can_trigger at) (find_plan kind plans))

abbrev one_if_triggered : ConsumeOutcome → ℕ
one_if_triggered triggered = 1
one_if_triggered _ = 0

-- How many of the deliveries at some times, in the order of their increments, are triggered.
unfoldable pub trigger_count : ℕ → List ℕ → List FaultPlan → ℕ
trigger_count kind [] plans = 0
trigger_count kind (at ∷ ats) plans =
    one_if_triggered (consume_trigger kind at plans).1
    + trigger_count kind ats (consume_trigger kind at plans).0

abbrev pub AllBefore : ℕ → List ℕ → Type 0
AllBefore deadline [] = Unit
AllBefore deadline (at ∷ ats) = (at < deadline) × AllBefore deadline ats

abbrev pub lesser : ℕ → ℕ → ℕ
lesser a b = if leb a b then a else b

module _ (kind at : ℕ) (plans : List FaultPlan) (p : FaultPlan)
    (found : find_plan kind plans ≡ some p) where
  consume_trigger-passes :
      can_trigger at p ≡ true
      → consume_trigger kind at plans
        ≡ (update_where (λ q. q.fault_kind == kind && can_trigger at q) (bump at) plans, triggered)
  unfolding consume_trigger
  consume_trigger-passes h =
      ap (consume_matched kind at plans) (guarded-passes (can_trigger at) _ p found h)

  consume_trigger-fails :
      can_trigger at p ≡ false → consume_trigger kind at plans ≡ (plans, probe at (some p))
  unfolding consume_trigger
  consume_trigger-fails h =
      ap (consume_matched kind at plans) (guarded-fails (can_trigger at) _ p found h)
      ∙ ap (λ o. (plans, probe at o)) found

  bumped :
      can_trigger at p ≡ true
      → find_plan kind
          (update_where (λ q. q.fault_kind == kind && can_trigger at q) (bump at) plans)
        ≡ some (bump at p)
  bumped h =
      find_by-update_key (λ (q : FaultPlan). q.fault_kind) kind (can_trigger at) (bump at) plans p
        (λ y. refl) found h

-- While a plan has not expired, exactly the first deliveries trigger, up to the budget that it has left:
-- of any number of deliveries before the expiry, their number or what is left of the budget.
pub trigger_count-exact :
    (ats : List ℕ) (kind : ℕ) (plans : List FaultPlan) (p : FaultPlan)
    → find_plan kind plans ≡ some p
    → AllBefore p.expires_at ats
    → trigger_count kind ats plans ≡ lesser (length ats) (p.max_triggers - p.triggers_used)
unfolding trigger_count
trigger_count-exact [] kind plans p found before = ground arith
trigger_count-exact (at ∷ ats) kind plans p found (now, before) =
    elim (Bool-cases (can_trigger at p)) [
      | inl h ↦
          let rest =
            trigger_count-exact ats kind _ (bump at p) (bumped kind at plans p found h) before in
          ap (λ r. one_if_triggered r.1 + trigger_count kind ats r.0)
            (consume_trigger-passes kind at plans p found h)
          ∙ (ap (λ n. 1 + n) rest ∙ ground arith)
      | inr h ↦
          let rest = trigger_count-exact ats kind plans p found before in
          ap (λ r. one_if_triggered r.1 + trigger_count kind ats r.0)
            (consume_trigger-fails kind at plans p found h)
          ∙ (ap (λ n. one_if_triggered (probe at (some p)) + n) rest ∙ ground arith)
    ]
