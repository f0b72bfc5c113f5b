-- ===== src/Resources/Examples.antt =====
-- src/resources.rs: the theorems on the budget after a concrete reservation.
use vcmp_rs.Base.{ℕ, ◌+◌, ◌≡◌, refl, ◌↔◌, ◌≤◌, [], ◌∷◌, true, is_ok, ok}
use vcmp_rs.Resources.{
  ResourceBudget, default_limits, new_budget, Permit, data_frame, control, reserve, release, charge,
  admitted,
}
use vcmp_rs.Resources.Balance.{Accounts, column, volume, weight, count_out, bytes_out, cap, room}
use vcmp_rs.Resources.Ledger.{admits, Reach, fresh, next, Reach-Accounts, drop_exact, reserve_iff}

abbrev taken : Permit
taken = record { resource = data_frame; bytes = 40 }

abbrev budget : ResourceBudget
budget = record (new_budget default_limits) {
  usage = charge (new_budget default_limits).usage data_frame 40;
}

reserves : reserve {V = ℕ} (new_budget default_limits) data_frame 40 ≡ (ok taken, budget)
unfolding reserve admitted new_budget
reserves = refl

budget-Reach : Reach ℕ default_limits budget (taken ∷ [])
budget-Reach = next fresh (admits data_frame 40 reserves)

Reach-Accounts_example : Accounts budget (taken ∷ []) data_frame
Reach-Accounts_example = Reach-Accounts data_frame budget-Reach

drop_exact_example :
    (column (release taken budget).usage data_frame + 1 ≡ column budget.usage data_frame)
    × (volume (release taken budget).usage data_frame + 40 ≡ volume budget.usage data_frame)
drop_exact_example = drop_exact [] taken [] data_frame budget-Reach

reserve_iff_example : (is_ok (reserve {V = ℕ} budget control 100).0 ≡ true) ↔ (
    (count_out control (taken ∷ []) + 1 ≤ cap budget.limits control)
    × (bytes_out control (taken ∷ []) + weight control control 100 ≤ room budget.limits control))
reserve_iff_example = reserve_iff control 100 budget-Reach
