-- ===== src/Items/Overdue.antt =====
-- The overdue level of an item on the kitchen board.
use goi_mon.Prelude.{ℕ, ◌*◌, ◌-◌, ◌≤◌, ◌<◌, ◌≡◌, ◌≢◌, Option, none, some, arith}
use goi_mon.Model.{minute}
use goi_mon.Items.{compute_overdue_level}

-- What is shown, as a number: nothing counts as on time.
abbrev pub level_value : Option ℕ → ℕ
level_value none = 0
level_value (some k) = k

-- Level 0 lies below the preparation time, level 1 below one and a half of it, level 2 below twice
-- it, and level 3 from there on.
pub record IsLevel (prep elapsed k : ℕ) : Type 0 where
  pub on_time : k ≡ 0 → elapsed < prep * minute
  pub late : 1 ≤ k → prep * minute ≤ elapsed
  pub slightly : k ≡ 1 → 2 * elapsed < 3 * (prep * minute)
  pub moderately : 2 ≤ k → 3 * (prep * minute) ≤ 2 * elapsed
  pub under_twice : k ≡ 2 → elapsed < 2 * (prep * minute)
  pub very : 3 ≤ k → 2 * (prep * minute) ≤ elapsed
  pub at_most : k ≤ 3

-- For an item with a preparation time there is a level, and it is the one that the waiting time
-- calls for: 0 below the preparation time, 1 below one and a half of it, 2 below twice it, 3 from
-- there on.
pub overdue-IsLevel :
    (prep requested now : ℕ)
    → prep ≢ 0
    → (k : ℕ) × (compute_overdue_level prep requested now ≡ some k)
      × IsLevel prep (now - requested) k
unfolding compute_overdue_level
overdue-IsLevel prep requested now pos =
    (level_value (compute_overdue_level prep requested now), ground arith, ground arith)

-- A level never falls while time passes.
pub overdue_mono :
    (prep requested now now' : ℕ)
    → now ≤ now'
    → level_value (compute_overdue_level prep requested now)
      ≤ level_value (compute_overdue_level prep requested now')
unfolding compute_overdue_level
overdue_mono prep requested now now' h = ground arith
