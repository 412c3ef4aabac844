-- ===== src/Model/Enums.antt =====
-- qorder_api/models/enums.py
use goi_mon.Prelude.{ℕ, ◌*◌, Bool, true, false, ◌||◌, List, [], ◌∷◌}

pub data OrderItemStatus : Type 0 where
  pending cooking ready served cancelled : OrderItemStatus

-- `opened` is the value "open".
pub data SessionStatus : Type 0 where
  opened closed abandoned : SessionStatus

pub data UserRole : Type 0 where
  staff admin : UserRole

pub data CancelledBy : Type 0 where
  customer staff system : CancelledBy

pub data StaffCallStatus : Type 0 where
  pending acknowledged : StaffCallStatus

abbrev pub same_status : OrderItemStatus → OrderItemStatus → Bool
same_status pending pending = true
same_status cooking cooking = true
same_status ready ready = true
same_status served served = true
same_status cancelled cancelled = true
same_status _ _ = false

-- status = ANY(:statuses)
abbrev pub in_status : List OrderItemStatus → OrderItemStatus → Bool
in_status [] s = false
in_status (t ∷ ts) s = same_status s t || in_status ts s

abbrev pub is_open : SessionStatus → Bool
is_open opened = true
is_open _ = false

abbrev pub is_abandoned : SessionStatus → Bool
is_abandoned abandoned = true
is_abandoned _ = false

abbrev pub is_waiting : StaffCallStatus → Bool
is_waiting StaffCallStatus.pending = true
is_waiting StaffCallStatus.acknowledged = false

-- One second, one minute and one hour of a timestamp.
abbrev pub second : ℕ
second = 1000000

abbrev pub minute : ℕ
minute = 60 * second

abbrev pub hour : ℕ
hour = 60 * minute
