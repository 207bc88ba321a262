-- ===== src/Vm/BuiltIn/Timer.antt =====
-- cova/vm.go: the four timer operations of `executeBuiltIn`.
use ccova.Prelude.{
  ℕ, ◌+◌, ◌-◌, ◌^◌, true, false, ◌&&◌, Option, none, some, get_elem?, set, ltb, if◌then◌else◌,
}
use ccova.Status.{VmStatus}
use ccova.Kind.{ValueKind}
use ccova.Vm.State.{TimerSlot, M, pure, ◌>>=◌, refuse, gets, modify}
use ccova.Vm.Stack.{pop_uint, push_bool}

-- `saturatingAddUint64`
unfoldable pub saturating_add_uint64 : ℕ → ℕ → ℕ
saturating_add_uint64 left right =
    if ltb (2 ^ 64 - 1 - left) right then 2 ^ 64 - 1 else left + right

unfoldable pub found : Option TimerSlot → M TimerSlot
found none = refuse VmStatus.invalid_parameter
found (some t) = pure t

-- `timer`: the slot of an id, and the slot written back.
unfoldable pub timer : ℕ → M TimerSlot
unfolding found
timer id = do slot ← gets (λ vm. get_elem? vm.timers id); found slot

unfoldable pub set_timer : ℕ → TimerSlot → M (Unit {0})
set_timer id slot = modify (λ vm. record vm { timers = set vm.timers id slot })

-- `vm.currentTimeMS` plus a duration.
abbrev pub end_time : ℕ → M ℕ
end_time duration = gets (λ vm. saturating_add_uint64 vm.current_time_ms duration)

unfoldable pub timer_start : ValueKind → M (Unit {0})
timer_start ValueKind.void = do
  duration ← pop_uint 4
  id ← pop_uint 1
  slot ← timer id
  finish ← end_time duration
  set_timer id (record { duration_ms = duration; end_time_ms = finish; active = true })
timer_start _ = refuse VmStatus.invalid_value_kind

unfoldable pub timer_stop : ValueKind → M (Unit {0})
timer_stop ValueKind.void = do
  id ← pop_uint 1
  slot ← timer id
  set_timer id (record slot { active = false })
timer_stop _ = refuse VmStatus.invalid_value_kind

unfoldable pub timer_reset : ValueKind → M (Unit {0})
timer_reset ValueKind.void = do
  id ← pop_uint 1
  slot ← timer id
  finish ← end_time slot.duration_ms
  set_timer id (record slot { end_time_ms = finish; active = true })
timer_reset _ = refuse VmStatus.invalid_value_kind

unfoldable pub timer_done : ValueKind → M (Unit {0})
timer_done ValueKind.bool = do
  id ← pop_uint 1
  slot ← timer id
  now ← gets (λ vm. vm.current_time_ms)
  push_bool (slot.active && ltb slot.end_time_ms now)
timer_done _ = refuse VmStatus.invalid_value_kind
