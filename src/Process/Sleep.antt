-- ===== src/Process/Sleep.antt =====
-- src/disastrOS_sleep.c
pub mod Links
pub mod Order
pub mod Total
use disastr_os_message_queue.Base.{if◌then◌else◌, ◌==◌, not, pos, wrap32, int_add}
use disastr_os_message_queue.Constants.{dsos_esleep}
use disastr_os_message_queue.PoolAllocator.{Ptr, null}
use disastr_os_message_queue.Kernel.{
  Kernel, waiting, Run, ok, tangled, ◌>>=◌, set_pcb, set_retvalue, push_back,
}
use disastr_os_message_queue.Timer.{timer_list_add}
use disastr_os_message_queue.Kernel.Order.{is_listed}
use disastr_os_message_queue.Schedule.{internal_schedule}

-- The caller waits for its timer.
abbrev pub asleep : Kernel → (caller new_timer : Ptr) → Kernel
asleep k caller new_timer =
    record (set_pcb k caller
      (record (k.pcbs caller) { syscall_retvalue = pos 0; status = waiting; timer = new_timer })) {
        waiting_list = push_back k.waiting_list caller;
      }

-- `internal_sleep`. Nothing follows the scheduler but its return.
unfoldable pub internal_sleep : Kernel → Run Kernel
unfolding timer_list_add internal_schedule wrap32 int_add is_listed
internal_sleep k =
    let caller = k.running in
    if not ((k.pcbs caller).timer == null) then ok (set_retvalue k caller dsos_esleep) else do
      let cycles_to_sleep = wrap32 ((k.pcbs caller).syscall_args 0)
      (new_timer, k) ← timer_list_add k (int_add k.time cycles_to_sleep) caller
      if new_timer == null
          then ok (set_retvalue k caller dsos_esleep)
          else if is_listed k caller
          then tangled
          else internal_schedule (asleep k caller new_timer)
