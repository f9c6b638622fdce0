-- ===== src/Process/Sleep/Total.antt =====
-- internal_sleep neither faults nor hangs.
use disastr_os_message_queue.Base.{refl, not, ℤ, ◌==◌, Bool-cases, inl, inr, int_add, wrap32}
use disastr_os_message_queue.PoolAllocator.{Ptr, null}
use disastr_os_message_queue.Kernel.{Kernel, tangled}
use disastr_os_message_queue.Kernel.Returns.{Returns, Settles, stops_if}
use disastr_os_message_queue.Kernel.Invariant.{IsKernel, get_block_total, with_timer_pool}
use disastr_os_message_queue.Timer.{timer_list_add, timer_item_alloc}
use disastr_os_message_queue.Schedule.Order.{internal_schedule-Settles}
use disastr_os_message_queue.Process.Sleep.{internal_sleep, asleep}

pub timer_list_add_total :
    (k : Kernel) (awakening_time : ℤ) (pcb : Ptr)
    → IsKernel k
    → Returns (λ r. IsKernel r.1) (timer_list_add k awakening_time pcb)
unfolding timer_list_add timer_item_alloc
timer_list_add_total k awakening_time pcb v =
    let ((item, pool), got, h) = get_block_total k.timer_pool v.timer_pool in
    elim (Bool-cases (item == null)) [
      | inl full ↦
          ((null, record k { timer_pool = pool }), rw (got, full), with_timer_pool v pool h)
      | inr given ↦ rw (got, given, given) (_, refl, with_timer_pool v pool h)
    ]

-- A sleep neither faults nor hangs, and keeps the stores in order unless it is stopped.
pub internal_sleep_total : (k : Kernel) → IsKernel k → Settles IsKernel (internal_sleep k)
unfolding internal_sleep
internal_sleep_total k v = elim (Bool-cases (not ((k.pcbs k.running).timer == null))) [
  | inl timed ↦ rw timed (inl (_, refl, v))
  | inr free ↦
      let time = int_add k.time (wrap32 ((k.pcbs k.running).syscall_args 0)) in
      let ((item, k1), ran, v1) = timer_list_add_total k time k.running v in
      rw (free, ran)
        (elim (Bool-cases (item == null)) [
          | inl full ↦ rw full (inl (_, refl, v1))
          | inr given ↦
              rw given (
                stops_if _ tangled _ refl (internal_schedule-Settles (asleep k1 k.running item) v1))
        ])
]
