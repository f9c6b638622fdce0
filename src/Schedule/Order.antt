-- ===== src/Schedule/Order.antt =====
-- The scheduler keeps the lists and the stores in order.
use disastr_os_message_queue.Base.{
  ◌≡◌, refl, true, false, ◌==◌, Bool-cases, List-cases, inl, inr, length,
}
use disastr_os_message_queue.PoolAllocator.{null}
use disastr_os_message_queue.Kernel.{Kernel, is_running}
use disastr_os_message_queue.Kernel.Invariant.{IsKernel, with_running}
use disastr_os_message_queue.Kernel.Returns.{Returns, Returns-bind, Returns-and, Settles}
use disastr_os_message_queue.Kernel.Order.{is_orderly}
use disastr_os_message_queue.Kernel.Order.Count.{is_orderly-IsOrdered, is_orderly-of_IsOrdered}
use disastr_os_message_queue.Schedule.{wake_elapsed, switch, scheduled, internal_schedule}
use disastr_os_message_queue.Schedule.Switch.{
  internal_schedule-scheduled, internal_schedule_tangled,
}
use disastr_os_message_queue.Schedule.Total.{wake_elapsed_total}
use disastr_os_message_queue.Schedule.Woken.{wake_elapsed-IsOrdered}
use disastr_os_message_queue.Schedule.Switched.{switch-IsOrdered}

switch-IsKernel :
    (k : Kernel) → ((switch k).running == null) ≡ false → IsKernel k → IsKernel (switch k)
unfolding switch
switch-IsKernel k alive v = elim (List-cases k.ready_list) [
  | inl e ↦ rw e v
  | inr (next, rest, e) ↦
      let up : (next == null) ≡ false = rw e at alive in
      rw e (elim (Bool-cases (is_running (k.pcbs k.running).status)) [
        | inl active ↦ rw active (with_running v next up)
        | inr passive ↦ rw passive (with_running v next up)
      ])
]

-- In a kernel whose lists and stores are in order the scheduler returns, and leaves both so.
pub internal_schedule_total :
    (k : Kernel)
    → is_orderly k ≡ true
    → IsKernel k
    → Returns (λ k'. IsKernel k' × (is_orderly k' ≡ true)) (internal_schedule k)
unfolding scheduled
internal_schedule_total k orderly v =
    let n = length k.timer_list in
    rw (internal_schedule-scheduled k orderly) (
      Returns-bind (wake_elapsed n k null) _
        (Returns-and (wake_elapsed n k null) (wake_elapsed_total n k null v refl)
          (wake_elapsed-IsOrdered n k null v (is_orderly-IsOrdered k orderly) refl))
        λ k1 ((v1, done), o1).
          let (o2, alive) = switch-IsOrdered k1 v1.alive o1 in
          (switch k1, refl, (switch-IsKernel k1 alive v1, is_orderly-of_IsOrdered (switch k1) o2)))

-- Where the lists are not in order it is stopped.
pub internal_schedule-Settles : (k : Kernel) → IsKernel k → Settles IsKernel (internal_schedule k)
internal_schedule-Settles k v = elim (Bool-cases (is_orderly k)) [
  | inl orderly ↦
      let (k', ran, (v', ordered)) = internal_schedule_total k orderly v in inl (k', ran, v')
  | inr confused ↦ inr (rw (internal_schedule_tangled k confused) refl)
]
