-- ===== src/Schedule.antt =====
-- src/disastrOS_schedule.c and src/disastrOS_preempt.c
pub mod Awake
pub mod Frame
pub mod Links
pub mod Order
pub mod Pending
pub mod Switch
pub mod Switched
pub mod Timers
pub mod Total
pub mod Woken
use disastr_os_message_queue.Base.{
  ℕ, zero, suc, [], ◌∷◌, if◌then◌else◌, ◌==◌, length, detach, insert_after,
}
use disastr_os_message_queue.PoolAllocator.{Ptr, null}
use disastr_os_message_queue.Kernel.{
  Kernel, ready, running, Run, ok, tangled, ◌>>=◌, update, set_status, push_back, is_running,
}
use disastr_os_message_queue.Kernel.Order.{is_orderly}
use disastr_os_message_queue.Timer.{insert_behind, timer_list_current, timer_list_remove_current}

-- The body of the loop: the process of the timer that has elapsed becomes ready, in front of the
-- ready list or behind the one that was woken before it.
unfoldable pub wake : Kernel → (elapsed_timer previous_pcb : Ptr) → Run Kernel
unfolding timer_list_remove_current detach insert_after
wake k elapsed_timer previous_pcb =
    let pcb = (k.timers elapsed_timer).pcb in
    timer_list_remove_current (record k {
      waiting_list = detach pcb k.waiting_list;
      pcbs = update k.pcbs pcb (record (k.pcbs pcb) { status = ready; timer = null });
      ready_list = insert_behind previous_pcb pcb k.ready_list;
    })

-- `while( (elapsed_timer=TimerList_current(&timer_list, disastrOS_time)) )`. Each round takes one
-- item off the timer list, so the rounds are counted by its length.
unfoldable pub wake_elapsed : ℕ → Kernel → (previous_pcb : Ptr) → Run Kernel
unfolding wake timer_list_current
wake_elapsed zero k previous_pcb = ok k
wake_elapsed (suc rounds) k previous_pcb =
    let elapsed_timer = timer_list_current k in
    let pcb = (k.timers elapsed_timer).pcb in
    let rest = (wake k elapsed_timer previous_pcb >>= λ k'. wake_elapsed rounds k' pcb) in
    if elapsed_timer == null then ok k else rest

-- The part behind the loop: with no ready process nothing is preempted.
unfoldable pub switch : Kernel → Kernel
switch k = elim k.ready_list [
  | [] ↦ k
  | next_process ∷ rest ↦
      let k1 = record k { ready_list = rest } in
      let k2 =
        if is_running (k1.pcbs k1.running).status
        then record (set_status k1 k1.running ready) { ready_list = push_back rest k1.running }
        else k1 in
      record (set_status k2 next_process running) { running = next_process }
]

-- The body of `internal_schedule`, on lists in order.
unfoldable pub scheduled : Kernel → Run Kernel
unfolding wake_elapsed switch
scheduled k = do k ← wake_elapsed (length k.timer_list) k null; ok (switch k)

-- `internal_schedule`
unfoldable pub internal_schedule : Kernel → Run Kernel
unfolding scheduled is_orderly
internal_schedule k = let run = scheduled k in if is_orderly k then run else tangled

-- `internal_preempt`
unfoldable pub internal_preempt : Kernel → Run Kernel
unfolding internal_schedule
internal_preempt k = internal_schedule k
