-- ===== src/MessageQueue/Blocking.antt =====
-- A process that blocks in a handler of the queues, and what the scheduler then does.
use disastr_os_message_queue.Base.{
  ◌≡◌, sym, fun_ext, ap, ◌∙◌, true, List, [], ◌∷◌, ◌==◌, Bool-cases, inl, inr, eq_of_==, ==_refl,
}
use disastr_os_message_queue.PoolAllocator.{Ptr, null}
use disastr_os_message_queue.Kernel.{
  Kernel, Pcb, MessageQueue, ProcessStatus, ok, set_queue, set_status, update, waiting, running,
}
use disastr_os_message_queue.Kernel.Order.{is_orderly}
use disastr_os_message_queue.Timer.{timer_list_current}
use disastr_os_message_queue.Schedule.{internal_schedule}
use disastr_os_message_queue.Schedule.Switch.{
  internal_schedule-switch, switch_alone, switch_blocked,
}

-- The caller waits in the queue, which is now `mq`.
abbrev pub blocked_in : Kernel → Ptr → MessageQueue → Kernel
blocked_in k r mq = set_queue (set_status k k.running waiting) r mq

-- The next process runs.
abbrev pub dispatched : Kernel → Ptr → List Ptr → Kernel
dispatched k next rest = record (set_status k next running) { ready_list = rest; running = next }

current_blocked :
    (k : Kernel) (r : Ptr) (mq : MessageQueue)
    → timer_list_current k ≡ null
    → timer_list_current (blocked_in k r mq) ≡ null
unfolding timer_list_current
current_blocked k r mq e = e

pub schedule_alone :
    (k : Kernel) (r : Ptr) (mq : MessageQueue)
    → is_orderly (blocked_in k r mq) ≡ true
    → timer_list_current k ≡ null
    → k.ready_list ≡ []
    → internal_schedule (blocked_in k r mq) ≡ ok (blocked_in k r mq)
schedule_alone k r mq orderly none_due alone =
    internal_schedule-switch (blocked_in k r mq) orderly (current_blocked k r mq none_due)
    ∙ ap ok (switch_alone (blocked_in k r mq) alone)

pub schedule_next :
    (k : Kernel) (r : Ptr) (mq : MessageQueue) (next : Ptr) (rest : List Ptr)
    → is_orderly (blocked_in k r mq) ≡ true
    → timer_list_current k ≡ null
    → k.ready_list ≡ next ∷ rest
    → internal_schedule (blocked_in k r mq) ≡ ok (dispatched (blocked_in k r mq) next rest)
schedule_next k r mq next rest orderly none_due e =
    internal_schedule-switch (blocked_in k r mq) orderly (current_blocked k r mq none_due)
    ∙ ap ok (switch_blocked (blocked_in k r mq) next rest e (rw (==_refl k.running)))

-- The processes with `p` in this state.
abbrev pub with_status : (Ptr → Pcb) → Ptr → ProcessStatus → Ptr → Pcb
with_status pcbs p s = update pcbs p (record (pcbs p) { status = s })

-- A process that ran, waits and runs again is as it was.
pub running_again :
    (pcbs : Ptr → Pcb) (p : Ptr)
    → (pcbs p).status ≡ running
    → with_status (with_status pcbs p waiting) p running ≡ pcbs
running_again pcbs p e = fun_ext λ q. elim (Bool-cases (q == p)) [
  | inl same ↦
      rw (same, ==_refl p)
        (ap (λ (s : ProcessStatus). record (pcbs p) { status = s }) (sym e)
          ∙ ap pcbs (sym (eq_of_== q p same)))
  | inr other ↦ rw other
]
