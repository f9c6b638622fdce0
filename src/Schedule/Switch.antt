-- ===== src/Schedule/Switch.antt =====
-- What the scheduler does while no timer is due.
use disastr_os_message_queue.Base.{
  ℕ, zero, suc, ◌≡◌, refl, sym, ◌∙◌, Bool-cases, inl, inr, true, false, List, [], ◌∷◌, arith,
  length,
}
use disastr_os_message_queue.PoolAllocator.{Ptr, null}
use disastr_os_message_queue.Kernel.{
  Kernel, ok, tangled, set_status, running, ready, is_running, push_back,
}
use disastr_os_message_queue.Kernel.Order.{is_orderly}
use disastr_os_message_queue.Timer.{timer_list_current}
use disastr_os_message_queue.Schedule.{wake_elapsed, switch, scheduled, internal_schedule}

pub wake_elapsed_idle :
    (n : ℕ) (k : Kernel) (p : Ptr) → timer_list_current k ≡ null → wake_elapsed n k p ≡ ok k
unfolding wake_elapsed
wake_elapsed_idle zero k p e = refl
wake_elapsed_idle (suc n) k p e = rw e

-- On lists in order the scheduler runs its body.
pub internal_schedule-scheduled :
    (k : Kernel) → is_orderly k ≡ true → internal_schedule k ≡ scheduled k
unfolding internal_schedule
internal_schedule-scheduled k orderly = rw orderly refl

-- On others nothing is said of it.
pub internal_schedule_tangled : (k : Kernel) → is_orderly k ≡ false → internal_schedule k ≡ tangled
unfolding internal_schedule
internal_schedule_tangled k confused = rw confused refl

-- Where it returns it ran its body.
pub internal_schedule_ran :
    (k : Kernel) {k' : Kernel} → internal_schedule k ≡ ok k' → scheduled k ≡ ok k'
unfolding internal_schedule
internal_schedule_ran k e = elim (Bool-cases (is_orderly k)) [
  | inl orderly ↦ sym (internal_schedule-scheduled k orderly) ∙ e
  | inr confused ↦ absurd (ground (arith, internal_schedule_tangled k confused))
]

-- Without a due timer the scheduler only switches.
pub internal_schedule-switch :
    (k : Kernel)
    → is_orderly k ≡ true
    → timer_list_current k ≡ null
    → internal_schedule k ≡ ok (switch k)
unfolding scheduled
internal_schedule-switch k orderly e =
    internal_schedule-scheduled k orderly ∙ rw (wake_elapsed_idle (length k.timer_list) k null e)

pub switch_alone : (k : Kernel) → k.ready_list ≡ [] → switch k ≡ k
unfolding switch
switch_alone k e = ground arith

-- A process that does not run is left out.
pub switch_blocked :
    (k : Kernel) (next : Ptr) (rest : List Ptr)
    → k.ready_list ≡ next ∷ rest
    → is_running (k.pcbs k.running).status ≡ false
    → switch k ≡ record (set_status k next running) { ready_list = rest; running = next }
unfolding switch
switch_blocked k next rest e idle = rw (e, idle)

-- The process that runs is preempted: it goes to the end of the ready processes.
pub switch_active :
    (k : Kernel) (next : Ptr) (rest : List Ptr)
    → k.ready_list ≡ next ∷ rest
    → is_running (k.pcbs k.running).status ≡ true
    → switch k ≡ record (set_status (set_status k k.running ready) next running) {
      ready_list = push_back rest k.running;
      running = next;
    }
unfolding switch
switch_active k next rest e active = rw (e, active)
