-- ===== src/Schedule/Links.antt =====
-- The scheduler leaves descriptors and resources alone.
use disastr_os_message_queue.Base.{
  ℕ, zero, suc, ◌≡◌, refl, ◌∙◌, ap, arith, Bool-cases, List-cases, inl, inr, ◌==◌, length,
}
use disastr_os_message_queue.PoolAllocator.{Ptr, null}
use disastr_os_message_queue.Kernel.{Kernel, ok, running, ready, is_running, set_status}
use disastr_os_message_queue.Kernel.Links.{links_of, links_of-update, Keeps, Keeps-then, Keeps-ok}
use disastr_os_message_queue.Timer.{timer_list_current, timer_list_remove_current, timer_item_free}
use disastr_os_message_queue.Schedule.Switch.{
  switch_alone, switch_blocked, switch_active, internal_schedule_ran,
}
use disastr_os_message_queue.Schedule.{wake, wake_elapsed, switch, scheduled, internal_schedule}

remove_current-Keeps : (k : Kernel) → Keeps (links_of k) (timer_list_remove_current k)
unfolding timer_list_remove_current timer_item_free
remove_current-Keeps k k' e = ground arith

wake-Keeps : (k : Kernel) (t p : Ptr) → Keeps (links_of k) (wake k t p)
unfolding wake
wake-Keeps k t p k' e =
    let pcb = (k.timers t).pcb in
    remove_current-Keeps _ k' e
    ∙ links_of-update k pcb (record (k.pcbs pcb) { status = ready; timer = null }) refl

switch-links_of : (k : Kernel) → links_of (switch k) ≡ links_of k
switch-links_of k = elim (List-cases k.ready_list) [
  | inl e ↦ ap links_of (switch_alone k e)
  | inr (next, rest, e) ↦ elim (Bool-cases (is_running (k.pcbs k.running).status)) [
    | inl active ↦
        let k1 = set_status k k.running ready in
        ap links_of (switch_active k next rest e active)
        ∙ links_of-update k1 next (record (k1.pcbs next) { status = running }) refl
        ∙ links_of-update k k.running (record (k.pcbs k.running) { status = ready }) refl
    | inr passive ↦
        ap links_of (switch_blocked k next rest e passive)
        ∙ links_of-update k next (record (k.pcbs next) { status = running }) refl
  ]
]

wake_elapsed-Keeps :
    (rounds : ℕ) (k : Kernel) (p : Ptr) → Keeps (links_of k) (wake_elapsed rounds k p)
unfolding wake_elapsed
wake_elapsed-Keeps zero k p = Keeps-ok refl
wake_elapsed-Keeps (suc rounds) k p = elim (Bool-cases (timer_list_current k == null)) [
  | inl idle ↦ rw idle (Keeps-ok refl)
  | inr due ↦
      let t = timer_list_current k in
      rw due (
        Keeps-then (wake k t p) (λ k1. wake_elapsed rounds k1 (k.timers t).pcb) (wake-Keeps k t p)
          (λ k1. wake_elapsed-Keeps rounds k1 (k.timers t).pcb))
]

pub internal_schedule-Keeps : (k : Kernel) → Keeps (links_of k) (internal_schedule k)
unfolding scheduled
internal_schedule-Keeps k k' e =
    Keeps-then (wake_elapsed (length k.timer_list) k null) (λ k1. ok (switch k1))
      (wake_elapsed-Keeps (length k.timer_list) k null) (λ k1. Keeps-ok (switch-links_of k1)) k'
      (internal_schedule_ran k e)
