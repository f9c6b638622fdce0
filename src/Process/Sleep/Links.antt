-- ===== src/Process/Sleep/Links.antt =====
-- internal_sleep leaves descriptors and resources alone.
use disastr_os_message_queue.Base.{
  ◌≡◌, refl, ◌∙◌, not, arith, ◌==◌, inl, inr, Bool-cases, Option-cases, ℤ, pos, wrap32, int_add,
}
use disastr_os_message_queue.Constants.{dsos_esleep}
use disastr_os_message_queue.PoolAllocator.{Ptr, null, get_block}
use disastr_os_message_queue.Kernel.{Kernel, ok, tangled, waiting, >>=-eq-ok}
use disastr_os_message_queue.Kernel.Links.{
  links_of, links_of-update, Keeps, Keeps-bind, Keeps-ok, Keeps-stops_if,
}
use disastr_os_message_queue.Timer.{timer_item_alloc, timer_list_add}
use disastr_os_message_queue.Schedule.Links.{internal_schedule-Keeps}
use disastr_os_message_queue.MessageQueue.Links.{retvalue-links_of}
use disastr_os_message_queue.Process.Sleep.{internal_sleep, asleep}

timer_item_alloc-links_of :
    (k : Kernel) (time : ℤ) (pcb : Ptr) (r : Ptr × Kernel)
    → timer_item_alloc k time pcb ≡ ok r
    → links_of r.1 ≡ links_of k
unfolding timer_item_alloc
timer_item_alloc-links_of k time pcb r e = elim (Option-cases (get_block k.timer_pool)) [
  | inl missing ↦ absurd (ground arith)
  | inr ((item, pool), got) ↦ elim (Bool-cases (item == null)) [
    | inl full ↦ ground arith
    | inr given ↦
        let same = links_of-update k pcb (record (k.pcbs pcb) { timer = item }) refl in
        ground (arith, same)
  ]
]

timer_list_add-links_of :
    (k : Kernel) (time : ℤ) (pcb : Ptr) (r : Ptr × Kernel)
    → timer_list_add k time pcb ≡ ok r
    → links_of r.1 ≡ links_of k
unfolding timer_list_add
timer_list_add-links_of k time pcb r e =
    let (a, ran, rest) = >>=-eq-ok (timer_item_alloc k time pcb) _ e in
    let same = timer_item_alloc-links_of k time pcb a ran in
    elim (Bool-cases (a.0 == null)) [
      | inl full ↦ ground (arith, same)
      | inr given ↦ ground (arith, same)
    ]

pub internal_sleep-Keeps : (k : Kernel) → Keeps (links_of k) (internal_sleep k)
unfolding internal_sleep
internal_sleep-Keeps k = elim (Bool-cases (not ((k.pcbs k.running).timer == null))) [
  | inl timed ↦ rw timed (Keeps-ok (retvalue-links_of k k.running dsos_esleep))
  | inr free ↦
      let time = int_add k.time (wrap32 ((k.pcbs k.running).syscall_args 0)) in
      rw free (
        Keeps-bind (timer_list_add k time k.running) _ λ (item, k1) got.
          let same = timer_list_add-links_of k time k.running (item, k1) got in
          elim (Bool-cases (item == null)) [
            | inl full ↦ rw full (Keeps-ok (retvalue-links_of k1 k.running dsos_esleep ∙ same))
            | inr given ↦ rw given (
                Keeps-stops_if _ tangled _ refl (λ k' e.
                  internal_schedule-Keeps (asleep k1 k.running item) k' e
                  ∙ links_of-update k1 k.running
                      (record (k1.pcbs k.running) {
                        syscall_retvalue = pos 0;
                        status = waiting;
                        timer = item;
                      })
                      refl
                  ∙ same))
          ])
]
