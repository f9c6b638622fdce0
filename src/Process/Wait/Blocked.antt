-- ===== src/Process/Wait/Blocked.antt =====
-- A wait for a child that lives.
use disastr_os_message_queue.Base.{
  ◌≡◌, ◌∙◌, false, List, ◌∷◌, pos, ◌==◌, ltb_ℤ, Bool-cases, inl, inr,
}
use disastr_os_message_queue.PoolAllocator.{Ptr, null}
use disastr_os_message_queue.Kernel.{Kernel, running, waiting, ok, set_status, push_back}
use disastr_os_message_queue.Process.Wait.{is_zombie, awaited_ptr, sleep_until_exit, internal_wait}
use disastr_os_message_queue.Kernel.Order.{is_listed}
use disastr_os_message_queue.Process.Wait.Spec.{pid_of}

module _ (k : Kernel) (next : Ptr) (rest : List Ptr) where
  -- The kernel once the process that runs waits, and `next` runs.
  abbrev pub blocked : Kernel
  blocked = record (set_status (set_status k k.running waiting) next running) {
    waiting_list = push_back k.waiting_list k.running;
    ready_list = rest;
    running = next;
  }

  internal_wait-sleep_until_exit :
      (first : Ptr) (others : List Ptr)
      → (k.pcbs k.running).children ≡ first ∷ others
      → (k.pcb_ptrs (awaited_ptr k (pid_of k) null (first ∷ others)) == null) ≡ false
      → is_zombie (k.pcbs (k.pcb_ptrs (awaited_ptr k (pid_of k) null (first ∷ others)))).status
        ≡ false
      → internal_wait k ≡ sleep_until_exit k
  unfolding internal_wait
  internal_wait-sleep_until_exit first others e exists alive =
      elim (Bool-cases (ltb_ℤ (pos 0) (pid_of k))) [
        | inl asked ↦ simp (e, internal_wait, exists, alive, asked)
        | inr any ↦ simp (e, internal_wait, exists, alive, any)
      ]

  sleep_until_exit-blocked :
      is_listed k k.running ≡ false → k.ready_list ≡ next ∷ rest → sleep_until_exit k ≡ ok blocked
  unfolding sleep_until_exit
  sleep_until_exit-blocked unlisted queued = rw (unlisted, queued)

  pub internal_wait-blocked :
      (first : Ptr) (others : List Ptr)
      → (k.pcbs k.running).children ≡ first ∷ others
      → (k.pcb_ptrs (awaited_ptr k (pid_of k) null (first ∷ others)) == null) ≡ false
      → is_zombie (k.pcbs (k.pcb_ptrs (awaited_ptr k (pid_of k) null (first ∷ others)))).status
        ≡ false
      → is_listed k k.running ≡ false
      → k.ready_list ≡ next ∷ rest
      → internal_wait k ≡ ok blocked
  internal_wait-blocked first others e exists alive unlisted queued =
      internal_wait-sleep_until_exit first others e exists alive
      ∙ sleep_until_exit-blocked unlisted queued
