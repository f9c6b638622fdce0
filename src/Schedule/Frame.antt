-- ===== src/Schedule/Frame.antt =====
-- What the scheduler leaves alone: the queues with their messages, the resources, and memory.
use disastr_os_message_queue.Base.{
  ℕ, zero, suc, ◌≡◌, sym, subst, ◌∙◌, arith, Bool-cases, inl, inr, ◌==◌, length,
}
use disastr_os_message_queue.PoolAllocator.{Ptr, null}
use disastr_os_message_queue.Kernel.{Kernel, ok, >>=-eq-ok}
use disastr_os_message_queue.Kernel.Returns.{eq_of_ok}
use disastr_os_message_queue.Timer.{timer_list_current}
use disastr_os_message_queue.Schedule.{wake, wake_elapsed, switch, scheduled, internal_schedule}
use disastr_os_message_queue.Schedule.Switch.{internal_schedule_ran}

-- `k` and `k'` agree on the queues, the messages, the resources and memory.
pub record SameStores (k k' : Kernel) : Type 0 where
  pub queues : k'.queues ≡ k.queues
  pub messages : k'.messages ≡ k.messages
  pub message_pool : k'.message_pool ≡ k.message_pool
  pub queue_pool : k'.queue_pool ≡ k.queue_pool
  pub resources : k'.resources ≡ k.resources
  pub resources_list : k'.resources_list ≡ k.resources_list
  pub memory : k'.memory ≡ k.memory

SameStores-refl : (k : Kernel) → SameStores k k
SameStores-refl k = ground arith

SameStores-trans : {k k' k'' : Kernel} → SameStores k k' → SameStores k' k'' → SameStores k k''
SameStores-trans s t = record {
  queues = t.queues ∙ s.queues;
  messages = t.messages ∙ s.messages;
  message_pool = t.message_pool ∙ s.message_pool;
  queue_pool = t.queue_pool ∙ s.queue_pool;
  resources = t.resources ∙ s.resources;
  resources_list = t.resources_list ∙ s.resources_list;
  memory = t.memory ∙ s.memory;
}

wake-SameStores : (k : Kernel) (t p : Ptr) {k' : Kernel} → wake k t p ≡ ok k' → SameStores k k'
unfolding wake
wake-SameStores k t p e = ground arith

switch-SameStores : (k : Kernel) → SameStores k (switch k)
unfolding switch
switch-SameStores k = ground arith

wake_elapsed-SameStores :
    (rounds : ℕ) (k : Kernel) (p : Ptr) {k' : Kernel}
    → wake_elapsed rounds k p ≡ ok k'
    → SameStores k k'
unfolding wake_elapsed
wake_elapsed-SameStores zero k p e = ground arith
wake_elapsed-SameStores (suc rounds) k p {k'} e = elim (Bool-cases (timer_list_current k == null)) [
  | inl idle ↦
      let same : k' ≡ k = ground arith in subst (SameStores k) (sym same) (SameStores-refl k)
  | inr due ↦
      let (k1, woken, rest) = >>=-eq-ok (wake k t p) _ (rw due at e) in
      SameStores-trans (wake-SameStores k t p woken)
        (wake_elapsed-SameStores rounds k1 (k.timers t).pcb rest)
]
  where
    t : Ptr
    t = timer_list_current k

-- Whatever the scheduler does where it returns, the queues, the messages, the resources, their
-- allocators and memory stay as they are.
pub internal_schedule-SameStores :
    (k : Kernel) {k' : Kernel} → internal_schedule k ≡ ok k' → SameStores k k'
unfolding scheduled
internal_schedule-SameStores k e =
    let (k1, woken, rest) =
      >>=-eq-ok (wake_elapsed (length k.timer_list) k null) _ (internal_schedule_ran k e) in
    SameStores-trans (wake_elapsed-SameStores _ k null woken)
      (subst (SameStores k1) (eq_of_ok rest) (switch-SameStores k1))
