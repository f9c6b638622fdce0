-- ===== src/Schedule/Timers.antt =====
-- Which timers the scheduler takes off its list.
use disastr_os_message_queue.Base.{
  ℕ, zero, suc, ◌≡◌, refl, ap, sym, ◌∙◌, true, false, List, [], ◌∷◌, arith, ℤ, leb_ℤ, ◌==◌,
  Bool-cases, List-cases, inl, inr, has, length, subst,
}
use disastr_os_message_queue.PoolAllocator.{Ptr, null}
use disastr_os_message_queue.Kernel.{Kernel, TimerItem, is_running}
use disastr_os_message_queue.Kernel.Returns.{Returns, Returns-bind}
use disastr_os_message_queue.Kernel.Invariant.{IsKernel, release_block_total, with_timer_pool}
use disastr_os_message_queue.Timer.{timer_list_current, timer_list_remove_current, timer_item_free}
use disastr_os_message_queue.Timer.Sorted.{IsSorted, IsSortedFrom}
use disastr_os_message_queue.Schedule.Pending.{pending}
use disastr_os_message_queue.Schedule.{wake, wake_elapsed, switch, scheduled, internal_schedule}
use disastr_os_message_queue.Schedule.Switch.{internal_schedule-scheduled}
use disastr_os_message_queue.Kernel.Order.{is_orderly}
use disastr_os_message_queue.Schedule.Total.{current_first}

-- Behind an item that is not due no item is.
pending_later :
    (timers : Ptr → TimerItem) (time bound : ℤ) (ts : List Ptr)
    → leb_ℤ bound time ≡ false
    → IsSortedFrom timers bound ts
    → pending timers time ts ≡ ts
pending_later timers time bound [] late s = refl
pending_later timers time bound (t ∷ ts) late s =
    let not_due : leb_ℤ (timers t).awakening_time time ≡ false = ground (arith, s.0) in
    rw not_due (
      ap (λ (xs : List Ptr). t ∷ xs)
        (pending_later timers time (timers t).awakening_time ts not_due s.1))

-- The loop stops where the first item is not due.
pending_stopped :
    (k : Kernel)
    → IsSorted k.timers k.timer_list
    → has null k.timer_list ≡ false
    → (timer_list_current k == null) ≡ true
    → pending k.timers k.time k.timer_list ≡ k.timer_list
unfolding timer_list_current
pending_stopped k s no_null idle = elim (List-cases k.timer_list) [
  | inl e ↦ rw e
  | inr (t, ts, e) ↦
      let late : leb_ℤ (k.timers t).awakening_time k.time ≡ false = ground (arith, no_null) in
      rw (e, late)
        (ap (λ (xs : List Ptr). t ∷ xs)
          (pending_later k.timers k.time (k.timers t).awakening_time ts late
            (subst (IsSorted k.timers) e s)))
]

IsSorted-tail :
    (timers : Ptr → TimerItem) (t : Ptr) (ts : List Ptr)
    → IsSorted timers (t ∷ ts)
    → IsSorted timers ts
IsSorted-tail timers t [] s = s
IsSorted-tail timers t (u ∷ ts) s = s.1

-- The timers, the time and the list after some rounds.
abbrev Pending : Kernel → Kernel → Type 0
Pending k k' =
    (k'.timers ≡ k.timers)
    × (k'.time ≡ k.time)
    × (k'.timer_list ≡ pending k.timers k.time k.timer_list)

remove_current-tail :
    (k : Kernel) (t : Ptr) (ts : List Ptr)
    → IsKernel k
    → k.timer_list ≡ t ∷ ts
    → Returns
        (λ k'. IsKernel k' × (k'.timers ≡ k.timers) × (k'.time ≡ k.time) × (k'.timer_list ≡ ts))
        (timer_list_remove_current k)
unfolding timer_list_remove_current timer_item_free
remove_current-tail k t ts v e =
    let ((pool, result), released, h) = release_block_total k.timer_pool t v.timer_pool in
    (
      record k { timer_list = ts; timer_pool = pool },
      rw (e, released),
      (with_timer_pool v pool h, refl, refl, refl),
    )

wake-tail :
    (k : Kernel) (p : Ptr) (ts : List Ptr)
    → IsKernel k
    → k.timer_list ≡ timer_list_current k ∷ ts
    → Returns
        (λ k'. IsKernel k' × (k'.timers ≡ k.timers) × (k'.time ≡ k.time) × (k'.timer_list ≡ ts))
        (wake k (timer_list_current k) p)
unfolding wake
wake-tail k p ts v e = remove_current-tail _ (timer_list_current k) ts v e

pending_due :
    (k : Kernel) (ts : List Ptr)
    → (timer_list_current k == null) ≡ false
    → k.timer_list ≡ timer_list_current k ∷ ts
    → pending k.timers k.time k.timer_list ≡ pending k.timers k.time ts
unfolding timer_list_current
pending_due k ts due e = elim (List-cases k.timer_list) [
  | inl nothing ↦ absurd (ground arith)
  | inr (t, us, f) ↦
      let same : us ≡ ts = ground arith in
      let elapsed : leb_ℤ (k.timers t).awakening_time k.time ≡ true = ground arith in
      rw (f, elapsed, same)
]

has-tail : (t : Ptr) (ts : List Ptr) → has null (t ∷ ts) ≡ false → has null ts ≡ false
has-tail t ts h = ground arith

wake_elapsed-Pending :
    (n : ℕ) (k : Kernel) (p : Ptr)
    → IsKernel k
    → IsSorted k.timers k.timer_list
    → has null k.timer_list ≡ false
    → length k.timer_list ≡ n
    → Returns (Pending k) (wake_elapsed n k p)
unfolding wake_elapsed
wake_elapsed-Pending zero k p v s no_null len = elim (List-cases k.timer_list) [
  | inl e ↦ (k, refl, (refl, refl, rw e))
  | inr (t, ts, e) ↦ absurd (ground (arith, ap length e))
]
wake_elapsed-Pending (suc n) k p v s no_null len =
    elim (Bool-cases (timer_list_current k == null)) [
      | inl idle ↦ (k, rw idle, (refl, refl, sym (pending_stopped k s no_null idle)))
      | inr due ↦
          let t = timer_list_current k in
          let (ts, e) = current_first k due in
          let (k1, ran, (v1, timers, time, list)) = wake-tail k p ts v e in
          let whole = subst (IsSorted k.timers) e s in
          let sorted : IsSorted k1.timers k1.timer_list =
            rw (timers, list) (IsSorted-tail k.timers t ts whole) in
          let apart : has null k1.timer_list ≡ false =
            rw list (has-tail t ts (subst (λ (xs : List Ptr). has null xs ≡ false) e no_null)) in
          let len1 : length k1.timer_list ≡ n = rw list (ground (arith, ap length e)) in
          let (k2, rest, (timers2, time2, list2)) =
            wake_elapsed-Pending n k1 (k.timers t).pcb v1 sorted apart len1 in
          (
            k2,
            rw (due, ran) rest,
            (
              timers2 ∙ timers,
              time2 ∙ time,
              list2 ∙ (rw (timers, time, list) (sym (pending_due k ts due e))),
            ),
          )
    ]

pub switch-timer_list : (k : Kernel) → (switch k).timer_list ≡ k.timer_list
unfolding switch
switch-timer_list k = ground arith

switch-Pending : (k k1 : Kernel) → Pending k k1 → Pending k (switch k1)
unfolding switch
switch-Pending k k1 (timers, time, list) = elim (List-cases k1.ready_list) [
  | inl e ↦ rw e (timers, time, list)
  | inr (next, rest, e) ↦ rw e (elim (Bool-cases (is_running (k1.pcbs k1.running).status)) [
    | inl active ↦ rw active (timers, time, list)
    | inr passive ↦ rw passive (timers, time, list)
  ])
]

scheduled-Pending :
    (k : Kernel)
    → IsKernel k
    → IsSorted k.timers k.timer_list
    → has null k.timer_list ≡ false
    → Returns (Pending k) (scheduled k)
unfolding scheduled
scheduled-Pending k v s no_null =
    Returns-bind (wake_elapsed (length k.timer_list) k null) _
      (wake_elapsed-Pending (length k.timer_list) k null v s no_null refl)
      λ k1 p. (switch k1, refl, switch-Pending k k1 p)

pub internal_schedule-Pending :
    (k : Kernel)
    → is_orderly k ≡ true
    → IsKernel k
    → IsSorted k.timers k.timer_list
    → has null k.timer_list ≡ false
    → Returns (Pending k) (internal_schedule k)
internal_schedule-Pending k orderly v s no_null =
    rw (internal_schedule-scheduled k orderly) (scheduled-Pending k v s no_null)

-- Where the lists are in order, the list of timers is sorted, holds no null and the stores are in order, the scheduler
-- returns, takes exactly the timers that are due off the list, and leaves the others in their
-- order.
pub internal_schedule-pending :
    (k : Kernel)
    → is_orderly k ≡ true
    → IsKernel k
    → IsSorted k.timers k.timer_list
    → has null k.timer_list ≡ false
    → Returns (λ k'. k'.timer_list ≡ pending k.timers k.time k.timer_list) (internal_schedule k)
internal_schedule-pending k orderly v s no_null =
    let (k', ran, (timers, time, list)) = internal_schedule-Pending k orderly v s no_null in
    (k', ran, list)
