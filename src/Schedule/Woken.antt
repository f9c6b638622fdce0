-- ===== src/Schedule/Woken.antt =====
-- The loop of the scheduler over the timers keeps the lists in order.
use disastr_os_message_queue.Base.{
  ℕ, zero, suc, ◌≡◌, ◌+◌, ◌≤◌, refl, ap, subst, List, ◌∷◌, arith, ◌==◌, ==_refl, Bool-cases, inl,
  inr, length, detach, has,
}
use disastr_os_message_queue.PoolAllocator.{Ptr, null, PoolAllocator}
use disastr_os_message_queue.Kernel.{Kernel, ok, ready, update}
use disastr_os_message_queue.Kernel.Invariant.{
  IsKernel, HasPool, release_block_total, with_timer_pool,
}
use disastr_os_message_queue.Kernel.Returns.{Returns}
use disastr_os_message_queue.Kernel.Order.{listed}
use disastr_os_message_queue.Kernel.Order.Count.{
  once, count, count_timers, count-detach, count-insert_after, IsOrdered, count-listed,
  has-count_none,
}
use disastr_os_message_queue.Timer.{
  insert_behind, timer_list_current, timer_list_remove_current, timer_item_free,
}
use disastr_os_message_queue.Schedule.{wake, wake_elapsed}
use disastr_os_message_queue.Schedule.Total.{current_first}

-- The kernel when timer `t` has woken its process.
abbrev woken : Kernel → (t previous : Ptr) → (ts : List Ptr) → PoolAllocator → Kernel
woken k t previous ts pool =
    let pcb = (k.timers t).pcb in
    record k {
      waiting_list = detach pcb k.waiting_list;
      pcbs = update k.pcbs pcb (record (k.pcbs pcb) { status = ready; timer = null });
      ready_list = insert_behind previous pcb k.ready_list;
      timer_list = ts;
      timer_pool = pool;
    }

wake-woken :
    (k : Kernel) (t previous : Ptr) (ts : List Ptr)
    → IsKernel k
    → k.timer_list ≡ t ∷ ts
    → (pool : PoolAllocator) × HasPool pool × (wake k t previous ≡ ok (woken k t previous ts pool))
unfolding wake timer_list_remove_current timer_item_free
wake-woken k t previous ts v e =
    let ((pool, result), released, h) = release_block_total k.timer_pool t v.timer_pool in
    (pool, h, rw (e, released))

count-insert_behind :
    (previous p q : Ptr) (xs : List Ptr)
    → count q (insert_behind previous p xs) ≤ count q xs + once p q
count-insert_behind previous p q xs = elim (Bool-cases (previous == null)) [
  | inl front ↦ rw front (omega arith)
  | inr behind ↦ rw behind (count-insert_after previous p q xs)
]

module _ (k : Kernel) (t previous : Ptr) (ts : List Ptr) (pool : PoolAllocator) (o : IsOrdered k)
    (e : k.timer_list ≡ t ∷ ts) where
  abbrev after : Kernel
  after = woken k t previous ts pool

  timed : (q : Ptr) → count_timers k.timers q (t ∷ ts) ≤ count q k.waiting_list
  timed q =
      subst (λ (xs : List Ptr). count_timers k.timers q xs ≤ count q k.waiting_list) e (o.timed q)

  waited : (q : Ptr) → count q k.waiting_list ≡ count q after.waiting_list + once (k.timers t).pcb q
  waited q = elim (Bool-cases (has p k.waiting_list)) [
    | inl on ↦ count-detach p q k.waiting_list on
    | inr off ↦ absurd (omega (arith, timed p, has-count_none p k.waiting_list off, one))
  ]
    where
      p : Ptr
      p = (k.timers t).pcb

      one : once p p ≡ 1
      one = rw (==_refl p) refl

  less : (q : Ptr) → count q (listed after) ≤ count q (listed k)
  less q = omega (
    arith,
    count-listed k q,
    count-listed after q,
    waited q,
    count-insert_behind previous (k.timers t).pcb q k.ready_list,
  )

  woken-IsOrdered : IsOrdered after
  woken-IsOrdered = record {
    apart = λ q. omega (arith, less q, o.apart q);
    no_null = omega (arith, less null, o.no_null);
    timed = λ q. omega (arith, waited q, timed q);
    active = λ runs. elim (Bool-cases (k.running == (k.timers t).pcb)) [
      | inl same ↦ absurd (ground (arith, same))
      | inr other ↦ omega (arith, less k.running, o.active (ground (arith, other, runs)))
    ];
  }

pub wake_elapsed-IsOrdered :
    (n : ℕ) (k : Kernel) (p : Ptr)
    → IsKernel k
    → IsOrdered k
    → length k.timer_list ≡ n
    → Returns IsOrdered (wake_elapsed n k p)
unfolding wake_elapsed
wake_elapsed-IsOrdered zero k p v o len = (k, refl, o)
wake_elapsed-IsOrdered (suc n) k p v o len = elim (Bool-cases (timer_list_current k == null)) [
  | inl idle ↦ (k, rw idle, o)
  | inr due ↦
      let t = timer_list_current k in
      let (ts, e) = current_first k due in
      let (pool, h, ran) = wake-woken k t p ts v e in
      let (k2, rest, o2) =
        wake_elapsed-IsOrdered n (woken k t p ts pool) (k.timers t).pcb (with_timer_pool v pool h)
          (woken-IsOrdered k t p ts pool o e) (ground (arith, ap length e)) in
      (k2, rw (due, ran) rest, o2)
]
