-- ===== src/Schedule/Total.antt =====
-- The loop of the scheduler over the timers always returns, and ends by its own test.
use disastr_os_message_queue.Base.{
  ℕ, zero, suc, ◌≡◌, refl, ap, false, List, ◌∷◌, arith, length, Bool-cases, List-cases, inl, inr,
  ◌==◌,
}
use disastr_os_message_queue.PoolAllocator.{Ptr, null}
use disastr_os_message_queue.Kernel.{Kernel}
use disastr_os_message_queue.Kernel.Returns.{Returns}
use disastr_os_message_queue.Kernel.Invariant.{IsKernel, release_block_total, with_timer_pool}
use disastr_os_message_queue.Timer.{timer_list_current, timer_list_remove_current, timer_item_free}
use disastr_os_message_queue.Schedule.{wake, wake_elapsed}

pub remove_current_total :
    (k : Kernel) (t : Ptr) (ts : List Ptr)
    → IsKernel k
    → k.timer_list ≡ t ∷ ts
    → Returns (λ k'. IsKernel k' × (k'.timer_list ≡ ts)) (timer_list_remove_current k)
unfolding timer_list_remove_current timer_item_free
remove_current_total k t ts v e =
    let ((pool, result), released, p) = release_block_total k.timer_pool t v.timer_pool in
    (
      record k { timer_list = ts; timer_pool = pool },
      rw (e, released),
      (with_timer_pool v pool p, refl),
    )

-- An item that is due is the first of the list.
pub current_first :
    (k : Kernel)
    → (timer_list_current k == null) ≡ false
    → (ts : List Ptr) × (k.timer_list ≡ timer_list_current k ∷ ts)
unfolding timer_list_current
current_first k due = elim (List-cases k.timer_list) [
  | inl e ↦ absurd (ground arith)
  | inr (t, ts, e) ↦ (ts, ground arith)
]

-- One round returns, keeps the invariant and shortens the timer list.
pub wake_total :
    (k : Kernel) (p : Ptr) (n : ℕ)
    → IsKernel k
    → (timer_list_current k == null) ≡ false
    → length k.timer_list ≡ suc n
    → Returns (λ k'. IsKernel k' × (length k'.timer_list ≡ n)) (wake k (timer_list_current k) p)
unfolding wake
wake_total k p n v due len =
    let (ts, e) = current_first k due in
    let (k', ran, (v', rest)) = remove_current_total _ (timer_list_current k) ts v e in
    (k', ran, (v', ground (arith, ap length e)))

idle : (k : Kernel) → length k.timer_list ≡ 0 → timer_list_current k ≡ null
unfolding timer_list_current
idle k len = elim (List-cases k.timer_list) [
  | inl e ↦ rw e
  | inr (t, ts, e) ↦ absurd (ground (arith, ap length e))
]

-- In a kernel whose stores are in order, with as many rounds as there are timers, the loop ends
-- by its test: the first timer that is left, if any, is not due. The stores stay in order.
pub wake_elapsed_total :
    (n : ℕ) (k : Kernel) (p : Ptr)
    → IsKernel k
    → length k.timer_list ≡ n
    → Returns (λ k'. IsKernel k' × (timer_list_current k' ≡ null)) (wake_elapsed n k p)
unfolding wake_elapsed
wake_elapsed_total zero k p v len = (k, refl, (v, idle k len))
wake_elapsed_total (suc n) k p v len = elim (Bool-cases (timer_list_current k == null)) [
  | inl none_due ↦ (k, rw none_due, (v, ground arith))
  | inr due ↦
      let t = timer_list_current k in
      let (k1, ran, (v1, len1)) = wake_total k p n v due len in
      let (k2, rest, q) = wake_elapsed_total n k1 (k.timers t).pcb v1 len1 in
      (k2, rw (due, ran) rest, q)
]
