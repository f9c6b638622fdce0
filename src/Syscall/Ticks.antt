-- ===== src/Syscall/Ticks.antt =====
-- Timer interrupts one after another: who sleeps is woken.
pub mod Sleep
use disastr_os_message_queue.Base.{
  ℕ, zero, suc, ◌≡◌, ◌⊎◌, ◌+◌, ◌<◌, ◌≤◌, refl, ap, sym, ◌∙◌, subst, true, false, List, [], ◌∷◌,
  arith, ℤ, pos, leb_ℤ, ◌==◌, Bool-cases, inl, inr, has, int_add, wrap32, wrap32-pos, ◌+ℤ◌, Bool,
}
use disastr_os_message_queue.PoolAllocator.{Ptr, null}
use disastr_os_message_queue.Kernel.{Kernel, TimerItem, Run, ok, ◌>>=◌}
use disastr_os_message_queue.Kernel.Returns.{Returns, Returns-bind, Returns-and, Returns-with}
use disastr_os_message_queue.Kernel.Invariant.{IsKernel}
use disastr_os_message_queue.Timer.Sorted.{IsSorted}
use disastr_os_message_queue.Schedule.{internal_schedule}
use disastr_os_message_queue.Schedule.Pending.{
  pending, has-pending, has-pending_late, pending-no_null, pending-IsSorted,
}
use disastr_os_message_queue.Schedule.Timers.{internal_schedule-Pending}
use disastr_os_message_queue.Schedule.Order.{internal_schedule_total}
use disastr_os_message_queue.Kernel.Order.{is_orderly}
use disastr_os_message_queue.Schedule.Awake.{is_awake, Wakes, internal_schedule-Wakes}
use disastr_os_message_queue.Syscall.{timer_interrupt}

-- This many interrupts.
unfoldable pub ticks : ℕ → Kernel → Run Kernel
unfolding timer_interrupt
ticks zero k = ok k
ticks (suc n) k = timer_interrupt k >>= ticks n

-- The clock shows `t`, and the stores, the timers and the lists are in order.
pub record Ticking (k : Kernel) (t : ℕ) : Type 0 where
  pub stores : IsKernel k
  pub sorted : IsSorted k.timers k.timer_list
  pub no_null : has null k.timer_list ≡ false
  pub time : k.time ≡ pos t
  pub orderly : is_orderly k ≡ true

next_time : (t : ℕ) → suc t < 0x8000_0000 → int_add (pos t) (pos 1) ≡ pos (suc t)
unfolding int_add ◌+ℤ◌
next_time t small =
    let later : pos t +ℤ pos 1 ≡ pos (suc t) = ground arith in
    ap wrap32 later ∙ wrap32-pos (suc t) small

-- What the scheduler does at time `t`.
abbrev pub Scheduled : Kernel → ℕ → Kernel → Type 0
Scheduled k t k' =
    Ticking k' t
    × (k'.timers ≡ k.timers)
    × (k'.timer_list ≡ pending k.timers (pos t) k.timer_list)
    × Wakes k k'

pub internal_schedule-Scheduled :
    (k : Kernel) (t : ℕ) → Ticking k t → Returns (Scheduled k t) (internal_schedule k)
internal_schedule-Scheduled k t v =
    let (k', ran, (((stores, ordered), (timers, time, list)), wakes)) =
      Returns-with (internal_schedule k) (internal_schedule-Wakes k) (
        Returns-and (internal_schedule k) (internal_schedule_total k v.orderly v.stores)
          (internal_schedule-Pending k v.orderly v.stores v.sorted v.no_null)) in
    let left : k'.timer_list ≡ pending k.timers (pos t) k.timer_list =
      list ∙ ap (λ (z : ℤ). pending k.timers z k.timer_list) v.time in
    (
      k',
      ran,
      (
        record {
          stores = stores;
          sorted = rw (timers, left) (pending-IsSorted k.timers (pos t) k.timer_list v.sorted);
          no_null = rw left (pending-no_null k.timers (pos t) k.timer_list v.no_null);
          time = time ∙ v.time;
          orderly = ordered;
        },
        timers,
        left,
        wakes,
      ),
    )

later_orderly :
    (k : Kernel)
    → is_orderly k ≡ true
    → is_orderly (record k { time = int_add k.time (pos 1) }) ≡ true
unfolding is_orderly
later_orderly k orderly = orderly

timer_interrupt-Scheduled :
    (k : Kernel) (t : ℕ)
    → Ticking k t
    → suc t < 0x8000_0000
    → Returns (Scheduled k (suc t)) (timer_interrupt k)
unfolding timer_interrupt
timer_interrupt-Scheduled k t v small =
    internal_schedule-Scheduled (record k { time = int_add k.time (pos 1) }) (suc t)
      (record {
        stores = v.stores;
        sorted = v.sorted;
        no_null = v.no_null;
        time = rw v.time (next_time t small);
        orderly = later_orderly k v.orderly;
      })

-- Process `p` is awake, or timer `x` will wake it within the next `n` ticks.
abbrev pub WakesWithin : Kernel → (n t : ℕ) → (x p : Ptr) → Type 0
WakesWithin k n t x p =
    (is_awake k p ≡ true)
    ⊎ ((has x k.timer_list ≡ true)
        × ((k.timers x).pcb ≡ p)
        × (leb_ℤ (k.timers x).awakening_time (pos t) ≡ false)
        × (leb_ℤ (k.timers x).awakening_time (pos (t + n)) ≡ true))

tick-WakesWithin :
    (k k' : Kernel) (n t : ℕ) (x p : Ptr)
    → k'.timers ≡ k.timers
    → k'.timer_list ≡ pending k.timers (pos (suc t)) k.timer_list
    → Wakes k k'
    → WakesWithin k (suc n) t x p
    → WakesWithin k' n (suc t) x p
tick-WakesWithin k k' n t x p timers list (kept, fired) (inl up) = inl (kept p up)
tick-WakesWithin k k' n t x p timers list (kept, fired) (inr (on, of, early, soon)) =
    elim (Bool-cases (leb_ℤ (k.timers x).awakening_time (pos (suc t)))) [
      | inl due ↦ elim (Bool-cases (has x k'.timer_list)) [
        | inl still ↦ absurd (
            ground (
              arith,
              sym (ap (has x) list) ∙ still,
              (has-pending k.timers (pos (suc t)) x k.timer_list (sym (ap (has x) list) ∙ still)).1,
            ))
        | inr off ↦ inl (subst (λ (q : Ptr). is_awake k' q ≡ true) of (fired x on off))
      ]
      | inr late ↦ inr (
        rw list (has-pending_late k.timers (pos (suc t)) x k.timer_list on late),
        rw timers of,
        rw timers late,
        rw timers (
            subst (λ (m : ℕ). leb_ℤ (k.timers x).awakening_time (pos m) ≡ true) (omega arith) soon),
      )
    ]

-- With stores and timers in order and a clock that does not reach the end of its `int`, a process that
-- is awake, or whose timer is in the list, not due yet, and due within the next `n` ticks,
-- is ready or running after `n` timer interrupts.
pub ticks-is_awake :
    (n : ℕ) (k : Kernel) (t : ℕ) (x p : Ptr)
    → Ticking k t
    → t + n < 0x8000_0000
    → WakesWithin k n t x p
    → Returns (λ k'. Ticking k' (t + n) × (is_awake k' p ≡ true)) (ticks n k)
unfolding ticks
ticks-is_awake zero k t x p v small (inl up) =
    let here : t ≡ t + 0 = omega arith in (k, refl, (subst (Ticking k) here v, up))
ticks-is_awake zero k t x p v small (inr (on, of, early, soon)) =
    let here : t + 0 ≡ t = omega arith in
    absurd (
      ground (
        arith,
        early,
        subst (λ (m : ℕ). leb_ℤ (k.timers x).awakening_time (pos m) ≡ true) here soon,
      ))
ticks-is_awake (suc n) k t x p v small w =
    Returns-bind (timer_interrupt k) (ticks n) (timer_interrupt-Scheduled k t v (omega arith))
      λ k1 (v1, timers, list, wakes).
        let ends =
          ticks-is_awake n k1 (suc t) x p v1 (omega arith)
            (tick-WakesWithin k k1 n t x p timers list wakes w) in
        subst (λ (m : ℕ). Returns (λ k'. Ticking k' m × (is_awake k' p ≡ true)) (ticks n k1))
          (omega arith) ends
