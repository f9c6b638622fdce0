-- ===== src/Syscall/Ticks/Sleep.antt =====
-- A process that sleeps wakes up.
use disastr_os_message_queue.Base.{
  ℕ, suc, ◌≡◌, ◌+◌, ◌<◌, refl, ap, sym, ◌∙◌, subst, true, false, some, List, [], ◌∷◌, arith, ℤ, pos,
  leb_ℤ, ◌==◌, ==_refl, eq_of_==, ◌||◌, inr, has, int_add, wrap32, wrap32-pos, ◌+ℤ◌, IsDistinct,
}
use disastr_os_message_queue.PoolAllocator.{Ptr, null, PoolAllocator, get_block}
use disastr_os_message_queue.Kernel.{Kernel, TimerItem, running, is_running, ok, ◌>>=◌}
use disastr_os_message_queue.Kernel.Order.{is_listed}
use disastr_os_message_queue.Kernel.Order.Count.{running_unlisted}
use disastr_os_message_queue.Kernel.Returns.{Returns, eq_of_ok}
use disastr_os_message_queue.Kernel.Invariant.{IsKernel}
use disastr_os_message_queue.Timer.{timer_list_add}
use disastr_os_message_queue.Timer.Sorted.{insert_sorted, timed, timer_list_add-IsSorted}
use disastr_os_message_queue.Schedule.{internal_schedule}
use disastr_os_message_queue.Schedule.Pending.{has-pending_late}
use disastr_os_message_queue.Schedule.Awake.{is_awake}
use disastr_os_message_queue.Process.Sleep.{internal_sleep, asleep}
use disastr_os_message_queue.Process.Sleep.Order.{asleep-is_orderly}
use disastr_os_message_queue.Process.Sleep.Total.{timer_list_add_total}
use disastr_os_message_queue.Syscall.Ticks.{
  ticks, Ticking, WakesWithin, internal_schedule-Scheduled, ticks-is_awake,
}

has-insert_sorted :
    (timers : Ptr → TimerItem) (time : ℤ) (x item : Ptr) (ts : List Ptr)
    → has x (insert_sorted timers time item ts) ≡ ((x == item) || has x ts)
has-insert_sorted timers time x item [] = refl
has-insert_sorted timers time x item (t ∷ ts) =
    ground (arith, has-insert_sorted timers time x item ts)

sleep-schedule :
    (k : Kernel) (time : ℤ) (item : Ptr) (k1 : Kernel)
    → ((k.pcbs k.running).timer == null) ≡ true
    → int_add k.time (wrap32 ((k.pcbs k.running).syscall_args 0)) ≡ time
    → timer_list_add k time k.running ≡ ok (item, k1)
    → (item == null) ≡ false
    → is_listed k1 k.running ≡ false
    → internal_sleep k ≡ internal_schedule (asleep k1 k.running item)
unfolding internal_sleep
sleep-schedule k time item k1 untimed due added given unlisted =
    rw (untimed, due, added, given, unlisted) refl

-- The running process, without a timer of its own, asks for `cycles` and there is a block for its timer.
pub record Sleeps (k : Kernel) (cycles : ℕ) (item : Ptr) (pool : PoolAllocator) : Type 0 where
  pub runs : (k.pcbs k.running).status ≡ running
  pub untimed : (k.pcbs k.running).timer ≡ null
  pub asked : wrap32 ((k.pcbs k.running).syscall_args 0) ≡ pos cycles
  pub got : get_block k.timer_pool ≡ some (item, pool)
  pub given : (item == null) ≡ false
  pub fresh : has item k.timer_list ≡ false
  pub distinct : IsDistinct k.timer_list

module _ (k : Kernel) (t cycles : ℕ) (item : Ptr) (pool : PoolAllocator) (v : Ticking k t)
    (s : Sleeps k cycles item pool) (small : t + cycles < 0x8000_0000) where
  abbrev slept : Kernel
  slept = asleep (timed k item pool (pos (t + cycles)) k.running) k.running item

  due_time : int_add k.time (wrap32 ((k.pcbs k.running).syscall_args 0)) ≡ pos (t + cycles)
  unfolding int_add ◌+ℤ◌
  due_time =
      let sum : pos t +ℤ pos cycles ≡ pos (t + cycles) = ground arith in
      rw (v.time, s.asked) (ap wrap32 sum ∙ wrap32-pos (t + cycles) small)

  timed_unlisted : is_listed (timed k item pool (pos (t + cycles)) k.running) k.running ≡ false
  unfolding is_listed
  timed_unlisted = running_unlisted k v.orderly (ap is_running s.runs)

  internal_sleep-slept : internal_sleep k ≡ internal_schedule slept
  internal_sleep-slept =
      let (added, sorted) =
        timer_list_add-IsSorted k (pos (t + cycles)) k.running item pool v.sorted s.distinct
          v.no_null s.fresh s.got s.given in
      sleep-schedule k (pos (t + cycles)) item (timed k item pool (pos (t + cycles)) k.running)
        (ap (λ (q : Ptr). q == null) s.untimed) due_time added s.given timed_unlisted

  slept-Ticking : Ticking slept t
  slept-Ticking =
      let (added, sorted) =
        timer_list_add-IsSorted k (pos (t + cycles)) k.running item pool v.sorted s.distinct
          v.no_null s.fresh s.got s.given in
      let (r, ran, stores) = timer_list_add_total k (pos (t + cycles)) k.running v.stores in
      let stores1 : IsKernel (timed k item pool (pos (t + cycles)) k.running) =
        subst (λ (r : Ptr × Kernel). IsKernel r.1) (eq_of_ok (sym ran ∙ added)) stores in
      record {
        stores = stores1;
        sorted = sorted;
        no_null = ground (
          arith,
          has-insert_sorted k.timers (pos (t + cycles)) null item k.timer_list,
          v.no_null,
          s.given,
          eq_of_== null item,
        );
        time = v.time;
        orderly =
            asleep-is_orderly k (t + cycles) item pool v.orderly (ap is_running s.runs) s.fresh
              v.stores.alive;
      }

-- With stores, timers and lists in order and a clock that stays below the end of its `int`, where the running
-- process has no timer, asks for at least one cycle and there is a block for its timer: it
-- sleeps, and after so many timer interrupts, with no call in between, it is ready or running.
pub internal_sleep-is_awake :
    (k : Kernel) (t cycles : ℕ) (item : Ptr) (pool : PoolAllocator)
    → Ticking k t
    → Sleeps k (suc cycles) item pool
    → t + suc cycles < 0x8000_0000
    → Returns (λ k'. is_awake k' k.running ≡ true) (internal_sleep k >>= ticks (suc cycles))
internal_sleep-is_awake k t cycles item pool v s small =
    let n = suc cycles in
    let k1 = slept k t n item pool v s small in
    let (k2, ran, (v2, timers, list, wakes)) =
      internal_schedule-Scheduled k1 t (slept-Ticking k t n item pool v s small) in
    let late : leb_ℤ (k1.timers item).awakening_time (pos t) ≡ false =
      rw (==_refl item) (ground arith) in
    let on : has item k1.timer_list ≡ true =
      has-insert_sorted k.timers (pos (t + n)) item item k.timer_list
      ∙ ground (arith, ==_refl item) in
    let waits : WakesWithin k2 n t item k.running = inr (
      rw list (has-pending_late k1.timers (pos t) item k1.timer_list on late),
      rw (timers, ==_refl item) refl,
      rw timers late,
      rw (timers, ==_refl item) (ground arith),
    ) in
    let (k3, rest, (v3, up)) = ticks-is_awake n k2 t item k.running v2 small waits in
    (k3, rw (internal_sleep-slept k t n item pool v s small, ran) rest, up)
