-- ===== src/Process/Sleep/Order.antt =====
-- A process that falls asleep leaves the lists in order.
use disastr_os_message_queue.Base.{
  ℕ, ◌≡◌, ◌+◌, refl, ap, sym, ◌∙◌, true, false, List, [], ◌∷◌, arith, ℤ, pos, ◌==◌, ==_refl,
  eq_of_==, inl, inr, has, head_ne, has-rest, Bool-cases, ltb_ℤ,
}
use disastr_os_message_queue.PoolAllocator.{Ptr, null, PoolAllocator}
use disastr_os_message_queue.Kernel.{Kernel, TimerItem, is_running, update}
use disastr_os_message_queue.Kernel.Order.{listed, is_orderly}
use disastr_os_message_queue.Kernel.Order.Count.{
  once, count, count_timers, count-append, count-listed, is_orderly-IsOrdered,
  is_orderly-of_IsOrdered,
}
use disastr_os_message_queue.Timer.Sorted.{insert_sorted, timed}
use disastr_os_message_queue.Process.Sleep.{asleep}

count_timers-fresh :
    (timers : Ptr → TimerItem) (x : TimerItem) (item q : Ptr) (ts : List Ptr)
    → has item ts ≡ false
    → count_timers (update timers item x) q ts ≡ count_timers timers q ts
count_timers-fresh timers x item q [] out = refl
count_timers-fresh timers x item q (t ∷ ts) out = rw (head_ne item t ts out) (
    ap (◌+◌ (once (timers t).pcb q))
      (count_timers-fresh timers x item q ts (has-rest item t ts out)))

-- The new timer counts for its process alone.
count_timers-insert_sorted :
    (timers : Ptr → TimerItem) (time : ℤ) (x : TimerItem) (item q : Ptr) (ts : List Ptr)
    → has item ts ≡ false
    → count_timers (update timers item x) q (insert_sorted timers time item ts)
      ≡ once x.pcb q + count_timers timers q ts
count_timers-insert_sorted timers time x item q [] out = rw (==_refl item) refl
count_timers-insert_sorted timers time x item q (t ∷ ts) out =
    let other : (t == item) ≡ false = head_ne item t ts out in
    let rest = has-rest item t ts out in
    elim (Bool-cases (ltb_ℤ time (timers t).awakening_time)) [
      | inl before ↦
          rw (before, ==_refl item, other)
            (omega (arith, count_timers-fresh timers x item q ts rest))
      | inr behind ↦
          rw (behind, other)
            (omega (arith, count_timers-insert_sorted timers time x item q ts rest))
    ]

module _ (k : Kernel) (time : ℕ) (item : Ptr) (pool : PoolAllocator) (orderly : is_orderly k ≡ true)
    (runs : is_running (k.pcbs k.running).status ≡ true)
    (fresh : has item k.timer_list ≡ false) where
  abbrev sleeper : Kernel
  sleeper = asleep (timed k item pool (pos time) k.running) k.running item

  grown : (q : Ptr) → count q sleeper.waiting_list ≡ count q k.waiting_list + once k.running q
  grown q = omega (arith, count-append q k.waiting_list (k.running ∷ []))

  more : (q : Ptr) → count q (listed sleeper) ≡ count q (listed k) + once k.running q
  more q = omega (arith, count-listed k q, count-listed sleeper q, grown q)

  -- The process that falls asleep was in no list, and has its timer in the list now.
  pub asleep-is_orderly : (alive : (k.running == null) ≡ false) → is_orderly sleeper ≡ true
  asleep-is_orderly alive =
      let o = is_orderly-IsOrdered k orderly in
      let out = o.active runs in
      is_orderly-of_IsOrdered sleeper (record {
        apart = λ q. elim (Bool-cases (k.running == q)) [
          | inl same ↦
              let none : count q (listed k) ≡ 0 =
                ap (λ (p : Ptr). count p (listed k)) (sym (eq_of_== k.running q same)) ∙ out in
              let one : once k.running q ≡ 1 = rw same refl in omega (arith, more q, none, one)
          | inr other ↦
              let zero_times : once k.running q ≡ 0 = rw other refl in
              omega (arith, more q, o.apart q, zero_times)
        ];
        no_null =
            let zero_times : once k.running null ≡ 0 = rw alive refl in
            omega (arith, more null, o.no_null, zero_times);
        timed = λ q. omega (
          arith,
          grown q,
          o.timed q,
          count_timers-insert_sorted k.timers (pos time)
              (record { awakening_time = pos time; pcb = k.running }) item q k.timer_list fresh,
        );
        active = λ now. absurd (ground (arith, ==_refl k.running));
      })
