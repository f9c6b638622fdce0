-- ===== src/Schedule/Switched.antt =====
-- The switch to the next process keeps the lists in order.
use disastr_os_message_queue.Base.{
  ◌≡◌, ◌+◌, ◌≤◌, refl, sym, ◌∙◌, ap, true, false, List, [], ◌∷◌, arith, ◌==◌, ==_refl, eq_of_==,
  Bool-cases, List-cases, inl, inr,
}
use disastr_os_message_queue.PoolAllocator.{Ptr, null}
use disastr_os_message_queue.Kernel.{Kernel, ready, running, is_running, push_back, set_status}
use disastr_os_message_queue.Kernel.Order.{listed}
use disastr_os_message_queue.Kernel.Order.Count.{once, count, count-append, IsOrdered, count-listed}
use disastr_os_message_queue.Schedule.{switch}
use disastr_os_message_queue.Schedule.Switch.{switch_alone, switch_blocked, switch_active}

-- The switch takes the first ready process off the list, and puts the one that ran there only if it
-- was in none.
module _ (k : Kernel) (next : Ptr) (rest : List Ptr) (o : IsOrdered k)
    (e : k.ready_list ≡ next ∷ rest) where
  first : (q : Ptr) → count q k.ready_list ≡ once next q + count q rest
  first q = ap (count q) e

  next_in : 1 ≤ count next (listed k)
  next_in =
      let one : once next next ≡ 1 = rw (==_refl next) refl in
      omega (arith, count-listed k next, first next, one)

  abbrev taken : Kernel
  taken = record (set_status k next running) { ready_list = rest; running = next }

  abbrev swapped : Kernel
  swapped = record (set_status (set_status k k.running ready) next running) {
    ready_list = push_back rest k.running;
    running = next;
  }

  taken-IsOrdered : IsOrdered taken
  taken-IsOrdered = record {
    apart = λ q. omega (arith, count-listed k q, count-listed taken q, first q, o.apart q);
    no_null = omega (arith, count-listed k null, count-listed taken null, first null, o.no_null);
    timed = o.timed;
    active = λ runs.
        let one : once next next ≡ 1 = rw (==_refl next) refl in
        omega (arith, count-listed k next, count-listed taken next, first next, o.apart next, one);
  }

  pushed : (q : Ptr) → count q (push_back rest k.running) ≡ count q rest + once k.running q
  pushed q = omega (arith, count-append q rest (k.running ∷ []))

  swapped-IsOrdered :
      is_running (k.pcbs k.running).status ≡ true → (k.running == null) ≡ false → IsOrdered swapped
  swapped-IsOrdered runs alive =
      let out = o.active runs in
      record {
        apart = λ q. elim (Bool-cases (k.running == q)) [
          | inl same ↦
              let none : count q (listed k) ≡ 0 =
                ap (λ (p : Ptr). count p (listed k)) (sym (eq_of_== k.running q same)) ∙ out in
              let one : once k.running q ≡ 1 = rw same refl in
              omega (arith, count-listed k q, count-listed swapped q, first q, pushed q, none, one)
          | inr other ↦
              let zero_times : once k.running q ≡ 0 = rw other refl in
              omega (
                arith,
                count-listed k q,
                count-listed swapped q,
                first q,
                pushed q,
                o.apart q,
                zero_times,
              )
        ];
        no_null =
            let zero_times : once k.running null ≡ 0 = rw alive refl in
            omega (
              arith,
              count-listed k null,
              count-listed swapped null,
              first null,
              pushed null,
              o.no_null,
              zero_times,
            );
        timed = o.timed;
        active = λ now. elim (Bool-cases (k.running == next)) [
          | inl same ↦
              let none : count next (listed k) ≡ 0 =
                ap (λ (p : Ptr). count p (listed k)) (sym (eq_of_== k.running next same)) ∙ out in
              absurd (omega (arith, next_in, none))
          | inr other ↦
              let one : once next next ≡ 1 = rw (==_refl next) refl in
              let zero_times : once k.running next ≡ 0 = rw other refl in
              omega (
                arith,
                count-listed k next,
                count-listed swapped next,
                first next,
                pushed next,
                o.apart next,
                one,
                zero_times,
              )
        ];
      }

  next_alive : (next == null) ≡ false
  next_alive = elim (Bool-cases (next == null)) [
    | inl nobody ↦
        let here : count next (listed k) ≡ 0 =
          ap (λ (p : Ptr). count p (listed k)) (eq_of_== next null nobody) ∙ o.no_null in
        absurd (omega (arith, next_in, here))
    | inr somebody ↦ somebody
  ]

pub switch-IsOrdered :
    (k : Kernel)
    → (k.running == null) ≡ false
    → IsOrdered k
    → IsOrdered (switch k) × (((switch k).running == null) ≡ false)
switch-IsOrdered k alive o = elim (List-cases k.ready_list) [
  | inl e ↦ rw (switch_alone k e) (o, alive)
  | inr (next, rest, e) ↦ elim (Bool-cases (is_running (k.pcbs k.running).status)) [
    | inl runs ↦
        rw (switch_active k next rest e runs)
          (swapped-IsOrdered k next rest o e runs alive, next_alive k next rest o e)
    | inr blocks ↦
        rw (switch_blocked k next rest e blocks)
          (taken-IsOrdered k next rest o e, next_alive k next rest o e)
  ]
]
