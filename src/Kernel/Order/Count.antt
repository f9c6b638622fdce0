-- ===== src/Kernel/Order/Count.antt =====
-- The order of the lists in terms of how often they hold a process.
use disastr_os_message_queue.Base.{
  ℕ, ◌≡◌, ◌+◌, ◌≤◌, refl, ◌∙◌, ap, true, false, List, [], ◌∷◌, ◌++◌, arith, ◌==◌, ==_refl, eq_of_==,
  if◌then◌else◌, Bool-cases, inl, inr, has, detach, insert_after,
}
use disastr_os_message_queue.PoolAllocator.{Ptr, null}
use disastr_os_message_queue.Kernel.{Kernel, TimerItem, is_running}
use disastr_os_message_queue.Kernel.Order.{
  waiters, listed, is_distinct, timers_wait, is_orderly, is_listed,
}

abbrev pub once : Ptr → Ptr → ℕ
once p q = if p == q then 1 else 0

abbrev pub count : Ptr → List Ptr → ℕ
count q [] = 0
count q (p ∷ ps) = once p q + count q ps

-- How many timers of the list belong to `q`.
abbrev pub count_timers : (Ptr → TimerItem) → Ptr → List Ptr → ℕ
count_timers timers q [] = 0
count_timers timers q (t ∷ ts) = once (timers t).pcb q + count_timers timers q ts

pub count-append : (q : Ptr) (xs ys : List Ptr) → count q (xs ++ ys) ≡ count q xs + count q ys
count-append q [] ys = omega arith
count-append q (x ∷ xs) ys = omega (arith, count-append q xs ys)

pub has-count_none : (q : Ptr) (xs : List Ptr) → has q xs ≡ false → count q xs ≡ 0
has-count_none q [] h = refl
has-count_none q (x ∷ xs) h = ground (arith, has-count_none q xs, eq_of_== x q, ==_refl q)

pub has-count_some : (q : Ptr) (xs : List Ptr) → has q xs ≡ true → 1 ≤ count q xs
has-count_some q [] h = ground arith
has-count_some q (x ∷ xs) h = ground (arith, has-count_some q xs, eq_of_== q x, ==_refl q)

pub count-detach :
    (p q : Ptr) (xs : List Ptr) → has p xs ≡ true → count q xs ≡ count q (detach p xs) + once p q
unfolding detach
count-detach p q [] h = ground arith
count-detach p q (x ∷ xs) h = elim (Bool-cases (x == p)) [
  | inl same ↦ rw same (rw (eq_of_== x p same) (omega arith))
  | inr other ↦
      let on : has p xs ≡ true = ground (arith, eq_of_== p x, ==_refl p) in
      rw other (omega (arith, count-detach p q xs on))
]

-- An item that is put behind one that is not there is lost.
pub count-insert_after :
    (before p q : Ptr) (xs : List Ptr) → count q (insert_after before p xs) ≤ count q xs + once p q
unfolding insert_after
count-insert_after before p q [] = omega arith
count-insert_after before p q (x ∷ xs) = elim (Bool-cases (x == before)) [
  | inl same ↦ rw same (omega arith)
  | inr other ↦ rw other (omega (arith, count-insert_after before p q xs))
]

pub is_distinct-count : (xs : List Ptr) → is_distinct xs ≡ true → (q : Ptr) → count q xs ≤ 1
is_distinct-count [] d q = omega arith
is_distinct-count (x ∷ xs) d q = elim (Bool-cases (x == q)) [
  | inl same ↦
      let out : has q xs ≡ false = ground (arith, d, eq_of_== x q same) in
      rw (same, has-count_none q xs out) (omega arith)
  | inr other ↦ rw other (omega (arith, is_distinct-count xs (ground (arith, d)) q))
]

pub is_distinct-of_count : (xs : List Ptr) → ((q : Ptr) → count q xs ≤ 1) → is_distinct xs ≡ true
is_distinct-of_count [] h = refl
is_distinct-of_count (x ∷ xs) h = elim (Bool-cases (has x xs)) [
  | inl twice ↦
      let one : once x x ≡ 1 = rw (==_refl x) refl in
      absurd (omega (arith, h x, has-count_some x xs twice, one))
  | inr out ↦ rw out (is_distinct-of_count xs (λ q. omega (arith, h q)))
]

pub timers_wait-count :
    (timers : Ptr → TimerItem) (w ts : List Ptr)
    → timers_wait timers w ts ≡ true
    → (q : Ptr) → count_timers timers q ts ≤ count q w
unfolding timers_wait
timers_wait-count timers w [] h q = omega arith
timers_wait-count timers w (t ∷ ts) h q =
    let p = (timers t).pcb in
    let on : has p w ≡ true = ground (arith, h) in
    let rest : timers_wait timers (detach p w) ts ≡ true = ground (arith, h) in
    omega (arith, count-detach p q w on, timers_wait-count timers (detach p w) ts rest q)

pub timers_wait-of_count :
    (timers : Ptr → TimerItem) (w ts : List Ptr)
    → ((q : Ptr) → count_timers timers q ts ≤ count q w)
    → timers_wait timers w ts ≡ true
unfolding timers_wait
timers_wait-of_count timers w [] h = refl
timers_wait-of_count timers w (t ∷ ts) h =
    let p = (timers t).pcb in
    let one : once p p ≡ 1 = rw (==_refl p) refl in
    elim (Bool-cases (has p w)) [
      | inl on ↦ rw on (
          timers_wait-of_count timers (detach p w) ts
            (λ q. omega (arith, h q, count-detach p q w on)))
      | inr out ↦ absurd (omega (arith, h p, one, has-count_none p w out))
    ]

-- Each process is in one place, those with a timer wait, none is at address 0, and the process
-- that runs, unless it blocks, is in no list.
pub record IsOrdered (k : Kernel) : Type 0 where
  pub apart : (q : Ptr) → count q (listed k) ≤ 1
  pub no_null : count null (listed k) ≡ 0
  pub timed : (q : Ptr) → count_timers k.timers q k.timer_list ≤ count q k.waiting_list
  pub active : is_running (k.pcbs k.running).status ≡ true → count k.running (listed k) ≡ 0

pub is_orderly-IsOrdered : (k : Kernel) → is_orderly k ≡ true → IsOrdered k
unfolding is_orderly
is_orderly-IsOrdered k h = record {
  apart = is_distinct-count (listed k) (ground (arith, h));
  no_null = has-count_none null (listed k) (ground (arith, h));
  timed = timers_wait-count k.timers k.waiting_list k.timer_list (ground (arith, h));
  active = λ runs. has-count_none k.running (listed k) (ground (arith, h, runs));
}

pub none_of_count : (q : Ptr) (xs : List Ptr) → count q xs ≡ 0 → has q xs ≡ false
none_of_count q xs e = elim (Bool-cases (has q xs)) [
  | inl on ↦ absurd (omega (arith, has-count_some q xs on))
  | inr out ↦ out
]

pub is_orderly-of_IsOrdered : (k : Kernel) → IsOrdered k → is_orderly k ≡ true
unfolding is_orderly
is_orderly-of_IsOrdered k o =
    let d = is_distinct-of_count (listed k) o.apart in
    let n = none_of_count null (listed k) o.no_null in
    let t = timers_wait-of_count k.timers k.waiting_list k.timer_list o.timed in
    elim (Bool-cases (is_running (k.pcbs k.running).status)) [
      | inl runs ↦ rw (d, n, t, runs, none_of_count k.running (listed k) (o.active runs)) refl
      | inr blocks ↦ rw (d, n, t, blocks) refl
    ]

-- A process that runs and does not block is in no list.
pub running_unlisted :
    (k : Kernel)
    → is_orderly k ≡ true
    → is_running (k.pcbs k.running).status ≡ true
    → is_listed k k.running ≡ false
unfolding is_listed
running_unlisted k orderly runs =
    none_of_count k.running (listed k) ((is_orderly-IsOrdered k orderly).active runs)

pub count-listed :
    (k : Kernel) (q : Ptr)
    → count q (listed k)
      ≡ count q k.ready_list
        + count q k.waiting_list
        + count q k.zombie_list
        + count q (waiters k.queues k.resources_list)
count-listed k q =
    count-append q (k.ready_list ++ k.waiting_list ++ k.zombie_list)
      (waiters k.queues k.resources_list)
    ∙ ap (λ (n : ℕ). n + count q (waiters k.queues k.resources_list))
        (count-append q (k.ready_list ++ k.waiting_list) k.zombie_list
          ∙ ap (λ (n : ℕ). n + count q k.zombie_list) (count-append q k.ready_list k.waiting_list))
