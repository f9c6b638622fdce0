-- ===== src/Schedule/Awake.antt =====
-- The scheduler wakes the processes whose timers are due, and puts no process that can run to sleep.
use disastr_os_message_queue.Base.{
  ℕ, zero, suc, ◌≡◌, refl, ap, sym, ◌∙◌, subst, true, false, List, [], ◌∷◌, arith, ◌==◌, ==_refl,
  eq_of_==, ◌||◌, ◌&&◌, Bool, Bool-cases, List-cases, inl, inr, has, has-append, length,
  insert_after,
}
use disastr_os_message_queue.PoolAllocator.{Ptr, null}
use disastr_os_message_queue.Kernel.{
  Kernel, TimerItem, ◌>>=◌, Pcb, ready, running, ok, is_running, update, set_status, push_back,
}
use disastr_os_message_queue.Kernel.Returns.{eq_of_ok}
use disastr_os_message_queue.Timer.{
  insert_behind, timer_list_current, timer_list_remove_current, timer_item_free,
}
use disastr_os_message_queue.Schedule.Timers.{switch-timer_list}
use disastr_os_message_queue.Schedule.Total.{current_first}
use disastr_os_message_queue.Schedule.Switch.{
  internal_schedule_ran, wake_elapsed_idle, switch_alone, switch_active, switch_blocked,
}
use disastr_os_message_queue.Kernel.{>>=-eq-ok}
use disastr_os_message_queue.Schedule.{wake, wake_elapsed, switch, scheduled, internal_schedule}

-- The process is in the ready list, or it runs and its status says so.
abbrev pub is_awake : Kernel → Ptr → Bool
is_awake k p = has p k.ready_list || ((k.running == p) && is_running (k.pcbs p).status)

-- An insertion at the front or behind an item of the list inserts, and loses nothing.
has-insert_after :
    (a b before : Ptr) (xs : List Ptr)
    → has before xs ≡ true
    → has a (insert_after before b xs) ≡ ((a == b) || has a xs)
unfolding insert_after
has-insert_after a b before [] on = absurd (ground arith)
has-insert_after a b before (x ∷ xs) on =
    ground (arith, has-insert_after a b before xs, eq_of_== before x)

has-insert_behind :
    (a b previous : Ptr) (xs : List Ptr)
    → ((previous == null) || has previous xs) ≡ true
    → has a (insert_behind previous b xs) ≡ ((a == b) || has a xs)
has-insert_behind a b previous xs on = ground (arith, has-insert_after a b previous xs)

-- What a round does to the lists and to the process that it wakes.
record Woken (k : Kernel) (t previous : Ptr) (ts : List Ptr) (k' : Kernel) : Type 0 where
  ready_list : k'.ready_list ≡ insert_behind previous (k.timers t).pcb k.ready_list
  running : k'.running ≡ k.running
  pcbs :
      k'.pcbs
      ≡ update k.pcbs
          (k.timers t).pcb
          (record (k.pcbs (k.timers t).pcb) { status = ready; timer = null })
  timers : k'.timers ≡ k.timers
  timer_list : k'.timer_list ≡ ts

removed-Woken :
    (k : Kernel) (t : Ptr) (ts : List Ptr) (k' : Kernel)
    → k.timer_list ≡ t ∷ ts
    → timer_list_remove_current k ≡ ok k'
    → (k'.ready_list ≡ k.ready_list)
      × (k'.running ≡ k.running)
      × (k'.pcbs ≡ k.pcbs)
      × (k'.timers ≡ k.timers)
      × (k'.timer_list ≡ ts)
unfolding timer_list_remove_current timer_item_free
removed-Woken k t ts k' e ran = ground arith

wake-Woken :
    (k : Kernel) (t previous : Ptr) (ts : List Ptr) (k' : Kernel)
    → k.timer_list ≡ t ∷ ts
    → wake k t previous ≡ ok k'
    → Woken k t previous ts k'
unfolding wake
wake-Woken k t previous ts k' e ran =
    let (r, n, p, m, l) = removed-Woken _ t ts k' e ran in
    record { ready_list = r; running = n; pcbs = p; timers = m; timer_list = l }

-- The process of the timer is awake then, and so is who was awake before.
module _ (k : Kernel) (t previous : Ptr) (ts : List Ptr) (k' : Kernel)
    (w : Woken k t previous ts k')
    (on : ((previous == null) || has previous k.ready_list) ≡ true) where
  has-woken : (q : Ptr) → has q k'.ready_list ≡ ((q == (k.timers t).pcb) || has q k.ready_list)
  has-woken q =
      ap (has q) w.ready_list ∙ has-insert_behind q (k.timers t).pcb previous k.ready_list on

  woken-ready : has (k.timers t).pcb k'.ready_list ≡ true
  woken-ready = has-woken (k.timers t).pcb ∙ ground (arith, ==_refl (k.timers t).pcb)

  woken-awake : (q : Ptr) → is_awake k q ≡ true → is_awake k' q ≡ true
  woken-awake q up = elim (Bool-cases (q == (k.timers t).pcb)) [
    | inl same ↦ ground (arith, has-woken q)
    | inr other ↦
        let kept : k'.pcbs q ≡ k.pcbs q = ap (λ (f : Ptr → Pcb). f q) w.pcbs ∙ ground arith in
        rw (has-woken q, w.running, kept) (ground arith)
  ]

-- Who was awake is so still, and so is the process of each timer that has left the list.
abbrev pub Wakes : Kernel → Kernel → Type 0
Wakes k k' =
    ((q : Ptr) → is_awake k q ≡ true → is_awake k' q ≡ true)
    × ((x : Ptr)
        → has x k.timer_list ≡ true
        → has x k'.timer_list ≡ false
        → is_awake k' (k.timers x).pcb ≡ true)

Wakes-refl : (k : Kernel) → Wakes k k
Wakes-refl k = (λ q up. up, λ x on off. absurd (ground arith))

wake_elapsed_none : (k : Kernel) (p : Ptr) → wake_elapsed zero k p ≡ ok k
unfolding wake_elapsed
wake_elapsed_none k p = refl

wake_elapsed_due :
    (rounds : ℕ) (k : Kernel) (p : Ptr)
    → (timer_list_current k == null) ≡ false
    → wake_elapsed (suc rounds) k p ≡ (
        wake k (timer_list_current k) p >>= λ k1.
        wake_elapsed rounds k1 (k.timers (timer_list_current k)).pcb)
unfolding wake_elapsed
wake_elapsed_due rounds k p due = rw due refl

-- The rounds behind a first round add to it.
module _ (k : Kernel) (t p : Ptr) (ts : List Ptr) (k1 k' : Kernel) (w : Woken k t p ts k1)
    (on : ((p == null) || has p k.ready_list) ≡ true) (e : k.timer_list ≡ t ∷ ts) where
  Wakes-next : Wakes k1 k' → Wakes k k'
  Wakes-next (kept, fired) = (λ q was. kept q (woken-awake k t p ts k1 w on q was), gone)
    where
      gone :
          (x : Ptr)
          → has x k.timer_list ≡ true
          → has x k'.timer_list ≡ false
          → is_awake k' (k.timers x).pcb ≡ true
      gone x x_on x_off = elim (Bool-cases (x == t)) [
        | inl same ↦
            let up : is_awake k1 (k.timers t).pcb ≡ true =
              ground (arith, woken-ready k t p ts k1 w on) in
            rw (eq_of_== x t same) (kept (k.timers t).pcb up)
        | inr other ↦
            let x_rest : has x k1.timer_list ≡ true =
              rw w.timer_list (ground (arith, sym (ap (has x) e) ∙ x_on)) in
            subst (λ (f : Ptr → TimerItem). is_awake k' (f x).pcb ≡ true) w.timers
              (fired x x_rest x_off)
      ]

wake_elapsed-Wakes :
    (rounds : ℕ) (k : Kernel) (p : Ptr) (k' : Kernel)
    → ((p == null) || has p k.ready_list) ≡ true
    → wake_elapsed rounds k p ≡ ok k'
    → Wakes k k'
wake_elapsed-Wakes zero k p k' on ran =
    subst (Wakes k) (eq_of_ok (sym (wake_elapsed_none k p) ∙ ran)) (Wakes-refl k)
wake_elapsed-Wakes (suc rounds) k p k' on ran = elim (Bool-cases (timer_list_current k == null)) [
  | inl idle ↦
      subst (Wakes k)
        (eq_of_ok (sym (wake_elapsed_idle (suc rounds) k p (eq_of_== _ _ idle)) ∙ ran))
        (Wakes-refl k)
  | inr due ↦
      let t = timer_list_current k in
      let pcb = (k.timers t).pcb in
      let (ts, e) = current_first k due in
      let (k1, woke, later) =
        >>=-eq-ok (wake k t p) (λ k1. wake_elapsed rounds k1 pcb)
          (sym (wake_elapsed_due rounds k p due) ∙ ran) in
      let w = wake-Woken k t p ts k1 e woke in
      let up = woken-ready k t p ts k1 w on in
      Wakes-next k t p ts k1 k' w on e
        (wake_elapsed-Wakes rounds k1 pcb k' (ground (arith, up)) later)
]

-- Who is put to run is awake, as is the ready list.
chosen-awake :
    (k : Kernel) (next : Ptr) (xs : List Ptr) (q : Ptr)
    → ((next == q) || has q xs) ≡ true
    → is_awake (record (set_status k next running) { ready_list = xs; running = next }) q ≡ true
chosen-awake k next xs q h = elim (Bool-cases (next == q)) [
  | inl same ↦ ground (arith, eq_of_== next q same, ==_refl q)
  | inr other ↦ ground arith
]

switch-awake : (k : Kernel) (q : Ptr) → is_awake k q ≡ true → is_awake (switch k) q ≡ true
switch-awake k q up = elim (List-cases k.ready_list) [
  | inl e ↦ rw (switch_alone k e) up
  | inr (next, rest, e) ↦ elim (Bool-cases (is_running (k.pcbs k.running).status)) [
    | inl active ↦ rw (switch_active k next rest e active) (
        chosen-awake (set_status k k.running ready) next (push_back rest k.running) q (
          ground (
            arith,
            has-append q rest (k.running ∷ []),
            sym (ap (has q) e),
            up,
            eq_of_== k.running q,
            eq_of_== next q,
          )))
    | inr passive ↦
        rw (switch_blocked k next rest e passive) (
          chosen-awake k next rest q (ground (arith, sym (ap (has q) e), up, eq_of_== k.running q)))
  ]
]

-- Whatever the scheduler does, a process that was awake is awake, and so is the process of each
-- timer that it took off the list.
pub internal_schedule-Wakes : (k k' : Kernel) → internal_schedule k ≡ ok k' → Wakes k k'
unfolding scheduled
internal_schedule-Wakes k k' ran =
    let (k1, woke, switched) =
      >>=-eq-ok (wake_elapsed (length k.timer_list) k null) (λ k1. ok (switch k1))
        (internal_schedule_ran k ran) in
    let (kept, fired) = wake_elapsed-Wakes (length k.timer_list) k null k1 refl woke in
    let same : switch k1 ≡ k' = eq_of_ok switched in
    subst (Wakes k) same (
      λ q up. switch-awake k1 q (kept q up),
      λ x on off. switch-awake k1 _ (fired x on (sym (ap (has x) (switch-timer_list k1)) ∙ off)),
    )
