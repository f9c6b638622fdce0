-- ===== src/Timer/Sorted.antt =====
-- The list of timers is sorted: TimerList_add against insertion in order.
use disastr_os_message_queue.Base.{
  head_ne, has-rest, ◌≡◌, refl, ap, ◌∙◌, true, false, some, List, [], ◌∷◌, arith, ℤ, ltb_ℤ, ◌≤ℤ◌,
  ◌==◌, Bool-cases, inl, inr, has, IsDistinct, insert_after, if◌then◌else◌, eq_of_==, ==_refl,
}
use disastr_os_message_queue.PoolAllocator.{Ptr, null, PoolAllocator, get_block}
use disastr_os_message_queue.Kernel.{Kernel, TimerItem, ok, update}
use disastr_os_message_queue.Timer.{insert_behind, previous_item, timer_item_alloc, timer_list_add}

-- No item of the list is due before the time `bound`, and the list is in order.
abbrev pub IsSortedFrom : (Ptr → TimerItem) → ℤ → List Ptr → Type 0
IsSortedFrom timers bound [] = Unit {0}
IsSortedFrom timers bound (t ∷ ts) =
    (bound ≤ℤ (timers t).awakening_time) × IsSortedFrom timers (timers t).awakening_time ts

abbrev pub IsSorted : (Ptr → TimerItem) → List Ptr → Type 0
IsSorted timers [] = Unit {0}
IsSorted timers (t ∷ ts) = IsSortedFrom timers (timers t).awakening_time ts

-- Insertion in front of the first item that is due later.
abbrev pub insert_sorted : (Ptr → TimerItem) → ℤ → Ptr → List Ptr → List Ptr
insert_sorted timers time item [] = item ∷ []
insert_sorted timers time item (t ∷ ts) =
    if ltb_ℤ time (timers t).awakening_time
    then item ∷ t ∷ ts
    else t ∷ insert_sorted timers time item ts

has-previous_item :
    (timers : Ptr → TimerItem) (time : ℤ) (p : Ptr) (ts : List Ptr)
    → has (previous_item timers time p ts) (p ∷ ts) ≡ true
unfolding previous_item
has-previous_item timers time p [] = ground arith
has-previous_item timers time p (t ∷ ts) = ground (arith, has-previous_item timers time t ts)

previous_item_before :
    (timers : Ptr → TimerItem) (time : ℤ) (p t : Ptr) (ts : List Ptr)
    → ltb_ℤ time (timers t).awakening_time ≡ true
    → previous_item timers time p (t ∷ ts) ≡ p
unfolding previous_item
previous_item_before timers time p t ts before = rw before

previous_item_behind :
    (timers : Ptr → TimerItem) (time : ℤ) (p t : Ptr) (ts : List Ptr)
    → ltb_ℤ time (timers t).awakening_time ≡ false
    → previous_item timers time p (t ∷ ts) ≡ previous_item timers time t ts
unfolding previous_item
previous_item_behind timers time p t ts behind = rw behind

insert_after_self : (p item : Ptr) (ts : List Ptr) → insert_after p item (p ∷ ts) ≡ p ∷ item ∷ ts
unfolding insert_after
insert_after_self p item ts = rw (==_refl p)

insert_after_other :
    (q item p : Ptr) (ts : List Ptr)
    → (p == q) ≡ false
    → insert_after q item (p ∷ ts) ≡ p ∷ insert_after q item ts
unfolding insert_after
insert_after_other q item p ts other = rw other

-- Behind the item that the loop finds is the place in the order.
insert_after-previous_item :
    (timers : Ptr → TimerItem) (time : ℤ) (item p : Ptr) (ts : List Ptr)
    → IsDistinct (p ∷ ts)
    → insert_after (previous_item timers time p ts) item (p ∷ ts)
      ≡ p ∷ insert_sorted timers time item ts
unfolding previous_item
insert_after-previous_item timers time item p [] d = insert_after_self p item []
insert_after-previous_item timers time item p (t ∷ ts) d =
    elim (Bool-cases (ltb_ℤ time (timers t).awakening_time)) [
      | inl before ↦
          ap (λ (q : Ptr). insert_after q item (p ∷ t ∷ ts))
            (previous_item_before timers time p t ts before)
          ∙ insert_after_self p item (t ∷ ts)
          ∙ rw before
      | inr behind ↦
          let q = previous_item timers time t ts in
          let other : (p == q) ≡ false =
            ground (arith, d.0, eq_of_== p q, has-previous_item timers time t ts) in
          ap (λ (q : Ptr). insert_after q item (p ∷ t ∷ ts))
            (previous_item_behind timers time p t ts behind)
          ∙ insert_after_other q item p (t ∷ ts) other
          ∙ ap (λ (xs : List Ptr). p ∷ xs) (insert_after-previous_item timers time item t ts d.1)
          ∙ rw behind
    ]

insert_behind-previous_item :
    (timers : Ptr → TimerItem) (time : ℤ) (item : Ptr) (ts : List Ptr)
    → IsDistinct ts
    → has null ts ≡ false
    → insert_behind (previous_item timers time null ts) item ts ≡ insert_sorted timers time item ts
unfolding previous_item
insert_behind-previous_item timers time item [] d no_null = refl
insert_behind-previous_item timers time item (t ∷ ts) d no_null =
    elim (Bool-cases (ltb_ℤ time (timers t).awakening_time)) [
      | inl before ↦
          ap (λ (q : Ptr). insert_behind q item (t ∷ ts))
            (previous_item_before timers time null t ts before)
          ∙ rw before
      | inr behind ↦
          let q = previous_item timers time t ts in
          let other : (q == null) ≡ false =
            ground (arith, no_null, eq_of_== q null, has-previous_item timers time t ts) in
          ap (λ (q : Ptr). insert_behind q item (t ∷ ts))
            (previous_item_behind timers time null t ts behind)
          ∙ rw (other, behind) (insert_after-previous_item timers time item t ts d)
    ]

-- A new item changes nothing for the others.
update-IsSortedFrom :
    (timers : Ptr → TimerItem) (new : TimerItem) (item : Ptr) (bound : ℤ) (ts : List Ptr)
    → has item ts ≡ false
    → IsSortedFrom timers bound ts
    → IsSortedFrom (update timers item new) bound ts
update-IsSortedFrom timers new item bound [] out s = s
update-IsSortedFrom timers new item bound (t ∷ ts) out s =
    let other : (t == item) ≡ false = head_ne item t ts out in
    rw other (s.0, update-IsSortedFrom timers new item _ ts (has-rest item t ts out) s.1)

insert_sorted-IsSortedFrom :
    (timers : Ptr → TimerItem) (new : TimerItem) (item : Ptr) (bound : ℤ) (ts : List Ptr)
    → bound ≤ℤ new.awakening_time
    → has item ts ≡ false
    → IsSortedFrom timers bound ts
    → IsSortedFrom (update timers item new) bound (insert_sorted timers new.awakening_time item ts)
insert_sorted-IsSortedFrom timers new item bound [] h out s = rw (==_refl item) (h, _)
insert_sorted-IsSortedFrom timers new item bound (t ∷ ts) h out s =
    let other : (t == item) ≡ false = head_ne item t ts out in
    elim (Bool-cases (ltb_ℤ new.awakening_time (timers t).awakening_time)) [
      | inl before ↦
          rw (before, ==_refl item, other)
            (
              h,
              (ground arith, update-IsSortedFrom timers new item _ ts (has-rest item t ts out) s.1),
            )
      | inr behind ↦
          rw (behind, other)
            (
              s.0,
              insert_sorted-IsSortedFrom timers new item _ ts (ground arith) (ground (arith, out))
                  s.1,
            )
    ]

insert_sorted-IsSorted :
    (timers : Ptr → TimerItem) (new : TimerItem) (item : Ptr) (ts : List Ptr)
    → has item ts ≡ false
    → IsSorted timers ts
    → IsSorted (update timers item new) (insert_sorted timers new.awakening_time item ts)
insert_sorted-IsSorted timers new item [] out s = _
insert_sorted-IsSorted timers new item (t ∷ ts) out s =
    let other : (t == item) ≡ false = head_ne item t ts out in
    elim (Bool-cases (ltb_ℤ new.awakening_time (timers t).awakening_time)) [
      | inl before ↦
          rw (before, ==_refl item, other)
            (ground arith, update-IsSortedFrom timers new item _ ts (has-rest item t ts out) s)
      | inr behind ↦
          rw (behind, other)
            (insert_sorted-IsSortedFrom timers new item _ ts (ground arith) (has-rest item t ts out)
              s)
    ]

-- The kernel with the new timer `item` of process `pcb`.
abbrev pub timed :
    Kernel → (item : Ptr) → PoolAllocator → (awakening_time : ℤ) → (pcb : Ptr) → Kernel
timed k item pool awakening_time pcb = record k {
  timer_pool = pool;
  timers = update k.timers item (record { awakening_time = awakening_time; pcb = pcb });
  pcbs = update k.pcbs pcb (record (k.pcbs pcb) { timer = item });
  timer_list = insert_sorted k.timers awakening_time item k.timer_list;
}

-- On a sorted list of distinct timers, with a free block that is not in it, `TimerList_add` puts
-- the new timer behind all that are due no later and in front of the others, links it to its
-- process, and the list stays sorted.
pub timer_list_add-IsSorted :
    (k : Kernel) (awakening_time : ℤ) (pcb item : Ptr) (pool : PoolAllocator)
    → IsSorted k.timers k.timer_list
    → IsDistinct k.timer_list
    → has null k.timer_list ≡ false
    → has item k.timer_list ≡ false
    → get_block k.timer_pool ≡ some (item, pool)
    → (item == null) ≡ false
    → (timer_list_add k awakening_time pcb ≡ ok (item, timed k item pool awakening_time pcb))
      × IsSorted
          (timed k item pool awakening_time pcb).timers
          (timed k item pool awakening_time pcb).timer_list
unfolding timer_list_add timer_item_alloc
timer_list_add-IsSorted k awakening_time pcb item pool s d no_null out got given = (
  rw (got, given, given)
      (ap
        (λ (ts : List Ptr).
          ok (item, record (timed k item pool awakening_time pcb) { timer_list = ts }))
        (insert_behind-previous_item k.timers awakening_time item k.timer_list d no_null)),
  insert_sorted-IsSorted k.timers (record { awakening_time = awakening_time; pcb = pcb }) item
      k.timer_list out s,
)
