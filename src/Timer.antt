-- ===== src/Timer.antt =====
-- src/disastrOS_timer.c
pub mod Sorted
use disastr_os_message_queue.Base.{
  List, [], ◌∷◌, if◌then◌else◌, ◌==◌, ℤ, ltb_ℤ, leb_ℤ, insert_after,
}
use disastr_os_message_queue.PoolAllocator.{Ptr, null, get_block, release_block}
use disastr_os_message_queue.Kernel.{Kernel, TimerItem, Run, ok, fault, ◌>>=◌, from_pool, update}

-- `List_insert` behind `previous`, or in front where that is null.
abbrev pub insert_behind : Ptr → Ptr → List Ptr → List Ptr
insert_behind previous p xs = if previous == null then p ∷ xs else insert_after previous p xs

-- `TimerItem_alloc`, with the link from the process to its timer.
unfoldable pub timer_item_alloc : Kernel → ℤ → Ptr → Run (Ptr × Kernel)
timer_item_alloc k awakening_time pcb = do
  (item, pool) ← from_pool (get_block k.timer_pool)
  if item == null
      then ok (null, record k { timer_pool = pool })
      else ok (
        item,
        record k {
          timer_pool = pool;
          timers = update k.timers item (record { pcb = pcb; awakening_time = awakening_time });
          pcbs = update k.pcbs pcb (record (k.pcbs pcb) { timer = item });
        },
      )

-- `TimerItem_free`. Its callers ignore the result.
unfoldable pub timer_item_free : Kernel → Ptr → Run Kernel
timer_item_free k item = do
  (pool, _) ← from_pool (release_block k.timer_pool item)
  ok (record k { timer_pool = pool })

-- The loop of `TimerList_add`: the last item before the first one that is due later, from
-- `previous` on.
unfoldable pub previous_item : (Ptr → TimerItem) → ℤ → Ptr → List Ptr → Ptr
previous_item timers awakening_time previous [] = previous
previous_item timers awakening_time previous (t ∷ ts) =
    let rest = previous_item timers awakening_time t ts in
    if ltb_ℤ awakening_time (timers t).awakening_time then previous else rest

-- `TimerList_add` on `timer_list`
unfoldable pub timer_list_add : Kernel → ℤ → Ptr → Run (Ptr × Kernel)
unfolding timer_item_alloc previous_item insert_after
timer_list_add k awakening_time pcb = do
  let previous = previous_item k.timers awakening_time null k.timer_list
  (new_item, k) ← timer_item_alloc k awakening_time pcb
  if new_item == null
      then ok (null, k)
      else ok (new_item, record k { timer_list = insert_behind previous new_item k.timer_list })

-- `TimerList_current` on `timer_list`: null, or the first item, if it is due.
unfoldable pub timer_list_current : Kernel → Ptr
timer_list_current k = elim k.timer_list [
  | [] ↦ null
  | t ∷ ts ↦ if leb_ℤ (k.timers t).awakening_time k.time then t else null
]

-- `TimerList_removeCurrent` on `timer_list`. On an empty list `List_detach` is given a null pointer,
-- which it dereferences.
unfoldable pub timer_list_remove_current : Kernel → Run Kernel
unfolding timer_item_free
timer_list_remove_current k = elim k.timer_list [
  | [] ↦ fault
  | t ∷ ts ↦ timer_item_free (record k { timer_list = ts }) t
]
