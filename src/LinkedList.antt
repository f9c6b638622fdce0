-- ===== src/LinkedList.antt =====
-- src/linked_list.c: the doubly linked lists that the kernel keeps its objects in. `next` and `prev`
-- give the links of each item; a null pointer is not dereferenced but in `list_detach`.
pub mod Detach
pub mod Insert
pub mod Parts
pub mod Shape
use disastr_os_message_queue.Base.{
  ℕ, zero, suc, ◌||◌, not, if◌then◌else◌, ◌==◌, ℤ, pos, negsuc, ◌+ℤ◌,
}
use disastr_os_message_queue.PoolAllocator.{Ptr, null}
use disastr_os_message_queue.Kernel.{update}

pub record ListHead : Type 0 where
  pub first : Ptr
  pub last : Ptr
  pub size : ℤ

-- The links of all items, and the head of the list at hand.
pub record Lists : Type 0 where
  pub next : Ptr → Ptr
  pub prev : Ptr → Ptr
  pub head : ListHead

-- `List_init`
abbrev pub list_init : Lists → Lists
list_init s = record s { head = record { first = null; last = null; size = pos 0 } }

-- The body of `List_insert` behind its test: `item` comes between `prev` and `next`.
unfoldable pub link : Lists → (prev next item : Ptr) → Lists
unfolding ◌+ℤ◌
link s prev next item =
    let p = if prev == null then s.prev else update s.prev item prev in
    let n = if prev == null then s.next else update s.next prev item in
    record {
      next = if next == null then n else update n item next;
      prev = if next == null then p else update p next item;
      head = record {
        first = if prev == null then item else s.head.first;
        last = if next == null then item else s.head.last;
        size = s.head.size +ℤ pos 1;
      };
    }

-- `List_insert`: the item, or null where it is linked already.
unfoldable pub list_insert : Lists → (prev item : Ptr) → Ptr × Lists
unfolding link
list_insert s prev item =
    let next = if prev == null then s.head.first else s.next prev in
    if not (s.next item == null) || not (s.prev item == null)
    then (null, s)
    else (item, link s prev next item)

-- `List_detach`, of an item that is not null.
unfoldable pub list_detach : Lists → (item : Ptr) → Lists
unfolding ◌+ℤ◌
list_detach s item =
    let prev = s.prev item in
    let next = s.next item in
    let n = if prev == null then s.next else update s.next prev next in
    let p = if next == null then s.prev else update s.prev next prev in
    record {
      next = update n item null;
      prev = update p item null;
      head = record {
        first = if item == s.head.first then next else s.head.first;
        last = if item == s.head.last then prev else s.head.last;
        size = s.head.size +ℤ negsuc 0;
      };
    }

-- `List_popFront`: the first item, or null.
unfoldable pub list_pop_front : Lists → Ptr × Lists
unfolding list_detach
list_pop_front s =
    if s.head.first == null then (null, s) else (s.head.first, list_detach s s.head.first)

-- `List_pushBack` and `List_pushFront`
abbrev pub list_push_back : Lists → Ptr → Lists
list_push_back s item = (list_insert s s.head.last item).1

abbrev pub list_push_front : Lists → Ptr → Lists
list_push_front s item = (list_insert s null item).1
