-- ===== src/LinkedList/Insert.antt =====
-- List_insert at the end of a list, and List_popFront.
use disastr_os_message_queue.Base.{
  has_ne, has_ne_sym, ◌≡◌, refl, sym, false, List, [], ◌∷◌, ◌++◌, arith, pos, ◌+ℤ◌, ◌==◌, ==_refl,
  has, length-append, if◌then◌else◌,
}
use disastr_os_message_queue.PoolAllocator.{Ptr, null}
use disastr_os_message_queue.Kernel.{update}
use disastr_os_message_queue.LinkedList.{Lists, link, list_insert}
use disastr_os_message_queue.LinkedList.Shape.{
  Holds, IsChain-append, IsChain-last, relink_end, last_of, last_of-append, has-last_of,
}

link-Holds :
    (s : Lists) (x : Ptr) (xs : List Ptr) (item : Ptr)
    → Holds s (x ∷ xs)
    → has item (x ∷ xs) ≡ false
    → (item == null) ≡ false
    → s.next item ≡ null
    → Holds (link s (last_of x xs) null item) (x ∷ xs ++ item ∷ [])
unfolding link ◌+ℤ◌
link-Holds s x xs item h out exists loose =
    let last = last_of x xs in
    let (ends, real) = IsChain-last s.next s.prev null null x xs h.chain in
    let apart : (item == last) ≡ false = has_ne item last (x ∷ xs) out (has-last_of x xs) in
    rw real (record {
      chain =
          IsChain-append (update s.next last item) (update s.prev item last) null (x ∷ xs) item null
            (relink_end s.next s.prev null null item x xs h.chain (update s.next last item)
              (update s.prev item last)
              (λ q on.
                let other : (q == item) ≡ false = has_ne_sym item q (x ∷ xs) out on in rw other)
              (λ q ne on. rw ne) (rw (==_refl last)))
            out exists (rw (==_refl item)) (rw apart loose);
      first = h.first;
      last = sym (last_of-append x xs item);
      size = ground (arith, h.size, length-append xs (item ∷ []));
    })

link-Holds_empty :
    (s : Lists) (item : Ptr)
    → (item == null) ≡ false
    → s.next item ≡ null
    → s.prev item ≡ null
    → s.head.size ≡ pos 0
    → Holds (link s null null item) (item ∷ [])
unfolding link ◌+ℤ◌
link-Holds_empty s item exists loose_next loose_prev empty = record {
  chain = (exists, loose_prev, loose_next, refl, _);
  first = refl;
  last = refl;
  size = ground (arith, empty);
}

-- An item that is in no list and not null is inserted.
list_insert-link :
    (s : Lists) (prev next item : Ptr)
    → s.next item ≡ null
    → s.prev item ≡ null
    → s.head.last ≡ prev
    → (if prev == null then s.head.first else s.next prev) ≡ next
    → list_insert s s.head.last item ≡ (item, link s prev next item)
unfolding list_insert
list_insert-link s prev next item loose_next loose_prev at behind =
    rw (at, behind, loose_next, loose_prev)

-- On a list that holds `xs`, the insertion of an item with null links that is not in it behind the last
-- item returns the item, and the list holds `xs` with the item at the end.
pub list_insert-Holds :
    (s : Lists) (xs : List Ptr) (item : Ptr)
    → Holds s xs
    → has item xs ≡ false
    → (item == null) ≡ false
    → s.next item ≡ null
    → s.prev item ≡ null
    → ((list_insert s s.head.last item).0 ≡ item)
      × Holds (list_insert s s.head.last item).1 (xs ++ item ∷ [])
list_insert-Holds s [] item h out exists loose_next loose_prev =
    let e = list_insert-link s null null item loose_next loose_prev h.last h.first in
    rw e (refl, link-Holds_empty s item exists loose_next loose_prev h.size)
list_insert-Holds s (x ∷ xs) item h out exists loose_next loose_prev =
    let (ends, real) = IsChain-last s.next s.prev null null x xs h.chain in
    let e =
      list_insert-link s (last_of x xs) null item loose_next loose_prev h.last (rw real ends) in
    rw e (refl, link-Holds s x xs item h out exists loose_next)
