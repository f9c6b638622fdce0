-- ===== src/Tests/Links.antt =====
-- A linked list tried.
use disastr_os_message_queue.Base.{◌≡◌, refl, [], ◌∷◌, pos, ◌==◌, if◌then◌else◌}
use disastr_os_message_queue.PoolAllocator.{null}
use disastr_os_message_queue.LinkedList.{Lists, list_detach, list_insert}
use disastr_os_message_queue.LinkedList.Shape.{Holds}
use disastr_os_message_queue.LinkedList.Insert.{list_insert-Holds}
use disastr_os_message_queue.LinkedList.Detach.{list_detach-Holds}

-- 10 and 20 are linked, and 30 is loose.
abbrev two : Lists
two = record {
  next = λ p. if p == 10 then 20 else null;
  prev = λ p. if p == 20 then 10 else null;
  head = record { first = 10; last = 20; size = pos 2 };
}

two-Holds : Holds two (10 ∷ 20 ∷ [])
two-Holds = record {
  chain = (refl, refl, refl, refl, (refl, refl, refl, refl, _));
  first = refl;
  last = refl;
  size = refl;
}

abbrev three : Lists
three = (list_insert two 20 30).1

three-Holds : Holds three (10 ∷ 20 ∷ 30 ∷ [])
three-Holds = (list_insert-Holds two (10 ∷ 20 ∷ []) 30 two-Holds refl refl refl refl).1

list_insert-Holds_example :
    ((list_insert two 20 30).0 ≡ 30) × Holds (list_insert two 20 30).1 (10 ∷ 20 ∷ 30 ∷ [])
list_insert-Holds_example = list_insert-Holds two (10 ∷ 20 ∷ []) 30 two-Holds refl refl refl refl

list_detach-Holds_example :
    Holds (list_detach three 20) (10 ∷ 30 ∷ [])
    × ((list_detach three 20).next 20 ≡ null)
    × ((list_detach three 20).prev 20 ≡ null)
list_detach-Holds_example = list_detach-Holds three (10 ∷ []) 20 (30 ∷ []) three-Holds
