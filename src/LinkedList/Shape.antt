-- ===== src/LinkedList/Shape.antt =====
-- Which sequence of items a linked list holds.
use disastr_os_message_queue.Base.{
  has_ne, ◌≡◌, refl, sym, ◌∙◌, true, false, List, [], ◌∷◌, ◌++◌, arith, pos, ◌==◌, ==_refl,
  eq_of_==, has, has-append, length,
}
use disastr_os_message_queue.PoolAllocator.{Ptr, null}
use disastr_os_message_queue.LinkedList.{Lists}

abbrev pub first_of : List Ptr → (end : Ptr) → Ptr
first_of [] end = end
first_of (x ∷ xs) end = x

abbrev pub last_of : (before : Ptr) → List Ptr → Ptr
last_of before [] = before
last_of before (x ∷ xs) = last_of x xs

-- The items `xs` are linked to each other in this order, between `before` and `end`.
abbrev pub IsChain : (next prev : Ptr → Ptr) → (before : Ptr) → List Ptr → (end : Ptr) → Type 0
IsChain next prev before [] end = Unit {0}
IsChain next prev before (x ∷ xs) end =
    ((x == null) ≡ false)
    × (prev x ≡ before)
    × (next x ≡ first_of xs end)
    × (has x xs ≡ false)
    × IsChain next prev x xs end

-- The list holds exactly `xs`.
pub record Holds (s : Lists) (xs : List Ptr) : Type 0 where
  pub chain : IsChain s.next s.prev null xs null
  pub first : s.head.first ≡ first_of xs null
  pub last : s.head.last ≡ last_of null xs
  pub size : s.head.size ≡ pos (length xs)

pub has-last_of : (x : Ptr) (xs : List Ptr) → has (last_of x xs) (x ∷ xs) ≡ true
has-last_of x [] = ground arith
has-last_of x (y ∷ ys) = ground (arith, has-last_of y ys)

-- The last item of a chain gets another end.
pub relink_end :
    (next prev : Ptr → Ptr) (before end item : Ptr) (x : Ptr) (xs : List Ptr)
    → IsChain next prev before (x ∷ xs) end
    → (n p : Ptr → Ptr) → ((q : Ptr) → has q (x ∷ xs) ≡ true → p q ≡ prev q)
    → ((q : Ptr) → (q == last_of x xs) ≡ false → has q (x ∷ xs) ≡ true → n q ≡ next q)
    → n (last_of x xs) ≡ item
    → IsChain n p before (x ∷ xs) item
relink_end next prev before end item x [] c n p ps ns e =
    (c.0, ps x (rw (==_refl x)) ∙ c.1, e, c.3, _)
relink_end next prev before end item x (y ∷ ys) c n p ps ns e =
    let later : (x == last_of y ys) ≡ false =
      has_ne x (last_of y ys) (y ∷ ys) c.3 (has-last_of y ys) in
    (
      c.0,
      ps x (rw (==_refl x)) ∙ c.1,
      ns x later (rw (==_refl x)) ∙ c.2,
      c.3,
      relink_end next prev x end item y ys c.4 n p (λ q h. ps q (ground (arith, h)))
          (λ q ne h. ns q ne (ground (arith, h))) e,
    )

-- Links that agree on a chain make it a chain.
pub IsChain-frame :
    (next prev n p : Ptr → Ptr) (before end : Ptr) (xs : List Ptr)
    → IsChain next prev before xs end
    → ((q : Ptr) → has q xs ≡ true → n q ≡ next q)
    → ((q : Ptr) → has q xs ≡ true → p q ≡ prev q)
    → IsChain n p before xs end
IsChain-frame next prev n p before end [] c ns ps = _
IsChain-frame next prev n p before end (x ∷ xs) c ns ps = (
  c.0,
  ps x (rw (==_refl x)) ∙ c.1,
  ns x (rw (==_refl x)) ∙ c.2,
  c.3,
  IsChain-frame next prev n p x end xs c.4 (λ q h. ns q (ground (arith, h)))
      (λ q h. ps q (ground (arith, h))),
)

first_of-append : (xs : List Ptr) (y end : Ptr) → first_of (xs ++ y ∷ []) end ≡ first_of xs y
first_of-append [] y end = refl
first_of-append (x ∷ xs) y end = refl

pub last_of-append : (before : Ptr) (xs : List Ptr) (y : Ptr) → last_of before (xs ++ y ∷ []) ≡ y
last_of-append before [] y = refl
last_of-append before (x ∷ xs) y = last_of-append x xs y

-- A chain that ends at an item goes on with it.
pub IsChain-append :
    (next prev : Ptr → Ptr) (before : Ptr) (xs : List Ptr) (item end : Ptr)
    → IsChain next prev before xs item
    → has item xs ≡ false
    → (item == null) ≡ false
    → prev item ≡ last_of before xs
    → next item ≡ end
    → IsChain next prev before (xs ++ item ∷ []) end
IsChain-append next prev before [] item end c out exists back forth = (exists, back, forth, refl, _)
IsChain-append next prev before (x ∷ xs) item end c out exists back forth = (
  c.0,
  c.1,
  c.2 ∙ sym (first_of-append xs item end),
  ground (arith, has-append x xs (item ∷ []), c.3, eq_of_== x item, ==_refl item),
  IsChain-append next prev x xs item end c.4 (ground (arith, out)) exists back forth,
)

pub IsChain-last :
    (next prev : Ptr → Ptr) (before end x : Ptr) (xs : List Ptr)
    → IsChain next prev before (x ∷ xs) end
    → (next (last_of x xs) ≡ end) × ((last_of x xs == null) ≡ false)
IsChain-last next prev before end x [] c = (c.2, c.0)
IsChain-last next prev before end x (y ∷ ys) c = IsChain-last next prev x end y ys c.4
