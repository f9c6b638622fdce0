-- ===== src/LinkedList/Parts.antt =====
-- The parts of a chain of items.
use disastr_os_message_queue.Base.{
  ◌≡◌, refl, ap, sym, ◌∙◌, true, false, List, [], ◌∷◌, ◌++◌, arith, ◌==◌, ==_refl, eq_of_==,
  Bool-cases, inl, inr, has, has-append,
}
use disastr_os_message_queue.PoolAllocator.{Ptr, null}
use disastr_os_message_queue.LinkedList.Shape.{IsChain, first_of, last_of}

-- The two parts of a chain.
pub IsChain-front :
    (next prev : Ptr → Ptr) (before end : Ptr) (xs ys : List Ptr)
    → IsChain next prev before (xs ++ ys) end
    → IsChain next prev before xs (first_of ys end)
IsChain-front next prev before end [] ys c = _
IsChain-front next prev before end (x ∷ xs) ys c = (
  c.0,
  c.1,
  c.2 ∙ first_of-append xs ys end,
  ground (arith, has-append x xs ys, c.3),
  IsChain-front next prev x end xs ys c.4,
)
  where
    first_of-append :
        (xs ys : List Ptr) (end : Ptr) → first_of (xs ++ ys) end ≡ first_of xs (first_of ys end)
    first_of-append [] ys end = refl
    first_of-append (x ∷ xs) ys end = refl

pub IsChain-back :
    (next prev : Ptr → Ptr) (before end : Ptr) (xs ys : List Ptr)
    → IsChain next prev before (xs ++ ys) end
    → IsChain next prev (last_of before xs) ys end
IsChain-back next prev before end [] ys c = c
IsChain-back next prev before end (x ∷ xs) ys c = IsChain-back next prev x end xs ys c.4

-- Two chains that fit and share no item make one.
pub IsChain-join :
    (next prev : Ptr → Ptr) (before end : Ptr) (xs ys : List Ptr)
    → IsChain next prev before xs (first_of ys end)
    → IsChain next prev (last_of before xs) ys end
    → ((q : Ptr) → has q xs ≡ true → has q ys ≡ false)
    → IsChain next prev before (xs ++ ys) end
IsChain-join next prev before end [] ys c d apart = d
IsChain-join next prev before end (x ∷ xs) ys c d apart = (
  c.0,
  c.1,
  c.2 ∙ sym (first_of-append xs ys end),
  ground (arith, has-append x xs ys, c.3, apart x (rw (==_refl x))),
  IsChain-join next prev x end xs ys c.4 d (λ q h. apart q (ground (arith, h))),
)
  where
    first_of-append :
        (xs ys : List Ptr) (end : Ptr) → first_of (xs ++ ys) end ≡ first_of xs (first_of ys end)
    first_of-append [] ys end = refl
    first_of-append (x ∷ xs) ys end = refl

-- No item of a chain stands in it twice.
pub IsChain-apart :
    (next prev : Ptr → Ptr) (before end : Ptr) (xs ys : List Ptr) (q : Ptr)
    → IsChain next prev before (xs ++ ys) end
    → has q xs ≡ true
    → has q ys ≡ false
IsChain-apart next prev before end [] ys q c h = absurd (ground arith)
IsChain-apart next prev before end (x ∷ xs) ys q c h = elim (Bool-cases (q == x)) [
  | inl same ↦ ground (arith, eq_of_== q x same, has-append x xs ys, c.3)
  | inr other ↦ IsChain-apart next prev x end xs ys q c.4 (ground (arith, h))
]

pub IsChain-not_null :
    (next prev : Ptr → Ptr) (before end : Ptr) (xs : List Ptr) (q : Ptr)
    → IsChain next prev before xs end
    → has q xs ≡ true
    → (q == null) ≡ false
IsChain-not_null next prev before end [] q c h = absurd (ground arith)
IsChain-not_null next prev before end (x ∷ xs) q c h = elim (Bool-cases (q == x)) [
  | inl same ↦ ap (λ p. p == null) (eq_of_== q x same) ∙ c.0
  | inr other ↦ IsChain-not_null next prev x end xs q c.4 (ground (arith, h))
]

pub last_of-join :
    (before : Ptr) (xs : List Ptr) (y : Ptr) (ys : List Ptr)
    → last_of before (xs ++ y ∷ ys) ≡ last_of y ys
last_of-join before [] y ys = refl
last_of-join before (x ∷ xs) y ys = last_of-join x xs y ys
