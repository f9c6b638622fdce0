-- ===== src/LinkedList/Detach.antt =====
-- List_detach at any place of a list.
use disastr_os_message_queue.Base.{
  ◌≡◌, refl, ap, sym, ◌∙◌, subst, true, false, List, [], ◌∷◌, ◌++◌, arith, ℤ, pos, negsuc, ◌+ℤ◌,
  ◌==◌, ==_refl, Bool-cases, inl, inr, has, length, length-append, if◌then◌else◌, has_ne,
  has_ne_sym,
}
use disastr_os_message_queue.PoolAllocator.{Ptr, null}
use disastr_os_message_queue.Kernel.{update}
use disastr_os_message_queue.LinkedList.{Lists, list_detach}
use disastr_os_message_queue.LinkedList.Shape.{
  Holds, IsChain, IsChain-frame, IsChain-last, relink_end, first_of, last_of, has-last_of,
}
use disastr_os_message_queue.LinkedList.Parts.{
  IsChain-front, IsChain-back, IsChain-join, IsChain-apart, IsChain-not_null, last_of-join,
}

-- The links once `item`, between `before` and `after`, is taken out.
abbrev next_without : (next : Ptr → Ptr) → (before after item : Ptr) → Ptr → Ptr
next_without next before after item =
    update (if before == null then next else update next before after) item null

next_without_other :
    (next : Ptr → Ptr) (before after item q : Ptr)
    → (q == item) ≡ false
    → (q == before) ≡ false
    → next_without next before after item q ≡ next q
next_without_other next before after item q off other = elim (Bool-cases (before == null)) [
  | inl none ↦ rw (off, none)
  | inr some_before ↦ rw (off, some_before, other)
]

next_without-null :
    (next : Ptr → Ptr) (after item q : Ptr)
    → (q == item) ≡ false
    → next_without next null after item q ≡ next q
next_without-null next after item q off = rw off

next_without_at :
    (next : Ptr → Ptr) (before after item : Ptr)
    → (before == item) ≡ false
    → (before == null) ≡ false
    → next_without next before after item before ≡ after
next_without_at next before after item off real = rw (off, real, ==_refl before)

-- The part in front of the item.
front-without :
    (next prev : Ptr → Ptr) (item : Ptr) (xs ys : List Ptr)
    → IsChain next prev null (xs ++ item ∷ ys) null
    → IsChain
        (next_without next (last_of null xs) (first_of ys null) item)
        (next_without prev (first_of ys null) (last_of null xs) item)
        null
        xs
        (first_of ys null)
front-without next prev item [] ys c = _
front-without next prev item (x ∷ xs) ys c =
    let front = IsChain-front next prev null null (x ∷ xs) (item ∷ ys) c in
    let (ends, real) = IsChain-last next prev null item x xs front in
    let out : (q : Ptr) → has q (x ∷ xs) ≡ true → has q (item ∷ ys) ≡ false =
      λ q h. IsChain-apart next prev null null (x ∷ xs) (item ∷ ys) q c h in
    relink_end next prev null item (first_of ys null) x xs front _ _ (λ q h. kept q ys (out q h))
      (λ q ne h.
        next_without_other next (last_of x xs) (first_of ys null) item q (off q ys (out q h)) ne)
      (next_without_at next (last_of x xs) (first_of ys null) item
        (off (last_of x xs) ys (out (last_of x xs) (has-last_of x xs))) real)
  where
    off : (q : Ptr) (ys : List Ptr) → has q (item ∷ ys) ≡ false → (q == item) ≡ false
    off q ys h = ground (arith, h)

    kept :
        (q : Ptr) (ys : List Ptr)
        → has q (item ∷ ys) ≡ false
        → next_without prev (first_of ys null) (last_of null (x ∷ xs)) item q ≡ prev q
    kept q [] h = next_without-null prev (last_of x xs) item q (off q [] h)
    kept q (y ∷ ys) h =
        next_without_other prev y (last_of x xs) item q (off q (y ∷ ys) h) (ground (arith, h))

-- The part behind it.
back-without :
    (next prev : Ptr → Ptr) (before item : Ptr) (ys : List Ptr)
    → IsChain next prev before (item ∷ ys) null
    → ((q : Ptr) → has q ys ≡ true → (q == before) ≡ false)
    → IsChain
        (next_without next before (first_of ys null) item)
        (next_without prev (first_of ys null) before item)
        before
        ys
        null
back-without next prev before item [] c others = _
back-without next prev before item (y ∷ ys) c others =
    let tail = c.4 in
    let item_off : (y == item) ≡ false = has_ne_sym item y (y ∷ ys) c.3 (rw (==_refl y)) in
    (
      tail.0,
      next_without_at prev y before item item_off tail.0,
      next_without_other next before y item y item_off (others y (rw (==_refl y))) ∙ tail.2,
      tail.3,
      IsChain-frame next prev _ _ y null ys tail.4
          (λ q h. next_without_other next before y item q (off q h) (others q (ground (arith, h))))
          (λ q h. next_without_other prev y before item q (off q h) (has_ne_sym y q ys tail.3 h)),
    )
  where
    off : (q : Ptr) → has q ys ≡ true → (q == item) ≡ false
    off q h = has_ne_sym item q (y ∷ ys) c.3 (ground (arith, h))

without-IsChain :
    (next prev : Ptr → Ptr) (item : Ptr) (xs ys : List Ptr)
    → IsChain next prev null (xs ++ item ∷ ys) null
    → IsChain
        (next_without next (last_of null xs) (first_of ys null) item)
        (next_without prev (first_of ys null) (last_of null xs) item)
        null
        (xs ++ ys)
        null
without-IsChain next prev item xs ys c =
    let back = IsChain-back next prev null null xs (item ∷ ys) c in
    IsChain-join _ _ null null xs ys (front-without next prev item xs ys c)
      (back-without next prev (last_of null xs) item ys back (others xs c))
      (λ q h.
        let out = IsChain-apart next prev null null xs (item ∷ ys) q c h in ground (arith, out))
  where
    others :
        (xs : List Ptr)
        → IsChain next prev null (xs ++ item ∷ ys) null
        → (q : Ptr) → has q ys ≡ true
        → (q == last_of null xs) ≡ false
    others [] c q h = IsChain-not_null next prev item null ys q c.4 h
    others (x ∷ xs) c q h =
        let out =
          IsChain-apart next prev null null (x ∷ xs) (item ∷ ys) (last_of x xs) c
            (has-last_of x xs) in
        has_ne_sym (last_of x xs) q ys (ground (arith, out)) h

new_first :
    (next prev : Ptr → Ptr) (item : Ptr) (xs ys : List Ptr)
    → IsChain next prev null (xs ++ item ∷ ys) null
    → (if item == first_of (xs ++ item ∷ ys) null
        then first_of ys null
        else first_of (xs ++ item ∷ ys) null)
      ≡ first_of (xs ++ ys) null
new_first next prev item [] ys c = rw (==_refl item)
new_first next prev item (x ∷ xs) ys c =
    let out = IsChain-apart next prev null null (x ∷ xs) (item ∷ ys) x c (rw (==_refl x)) in
    let other : (item == x) ≡ false = has_ne_sym x item (item ∷ ys) out (rw (==_refl item)) in
    rw other

new_last :
    (next prev : Ptr → Ptr) (item : Ptr) (xs ys : List Ptr)
    → IsChain next prev (last_of null xs) (item ∷ ys) null
    → (if item == last_of item ys then last_of null xs else last_of item ys)
      ≡ last_of null (xs ++ ys)
new_last next prev item xs [] c = rw (==_refl item) (sym (ap (last_of null) (append_nil xs)))
  where
    append_nil : (xs : List Ptr) → xs ++ [] ≡ xs
    append_nil [] = refl
    append_nil (x ∷ xs) = ap (λ (t : List Ptr). x ∷ t) (append_nil xs)
new_last next prev item xs (y ∷ ys) c =
    let other : (item == last_of y ys) ≡ false =
      has_ne item (last_of y ys) (y ∷ ys) c.3 (has-last_of y ys) in
    rw other (sym (last_of-join null xs y ys))

-- `list_detach` with the neighbours of the item at hand.
abbrev detach_between : Lists → (prev next item : Ptr) → Lists
detach_between s prev next item = record {
  next = next_without s.next prev next item;
  prev = next_without s.prev next prev item;
  head = record {
    first = if item == s.head.first then next else s.head.first;
    last = if item == s.head.last then prev else s.head.last;
    size = s.head.size +ℤ negsuc 0;
  };
}

list_detach-between :
    (s : Lists) (item : Ptr)
    → list_detach s item ≡ detach_between s (s.prev item) (s.next item) item
unfolding list_detach
list_detach-between s item = refl

detach_between-Holds :
    (s : Lists) (xs : List Ptr) (item : Ptr) (ys : List Ptr)
    → Holds s (xs ++ item ∷ ys)
    → Holds (detach_between s (last_of null xs) (first_of ys null) item) (xs ++ ys)
unfolding ◌+ℤ◌
detach_between-Holds s xs item ys h =
    let back = IsChain-back s.next s.prev null null xs (item ∷ ys) h.chain in
    record {
      chain = without-IsChain s.next s.prev item xs ys h.chain;
      first =
          ap (λ (p : Ptr). if item == p then first_of ys null else p) h.first
          ∙ new_first s.next s.prev item xs ys h.chain;
      last =
          ap (λ (p : Ptr). if item == p then last_of null xs else p)
            (h.last ∙ last_of-join null xs item ys)
          ∙ new_last s.next s.prev item xs ys back;
      size = ap (λ (n : ℤ). n +ℤ negsuc 0) h.size ∙ one_less xs;
    }
  where
    one_less :
        (xs : List Ptr) → pos (length (xs ++ item ∷ ys)) +ℤ negsuc 0 ≡ pos (length (xs ++ ys))
    one_less xs = ground (arith, length-append xs (item ∷ ys), length-append xs ys)

-- An item at any place of a list is taken out: the list holds the items in front of it and then
-- those behind it, and the links of the item are null, so that it can be inserted again.
pub list_detach-Holds :
    (s : Lists) (xs : List Ptr) (item : Ptr) (ys : List Ptr)
    → Holds s (xs ++ item ∷ ys)
    → Holds (list_detach s item) (xs ++ ys)
      × ((list_detach s item).next item ≡ null)
      × ((list_detach s item).prev item ≡ null)
list_detach-Holds s xs item ys h =
    let back = IsChain-back s.next s.prev null null xs (item ∷ ys) h.chain in
    let holds =
      subst (λ (p : Ptr). Holds (detach_between s p (s.next item) item) (xs ++ ys)) (sym back.1)
        (subst (λ (n : Ptr). Holds (detach_between s (last_of null xs) n item) (xs ++ ys))
          (sym back.2) (detach_between-Holds s xs item ys h)) in
    rw (list_detach-between s item) (holds, rw (==_refl item), rw (==_refl item))
