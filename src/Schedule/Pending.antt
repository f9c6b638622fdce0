-- ===== src/Schedule/Pending.antt =====
-- The timers that are not due: what the scheduler leaves of its list.
use disastr_os_message_queue.Base.{
  ◌≡◌, true, false, List, [], ◌∷◌, arith, ℤ, leb_ℤ, ◌≤ℤ◌, ◌==◌, eq_of_==, Bool-cases, inl, inr, has,
  has-cons, if◌then◌else◌,
}
use disastr_os_message_queue.PoolAllocator.{Ptr, null}
use disastr_os_message_queue.Kernel.{TimerItem}
use disastr_os_message_queue.Timer.Sorted.{IsSorted, IsSortedFrom}

-- The items that are not due at this time.
abbrev pub pending : (Ptr → TimerItem) → ℤ → List Ptr → List Ptr
pending timers time [] = []
pending timers time (t ∷ ts) =
    if leb_ℤ (timers t).awakening_time time
    then pending timers time ts
    else t ∷ pending timers time ts

pub has-pending :
    (timers : Ptr → TimerItem) (time : ℤ) (x : Ptr) (ts : List Ptr)
    → has x (pending timers time ts) ≡ true
    → (has x ts ≡ true) × (leb_ℤ (timers x).awakening_time time ≡ false)
has-pending timers time x [] on = absurd (ground arith)
has-pending timers time x (t ∷ ts) on = elim (Bool-cases (leb_ℤ (timers t).awakening_time time)) [
  | inl due ↦
      let (there, late) = has-pending timers time x ts (ground arith) in
      (has-cons x t ts there, late)
  | inr early ↦ elim (Bool-cases (x == t)) [
    | inl same ↦ (ground arith, ground (arith, eq_of_== x t))
    | inr other ↦
        let (there, late) = has-pending timers time x ts (ground arith) in
        (has-cons x t ts there, late)
  ]
]

pub has-pending_late :
    (timers : Ptr → TimerItem) (time : ℤ) (x : Ptr) (ts : List Ptr)
    → has x ts ≡ true
    → leb_ℤ (timers x).awakening_time time ≡ false
    → has x (pending timers time ts) ≡ true
has-pending_late timers time x [] on late = absurd (ground arith)
has-pending_late timers time x (t ∷ ts) on late =
    ground (arith, has-pending_late timers time x ts, eq_of_== x t)

pub pending-no_null :
    (timers : Ptr → TimerItem) (time : ℤ) (ts : List Ptr)
    → has null ts ≡ false
    → has null (pending timers time ts) ≡ false
pending-no_null timers time ts h = elim (Bool-cases (has null (pending timers time ts))) [
  | inl on ↦ absurd (ground (arith, (has-pending timers time null ts on).0))
  | inr off ↦ off
]

IsSortedFrom-earlier :
    (timers : Ptr → TimerItem) (a b : ℤ) (ts : List Ptr)
    → a ≤ℤ b
    → IsSortedFrom timers b ts
    → IsSortedFrom timers a ts
IsSortedFrom-earlier timers a b [] h s = s
IsSortedFrom-earlier timers a b (t ∷ ts) h s = (ground arith, s.1)

pending-IsSortedFrom :
    (timers : Ptr → TimerItem) (time bound : ℤ) (ts : List Ptr)
    → IsSortedFrom timers bound ts
    → IsSortedFrom timers bound (pending timers time ts)
pending-IsSortedFrom timers time bound [] s = s
pending-IsSortedFrom timers time bound (t ∷ ts) s =
    let rest = pending-IsSortedFrom timers time (timers t).awakening_time ts s.1 in
    elim (Bool-cases (leb_ℤ (timers t).awakening_time time)) [
      | inl due ↦ rw due (IsSortedFrom-earlier timers bound (timers t).awakening_time _ s.0 rest)
      | inr early ↦ rw early (s.0, rest)
    ]

IsSorted-From :
    (timers : Ptr → TimerItem) (bound : ℤ) (ts : List Ptr)
    → IsSortedFrom timers bound ts
    → IsSorted timers ts
IsSorted-From timers bound [] s = s
IsSorted-From timers bound (t ∷ ts) s = s.1

pub pending-IsSorted :
    (timers : Ptr → TimerItem) (time : ℤ) (ts : List Ptr)
    → IsSorted timers ts
    → IsSorted timers (pending timers time ts)
pending-IsSorted timers time [] s = s
pending-IsSorted timers time (t ∷ ts) s =
    let rest = pending-IsSortedFrom timers time (timers t).awakening_time ts s in
    elim (Bool-cases (leb_ℤ (timers t).awakening_time time)) [
      | inl due ↦ rw due (IsSorted-From timers (timers t).awakening_time _ rest)
      | inr early ↦ rw early rest
    ]
