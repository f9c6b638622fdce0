-- ===== src/Kernel/Tables.antt =====
-- Tables of lists: an item linked at the end of one list, or taken out of it.
use disastr_os_message_queue.Base.{
  ◌≡◌, ◌⊎◌, true, false, List, [], ◌∷◌, arith, ◌==◌, ==_refl, eq_of_==, Bool-cases, inl, inr, has,
  has-append, has-detach, has-detach_ne, detach, detach-gone, IsDistinct, detach-IsDistinct,
  append-IsDistinct,
}
use disastr_os_message_queue.PoolAllocator.{Ptr}
use disastr_os_message_queue.Kernel.{update, push_back}

module _ (f : Ptr → List Ptr) (p x : Ptr) where
  abbrev pub linked : Ptr → List Ptr
  linked = update f p (push_back (f p) x)

  abbrev pub unlinked : Ptr → List Ptr
  unlinked = update f p (detach x (f p))

  pub linked-keeps : (q y : Ptr) → has y (f q) ≡ true → has y (linked q) ≡ true
  linked-keeps q y h = elim (Bool-cases (q == p)) [
    | inl same ↦ rw same (ground (arith, has-append y (f p) (x ∷ []), eq_of_== q p same))
    | inr other ↦ rw other h
  ]

  pub linked-has : has x (linked p) ≡ true
  linked-has = rw (==_refl p) (ground (arith, has-append x (f p) (x ∷ []), ==_refl x))

  pub linked-cases :
      (q y : Ptr) → has y (linked q) ≡ true → ((y ≡ x) × (q ≡ p)) ⊎ (has y (f q) ≡ true)
  linked-cases q y h = elim (Bool-cases (q == p)) [
    | inl same ↦ elim (Bool-cases (y == x)) [
      | inl is ↦ inl (eq_of_== y x is, eq_of_== q p same)
      | inr ne ↦ inr (ground (arith, has-append y (f p) (x ∷ []), eq_of_== q p same))
    ]
    | inr other ↦ inr (ground arith)
  ]

  pub linked-IsDistinct :
      ((q : Ptr) → IsDistinct (f q)) → has x (f p) ≡ false → (q : Ptr) → IsDistinct (linked q)
  linked-IsDistinct d out q = elim (Bool-cases (q == p)) [
    | inl same ↦ rw same (append-IsDistinct x (f p) (d p) out)
    | inr other ↦ rw other (d q)
  ]

  pub unlinked-has : (q y : Ptr) → has y (unlinked q) ≡ true → has y (f q) ≡ true
  unlinked-has q y h = elim (Bool-cases (q == p)) [
    | inl same ↦ ground (arith, has-detach y x (f p), eq_of_== q p same)
    | inr other ↦ ground arith
  ]

  pub unlinked-gone : ((q : Ptr) → IsDistinct (f q)) → has x (unlinked p) ≡ false
  unlinked-gone d = rw (==_refl p) (detach-gone x (f p) (d p))

  pub unlinked-keeps :
      (q y : Ptr) → (y == x) ≡ false → has y (f q) ≡ true → has y (unlinked q) ≡ true
  unlinked-keeps q y ne h = elim (Bool-cases (q == p)) [
    | inl same ↦ rw same (ground (arith, has-detach_ne y x (f p), eq_of_== q p same))
    | inr other ↦ rw other h
  ]

  pub unlinked-IsDistinct : ((q : Ptr) → IsDistinct (f q)) → (q : Ptr) → IsDistinct (unlinked q)
  unlinked-IsDistinct d q = elim (Bool-cases (q == p)) [
    | inl same ↦ rw same (detach-IsDistinct x (f p) (d p))
    | inr other ↦ rw other (d q)
  ]
