-- ===== src/MessageQueue/Lookup.antt =====
-- ResourceList_byId when a resource is linked at the end.
use disastr_os_message_queue.Base.{
  ◌≡◌, refl, true, false, List, [], ◌∷◌, ◌++◌, arith, ℤ, ◌==ℤ◌, ◌==◌, has, Bool-cases, inl, inr,
  ==ℤ_refl, ==_refl,
}
use disastr_os_message_queue.PoolAllocator.{Ptr, null}
use disastr_os_message_queue.Kernel.{Resource, update}
use disastr_os_message_queue.MessageQueue.{resource_list_by_id}

module _ (resources : Ptr → Resource) where
  -- A resource that is not linked does not matter to the search.
  pub lookup_update :
      (r : Ptr) (res : Resource) (xs : List Ptr) (id : ℤ)
      → has r xs ≡ false
      → resource_list_by_id (update resources r res) xs id ≡ resource_list_by_id resources xs id
  unfolding resource_list_by_id
  lookup_update r res [] id out = refl
  lookup_update r res (x ∷ xs) id out =
      let other : (x == r) ≡ false = ground arith in
      rw (other, lookup_update r res xs id (ground arith))

  -- What is found in the list is found in the longer list too.
  pub lookup-append_found :
      (xs ys : List Ptr) (id : ℤ)
      → (resource_list_by_id resources xs id == null) ≡ false
      → resource_list_by_id resources (xs ++ ys) id ≡ resource_list_by_id resources xs id
  unfolding resource_list_by_id
  lookup-append_found [] ys id found = absurd (ground arith)
  lookup-append_found (x ∷ xs) ys id found = elim (Bool-cases ((resources x).id ==ℤ id)) [
    | inl here ↦ rw here
    | inr later ↦ rw later (lookup-append_found xs ys id (ground arith))
  ]

  -- What is not in the list is searched for in the rest.
  pub lookup-append_none :
      (xs ys : List Ptr) (id : ℤ)
      → resource_list_by_id resources xs id ≡ null
      → has null xs ≡ false
      → resource_list_by_id resources (xs ++ ys) id ≡ resource_list_by_id resources ys id
  unfolding resource_list_by_id
  lookup-append_none [] ys id none_yet no_null = refl
  lookup-append_none (x ∷ xs) ys id none_yet no_null = elim (Bool-cases ((resources x).id ==ℤ id)) [
    | inl here ↦ absurd (ground arith)
    | inr later ↦ rw later (lookup-append_none xs ys id (ground arith) (ground arith))
  ]

  pub lookup_single :
      (r : Ptr) (id : ℤ) → (resources r).id ≡ id → resource_list_by_id resources (r ∷ []) id ≡ r
  unfolding resource_list_by_id
  lookup_single r id e = rw (e, ==ℤ_refl id)

  -- What is found is linked.
  pub lookup-has :
      (xs : List Ptr) (id : ℤ)
      → (resource_list_by_id resources xs id == null) ≡ false
      → has (resource_list_by_id resources xs id) xs ≡ true
  unfolding resource_list_by_id
  lookup-has [] id found = ground arith
  lookup-has (x ∷ xs) id found = ground (arith, lookup-has xs id, ==_refl x)
