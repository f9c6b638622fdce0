-- ===== src/Resource/Linked.antt =====
-- The invariant of the kernel's processes, descriptors and resources.
use disastr_os_message_queue.Base.{
  ◌≡◌, ◌⊎◌, refl, sym, ◌∙◌, ap, subst, true, false, List, [], arith, ◌==◌, inl, inr, Bool-cases,
  eq_of_==, has, IsDistinct, ℤ, fun_ext,
}
use disastr_os_message_queue.PoolAllocator.{Ptr, null, PoolAllocator}
use disastr_os_message_queue.PoolAllocator.Lent.{IsBlock, IsLent}
use disastr_os_message_queue.PoolAllocator.Far.{IsFar, block-not-IsFar}
use disastr_os_message_queue.Kernel.{
  Run, ok, Kernel, Pcb, Resource, Descriptor, update, set_retvalue,
}
use disastr_os_message_queue.Kernel.Invariant.{HasPool}
use disastr_os_message_queue.Kernel.Links.{Links, links_of, Keeps}
use disastr_os_message_queue.Resource.Invariant.{IsOpened}

abbrev pub held_by : (Ptr → Pcb) → Ptr → List Ptr
held_by pcbs p = (pcbs p).descriptors

abbrev pub entries_of : (Ptr → Resource) → Ptr → List Ptr
entries_of resources r = (resources r).descriptors_ptrs

abbrev pub count_of : (Ptr → Resource) → Ptr → ℤ
count_of resources r = (resources r).ref_count

-- A block of the allocator is lent, or belongs to no resource that is open or linked.
abbrev pub IsIdle : (entries : Ptr → List Ptr) → (linked : List Ptr) → Ptr → Type 0
IsIdle entries linked r = (entries r ≡ []) × (has r linked ≡ false)

abbrev pub Covers : PoolAllocator → (Ptr → List Ptr) → List Ptr → Type 0
Covers a entries linked = (r : Ptr) → IsBlock a r → IsLent a r ⊎ IsIdle entries linked r

-- `rp` is the allocator of resources and `qp` that of message queues, whose blocks the former takes
-- for none of its own.
pub record IsListed (rp qp : PoolAllocator) (entries : Ptr → List Ptr) (linked : List Ptr)
    : Type 0 where
  pub resource_pool : HasPool rp
  pub queue_pool : HasPool qp
  pub far : (r : Ptr) → IsBlock qp r → IsFar rp r
  pub from : (r : Ptr) → has r linked ≡ true → IsBlock rp r ⊎ IsBlock qp r
  pub resources : Covers rp entries linked
  pub queues : Covers qp entries linked
  pub once : IsDistinct linked

-- No block is both a resource's and a queue's.
pub IsListed-apart :
    {rp qp : PoolAllocator} {entries : Ptr → List Ptr} {linked : List Ptr}
    → IsListed rp qp entries linked
    → (r : Ptr) → IsBlock rp r
    → ¬ IsBlock qp r
IsListed-apart {rp} v r is is_queue =
    block-not-IsFar rp v.resource_pool.0 r v.resource_pool.1 is (v.far r is_queue)

abbrev pub IsOpen : Kernel → Type 0
IsOpen k =
    IsOpened k.descriptor_pool k.descriptor_ptr_pool k.descriptors k.descriptor_ptrs
      (held_by k.pcbs) (entries_of k.resources) (count_of k.resources)

pub record IsWired (l : Links) : Type 0 where
  pub opened :
      IsOpened l.descriptor_pool l.descriptor_ptr_pool l.descriptors l.descriptor_ptrs l.held
        (entries_of l.resources)
        (count_of l.resources)
  pub listed : IsListed l.resource_pool l.queue_pool (entries_of l.resources) l.resources_list

abbrev pub IsLinked : Kernel → Type 0
IsLinked k = IsWired (links_of k)

-- A run that leaves this part alone keeps the invariant.
pub Keeps-IsLinked :
    (k : Kernel) {r : Run Kernel}
    → Keeps (links_of k) r
    → IsLinked k
    → (k' : Kernel) → r ≡ ok k'
    → IsLinked k'
Keeps-IsLinked k h v k' e = subst IsWired (sym (h k' e)) v

-- Blocks are not null.
pub lent_given : (a : PoolAllocator) (p : Ptr) → HasPool a → IsLent a p → (p == null) ≡ false
lent_given a p (free, h) (i, below, at, e) = ground (arith, h.buffer_pos)

-- Tables that are equal at every place.
pub IsOpened-same :
    {dp ep : PoolAllocator} {ds : Ptr → Descriptor} {dps : Ptr → Ptr}
    {held held' entries entries' : Ptr → List Ptr} {count count' : Ptr → ℤ}
    → ((p : Ptr) → held' p ≡ held p)
    → ((r : Ptr) → entries' r ≡ entries r)
    → ((r : Ptr) → count' r ≡ count r)
    → IsOpened dp ep ds dps held entries count
    → IsOpened dp ep ds dps held' entries' count'
IsOpened-same {dp} {ep} {ds} {dps} {held} {held'} {entries} {entries'} {count} {count'} h e c v =
    subst (λ (x : Ptr → List Ptr). IsOpened dp ep ds dps x entries' count') (sym (fun_ext h))
      (subst (λ (y : Ptr → List Ptr). IsOpened dp ep ds dps held y count') (sym (fun_ext e))
        (subst (λ (z : Ptr → ℤ). IsOpened dp ep ds dps held entries z) (sym (fun_ext c)) v))

-- Fewer entries and fewer linked resources leave the idle blocks idle.
pub Covers-fewer :
    (a : PoolAllocator) (entries entries' : Ptr → List Ptr) (linked linked' : List Ptr)
    → ((r : Ptr) → entries r ≡ [] → entries' r ≡ [])
    → ((r : Ptr) → has r linked ≡ false → has r linked' ≡ false)
    → Covers a entries linked
    → Covers a entries' linked'
Covers-fewer a _ _ _ _ e l c r b = elim (c r b) [
  | inl lent ↦ inl lent
  | inr (empty, out) ↦ inr (e r empty, l r out)
]

-- The lists and counts after one object has changed.
module _ (p : Ptr) (q : Ptr) where
  pub held-update :
      (pcbs : Ptr → Pcb) (pcb : Pcb)
      → held_by (update pcbs p pcb) q ≡ update (held_by pcbs) p pcb.descriptors q
  held-update pcbs pcb = elim (Bool-cases (q == p)) [
    | inl same ↦ rw (same, held_by)
    | inr other ↦ rw (other, held_by)
  ]

  pub entries-update :
      (resources : Ptr → Resource) (res : Resource)
      → entries_of (update resources p res) q
        ≡ update (entries_of resources) p res.descriptors_ptrs q
  entries-update resources res = elim (Bool-cases (q == p)) [
    | inl same ↦ rw (same, entries_of)
    | inr other ↦ rw (other, entries_of)
  ]

  pub count-update :
      (resources : Ptr → Resource) (res : Resource)
      → count_of (update resources p res) q ≡ update (count_of resources) p res.ref_count q
  count-update resources res = elim (Bool-cases (q == p)) [
    | inl same ↦ rw (same, count_of)
    | inr other ↦ rw (other, count_of)
  ]

-- A change of a process that leaves its descriptors alone.
pub held-update_same :
    (pcbs : Ptr → Pcb) (p : Ptr) (pcb : Pcb)
    → pcb.descriptors ≡ (pcbs p).descriptors
    → (q : Ptr) → held_by (update pcbs p pcb) q ≡ held_by pcbs q
held-update_same pcbs p pcb e q = elim (Bool-cases (q == p)) [
  | inl same ↦ rw (same, held_by) (e ∙ ap (held_by pcbs) (sym (eq_of_== q p same)))
  | inr other ↦ rw (other, held_by)
]

-- The result of a call is no part of the links.
pub retvalue-IsLinked :
    (k : Kernel) (p : Ptr) (result : ℤ) → IsLinked k → IsLinked (set_retvalue k p result)
retvalue-IsLinked k p result v = record {
  opened = IsOpened-same (held-update_same k.pcbs p _ refl) (λ r. refl) (λ r. refl) v.opened;
  listed = v.listed;
}
