-- ===== src/Resource/Open/Total.antt =====
-- internal_openResource always returns, and keeps the kernel's invariants.
use disastr_os_message_queue.Base.{
  ◌≡◌, refl, true, false, not, ◌||◌, ◌&&◌, [], ◌∷◌, ◌++◌, arith, ◌==◌, ==_refl, Bool, inl, inr, has,
  has-append, Bool-cases, ℤ, pos, ◌==ℤ◌, has_flag, ltb_ℤ, wrap32, bits32,
}
use disastr_os_message_queue.Constants.{
  dsos_create, dsos_excl, dsos_eresourcecreate, dsos_eresourceopen, dsos_eresourcenoexcl,
}
use disastr_os_message_queue.PoolAllocator.{Ptr, null, PoolAllocator}
use disastr_os_message_queue.PoolAllocator.Lent.{Takes, get_block-Takes}
use disastr_os_message_queue.Kernel.{
  Kernel, Resource, update, set_retvalue, push_back, resource_message_queue,
}
use disastr_os_message_queue.Kernel.Returns.{Returns}
use disastr_os_message_queue.Kernel.Invariant.{IsKernel, with_plain}
use disastr_os_message_queue.MessageQueue.{resource_list_by_id}
use disastr_os_message_queue.MessageQueue.Lookup.{lookup-has}
use disastr_os_message_queue.Resource.{resource_alloc}
use disastr_os_message_queue.Resource.Created.{
  Takes-IsIdle, with_resource_taken, entries-update_empty, count-update_zero, IsOpen-zero,
  IsListed-same,
}
use disastr_os_message_queue.Resource.Linked.{
  IsLinked, entries_of, IsOpened-same, retvalue-IsLinked,
}
use disastr_os_message_queue.Resource.Open.{open_found, open_created, internal_open_resource}
use disastr_os_message_queue.Resource.Open.Linked.{open_descriptor_total}

abbrev pub IsBoth : Kernel → Type 0
IsBoth k = IsLinked k × IsKernel k

-- A refusal keeps the invariants.
pub refuse_total : (k : Kernel) (p : Ptr) (result : ℤ) → IsBoth k → IsBoth (set_retvalue k p result)
refuse_total k p result (v, w) = (retvalue-IsLinked k p result v, w)

open_found_total :
    (k : Kernel) (res : Ptr) (type mode : ℤ)
    → IsBoth k
    → ((res == null) ≡ false → has res k.resources_list ≡ true)
    → Returns IsBoth (open_found k res type mode)
unfolding open_found
open_found_total k res type mode (v, w) listed =
    elim (Bool-cases (res == null || not ((k.resources res).type ==ℤ type))) [
      | inl unfit ↦ (
        set_retvalue k k.running dsos_eresourceopen,
        rw unfit refl,
        refuse_total k k.running dsos_eresourceopen (v, w),
      )
      | inr fits ↦
          elim (Bool-cases
            (has_flag dsos_excl (bits32 mode) && ltb_ℤ (pos 0) (k.resources res).ref_count)) [
              | inl busy ↦ (
                set_retvalue k k.running dsos_eresourcenoexcl,
                rw (fits, busy) refl,
                refuse_total k k.running dsos_eresourcenoexcl (v, w),
              )
              | inr free ↦
                  let (k', ran, both) = open_descriptor_total k v res w (listed (ground arith)) in
                  (k', rw (fits, free) ran, both)
            ]
    ]

-- The kernel with a new resource at `r`, which nobody has open.
abbrev pub created : Kernel → (r : Ptr) → PoolAllocator → (id type : ℤ) → Kernel
created k r pool id type = record k {
  resource_pool = pool;
  resources_list = push_back k.resources_list r;
  resources =
      update k.resources r
        (record { id = id; type = type; ref_count = pos 0; descriptors_ptrs = [] });
}

module _ (k : Kernel) (v : IsLinked k) (r : Ptr) (pool : PoolAllocator)
    (t : Takes k.resource_pool r pool) (id type : ℤ) where
  pub created-IsLinked : IsLinked (created k r pool id type)
  created-IsLinked =
      let idle = Takes-IsIdle (entries_of k.resources) k.resources_list r v.listed.resources t in
      let new : Resource = record {
        id = id;
        type = type;
        ref_count = pos 0;
        descriptors_ptrs = [];
      } in
      let entries = entries-update_empty k.resources r new refl idle.0 in
      record {
        opened =
            IsOpened-same (λ p. refl) entries
              (count-update_zero k.resources r new refl (IsOpen-zero k r v.opened idle.0)) v.opened;
        listed =
            IsListed-same pool k.queue_pool (entries_of k.resources)
              (entries_of (update k.resources r new)) (k.resources_list ++ r ∷ []) entries
              (with_resource_taken v.listed r t);
      }

open_created_total :
    (k : Kernel) (res : Ptr) (id type mode : ℤ)
    → IsBoth k
    → (type ==ℤ resource_message_queue) ≡ false
    → Returns IsBoth (open_created k res id type mode)
unfolding open_created resource_alloc
open_created_total k res id type mode (v, w) plain = elim (Bool-cases (res == null)) [
  | inr exists ↦ (
    set_retvalue k k.running dsos_eresourcecreate,
    rw exists refl,
    refuse_total k k.running dsos_eresourcecreate (v, w),
  )
  | inl free ↦
      elim (get_block-Takes k.resource_pool v.listed.resource_pool.0 v.listed.resource_pool.1) [
        | inl full ↦ (
          set_retvalue k k.running dsos_eresourcecreate,
          rw (free, full) refl,
          refuse_total k k.running dsos_eresourcecreate (v, w),
        )
        | inr (r, pool, t) ↦
            let on : has r (k.resources_list ++ r ∷ []) ≡ true =
              ground (arith, has-append r k.resources_list (r ∷ []), ==_refl r) in
            let (k', ran, both) =
              open_found_total (created k r pool id type) r type mode
                (created-IsLinked k v r pool t id type, with_plain w r _ plain) (λ e. on) in
            (k', rw (free, t.taken, t.given, t.given) ran, both)
      ]
]

-- Not the creation of a resource with the type of message queues.
abbrev pub is_plain_open : (type mode : ℤ) → Bool
is_plain_open type mode =
    not (has_flag dsos_create (bits32 mode) && (type ==ℤ resource_message_queue))

-- In a kernel whose stores and links are in order, an open returns, whatever its arguments except
-- those that create a resource with the type of message queues, and leaves them so: every
-- descriptor of every process is lent and linked by its entry to its resource, and every resource counts
-- its entries.
pub internal_open_resource_total :
    (k : Kernel)
    → is_plain_open
        (wrap32 ((k.pcbs k.running).syscall_args 1))
        (wrap32 ((k.pcbs k.running).syscall_args 2))
      ≡ true
    → IsBoth k
    → Returns IsBoth (internal_open_resource k)
unfolding internal_open_resource
internal_open_resource_total k plain both =
    let id = wrap32 ((k.pcbs k.running).syscall_args 0) in
    let type = wrap32 ((k.pcbs k.running).syscall_args 1) in
    let mode = wrap32 ((k.pcbs k.running).syscall_args 2) in
    let res = resource_list_by_id k.resources k.resources_list id in
    elim (Bool-cases (has_flag dsos_create (bits32 mode))) [
      | inl create ↦
          let (k', ran, after) = open_created_total k res id type mode both (ground arith) in
          (k', rw create ran, after)
      | inr fetch ↦
          let (k', ran, after) =
            open_found_total k res type mode both (lookup-has k.resources k.resources_list id) in
          (k', rw fetch ran, after)
    ]
