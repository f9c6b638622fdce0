-- ===== src/Resource/Remove/Total.antt =====
-- internal_destroyResource on a resource, and on none.
use disastr_os_message_queue.Base.{
  ◌≡◌, ◌⊎◌, refl, ◌∙◌, ap, true, false, arith, ◌==◌, inl, inr, eq_of_==, [], has, has-detach,
  detach, detach-gone, detach-IsDistinct, Bool-cases, List-cases, pos, wrap32, ltb_ℤ, length,
}
use disastr_os_message_queue.Constants.{dsos_eresourceclose, dsos_eresourceinuse}
use disastr_os_message_queue.PoolAllocator.{Ptr, null, PoolAllocator}
use disastr_os_message_queue.PoolAllocator.Lent.{
  IsLent, Gives, IsBlock, IsBlock-SameArray, IsBlock-SameArray_back, release_block-Gives,
}
use disastr_os_message_queue.PoolAllocator.Far.{IsFar-SameArray, release_block_far}
use disastr_os_message_queue.Kernel.{Kernel, set_retvalue}
use disastr_os_message_queue.Kernel.Returns.{Returns}
use disastr_os_message_queue.Kernel.Invariant.{with_fewer}
use disastr_os_message_queue.MessageQueue.{resource_list_by_id}
use disastr_os_message_queue.MessageQueue.Lookup.{lookup-has}
use disastr_os_message_queue.Resource.{resource_free}
use disastr_os_message_queue.Resource.Linked.{IsLinked, Covers, entries_of, Covers-fewer}
use disastr_os_message_queue.Resource.Open.Total.{IsBoth, refuse_total}
use disastr_os_message_queue.Resource.Remove.{internal_destroy_resource}

-- The resource that the arguments of the running process name, or null.
abbrev pub asked_for : Kernel → Ptr
asked_for k =
    resource_list_by_id k.resources k.resources_list (wrap32 ((k.pcbs k.running).syscall_args 0))

-- The kernel without the resource at `r`.
abbrev pub removed : Kernel → Ptr → PoolAllocator → Kernel
removed k r pool = record k { resources_list = detach r k.resources_list; resource_pool = pool }

module _ (k : Kernel) (v : IsLinked k) (r : Ptr) (on : has r k.resources_list ≡ true)
    (closed : ltb_ℤ (pos 0) (k.resources r).ref_count ≡ false) where
  no_entries : (k.resources r).descriptors_ptrs ≡ []
  no_entries = elim (List-cases (k.resources r).descriptors_ptrs) [
    | inl e ↦ e
    | inr (q, rest, e) ↦ absurd (ground (arith, v.opened.counted r, ap length e))
  ]

  still_out : (q : Ptr) → has q k.resources_list ≡ false → has q (detach r k.resources_list) ≡ false
  still_out q out = elim (Bool-cases (has q (detach r k.resources_list))) [
    | inl back ↦ absurd (ground (arith, has-detach q r k.resources_list back))
    | inr away ↦ away
  ]

  away-Covers :
      (a : PoolAllocator)
      → Covers a (entries_of k.resources) k.resources_list
      → Covers a (entries_of k.resources) (detach r k.resources_list)
  away-Covers a =
      Covers-fewer a (entries_of k.resources) (entries_of k.resources) k.resources_list
        (detach r k.resources_list) (λ q e. e) still_out

  -- A resource whose block is given back.
  removed-IsLinked :
      (pool : PoolAllocator) → Gives k.resource_pool r pool → IsLinked (removed k r pool)
  removed-IsLinked pool g = record {
    opened = v.opened;
    listed = record {
      resource_pool = g.pool;
      queue_pool = v.listed.queue_pool;
      far = λ q is_queue. IsFar-SameArray q g.array (v.listed.far q is_queue);
      from = λ q on'. elim (v.listed.from q (has-detach q r k.resources_list on')) [
        | inl is ↦ inl (IsBlock-SameArray_back q g.array is)
        | inr is_queue ↦ inr is_queue
      ];
      resources = λ q b. elim (Bool-cases (q == r)) [
        | inl same ↦
            let e = eq_of_== q r same in
            inr (
              ap (entries_of k.resources) e ∙ no_entries,
              ap (λ (x : Ptr). has x (detach r k.resources_list)) e
                  ∙ detach-gone r k.resources_list v.listed.once,
            )
        | inr other ↦ elim (v.listed.resources q (IsBlock-SameArray q g.array b)) [
          | inl lent ↦ inl (g.keeps q other lent)
          | inr (empty, out) ↦ inr (empty, still_out q out)
        ]
      ];
      queues = away-Covers k.queue_pool v.listed.queues;
      once = detach-IsDistinct r k.resources_list v.listed.once;
    };
  }

  -- A queue, whose block the allocator of resources does not take.
  leaked-IsLinked : IsLinked (removed k r k.resource_pool)
  leaked-IsLinked = record {
    opened = v.opened;
    listed = record {
      resource_pool = v.listed.resource_pool;
      queue_pool = v.listed.queue_pool;
      far = v.listed.far;
      from = λ q on'. v.listed.from q (has-detach q r k.resources_list on');
      resources = away-Covers k.resource_pool v.listed.resources;
      queues = away-Covers k.queue_pool v.listed.queues;
      once = detach-IsDistinct r k.resources_list v.listed.once;
    };
  }

  -- What is linked is lent.
  reclaimed_resource : IsBlock k.resource_pool r → IsLent k.resource_pool r
  reclaimed_resource is = elim (v.listed.resources r is) [
    | inl lent ↦ lent
    | inr (empty, out) ↦ absurd (ground arith)
  ]

  leaked_queue : IsBlock k.queue_pool r → IsLent k.queue_pool r
  leaked_queue is = elim (v.listed.queues r is) [
    | inl lent ↦ lent
    | inr (empty, out) ↦ absurd (ground arith)
  ]

-- What a destroy comes to: an unknown id, a resource that is open, one that is not, and a queue.
abbrev pub Removes : Kernel → Kernel → Type 0
Removes k k' =
    ((asked_for k ≡ null) × (k' ≡ set_retvalue k k.running dsos_eresourceclose))
    ⊎ ((ltb_ℤ (pos 0) (k.resources (asked_for k)).ref_count ≡ true)
        × (k' ≡ set_retvalue k k.running dsos_eresourceinuse))
    ⊎ ((pool : PoolAllocator) × Gives k.resource_pool (asked_for k) pool
        × (k' ≡ set_retvalue (removed k (asked_for k) pool) k.running (pos 0)))
    ⊎ (IsLent k.queue_pool (asked_for k)
        × (k' ≡ set_retvalue (removed k (asked_for k) k.resource_pool) k.running (pos 0)))

remove_idle :
    (k : Kernel)
    → IsBoth k
    → (asked_for k == null) ≡ false
    → ltb_ℤ (pos 0) (k.resources (asked_for k)).ref_count ≡ false
    → Returns (λ k'. IsBoth k' × Removes k k') (internal_destroy_resource k)
unfolding internal_destroy_resource resource_free
remove_idle k (v, w) found idle =
    let on : has r k.resources_list ≡ true =
      lookup-has k.resources k.resources_list (wrap32 ((k.pcbs k.running).syscall_args 0)) found in
    let less = λ (q : Ptr) (h : has q (detach r k.resources_list) ≡ true).
      has-detach q r k.resources_list h in
    let fewer = with_fewer w (detach r k.resources_list) less in
    elim (v.listed.from r on) [
      | inl is ↦
          let lent = reclaimed_resource k v r on idle is in
          let (pool, g) =
            release_block-Gives k.resource_pool v.listed.resource_pool.0 r v.listed.resource_pool.1
              lent in
          let after = removed-IsLinked k v r on idle pool g in
          (
            set_retvalue (removed k r pool) k.running (pos 0),
            rw (found, idle, no_entries k v r on idle, g.released) refl,
            (
              refuse_total (removed k r pool) k.running (pos 0) (after, fewer),
              inr (inr (inl (pool, g, refl))),
            ),
          )
      | inr is_queue ↦
          let (result, refused) =
            release_block_far k.resource_pool v.listed.resource_pool.0 r v.listed.resource_pool.1
              (v.listed.far r is_queue) in
          let after = leaked-IsLinked k v r on idle in
          (
            set_retvalue (removed k r k.resource_pool) k.running (pos 0),
            rw (found, idle, no_entries k v r on idle, refused) refl,
            (
              refuse_total (removed k r k.resource_pool) k.running (pos 0) (after, fewer),
              inr (inr (inr (leaked_queue k v r on idle is_queue, refl))),
            ),
          )
    ]
  where
    r : Ptr
    r = asked_for k

-- In a kernel whose stores and links are in order a destroyResource returns, whatever its argument,
-- and leaves them so. An unknown id is refused, and so is a resource that some process has open. Any
-- other resource is unlinked and its block given back. A message queue is unlinked too, but its
-- block stays lent, as no allocator takes it back.
pub internal_destroy_resource_total :
    (k : Kernel) → IsBoth k → Returns (λ k'. IsBoth k' × Removes k k') (internal_destroy_resource k)
unfolding internal_destroy_resource
internal_destroy_resource_total k (v, w) = elim (Bool-cases (asked_for k == null)) [
  | inl missing ↦ (
    set_retvalue k k.running dsos_eresourceclose,
    rw missing refl,
    (
      refuse_total k k.running dsos_eresourceclose (v, w),
      inl (eq_of_== (asked_for k) null missing, refl),
    ),
  )
  | inr found ↦ elim (Bool-cases (ltb_ℤ (pos 0) (k.resources (asked_for k)).ref_count)) [
    | inl busy ↦ (
      set_retvalue k k.running dsos_eresourceinuse,
      rw (found, busy) refl,
      (refuse_total k k.running dsos_eresourceinuse (v, w), inr (inl (busy, refl))),
    )
    | inr idle ↦ remove_idle k (v, w) found idle
  ]
]
