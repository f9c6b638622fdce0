-- ===== src/MessageQueue/Create/Linked.antt =====
-- internal_mq_create keeps the links between processes, descriptors and resources.
use disastr_os_message_queue.Base.{
  refl, ◌==◌, inl, inr, [], ◌∷◌, ◌++◌, Bool-cases, pos, leb_ℤ, ltb_ℤ, ◌||◌, ◌&&◌, not,
}
use disastr_os_message_queue.Constants.{
  max_messages_per_queue, dsos_emqinvalid, dsos_emqexists, dsos_emqcreate,
}
use disastr_os_message_queue.PoolAllocator.{Ptr, null, PoolAllocator}
use disastr_os_message_queue.PoolAllocator.Lent.{Takes, get_block-Takes}
use disastr_os_message_queue.Kernel.{Kernel, update, set_retvalue}
use disastr_os_message_queue.Kernel.Returns.{Returns}
use disastr_os_message_queue.MessageQueue.{resource_list_by_id, is_message_queue}
use disastr_os_message_queue.MessageQueue.Request.{queue_id_of}
use disastr_os_message_queue.MessageQueue.Create.{create_queue, internal_mq_create}
use disastr_os_message_queue.MessageQueue.Create.Spec.{
  capacity_of, create_queue-created, new_resource, created,
}
use disastr_os_message_queue.Resource.Created.{
  Takes-IsIdle, with_queue_taken, entries-update_empty, count-update_zero, IsOpen-zero,
  IsListed-same,
}
use disastr_os_message_queue.Resource.Linked.{
  IsLinked, entries_of, IsOpened-same, retvalue-IsLinked, held-update_same,
}

module _ (k : Kernel) (v : IsLinked k) (r : Ptr) (pool : PoolAllocator)
    (t : Takes k.queue_pool r pool) where
  created-IsLinked : IsLinked (created k r pool)
  created-IsLinked =
      let idle = Takes-IsIdle (entries_of k.resources) k.resources_list r v.listed.queues t in
      let new = new_resource (queue_id_of k) in
      let entries = entries-update_empty k.resources r new refl idle.0 in
      record {
        opened =
            IsOpened-same (held-update_same k.pcbs k.running _ refl) entries
              (count-update_zero k.resources r new refl (IsOpen-zero k r v.opened idle.0)) v.opened;
        listed =
            IsListed-same k.resource_pool pool (entries_of k.resources)
              (entries_of (update k.resources r new)) (k.resources_list ++ r ∷ []) entries
              (with_queue_taken v.listed r t);
      }

create_queue-IsLinked :
    (k : Kernel) → IsLinked k → Returns IsLinked (create_queue k (queue_id_of k) (capacity_of k))
unfolding create_queue
create_queue-IsLinked k v =
    elim (get_block-Takes k.queue_pool v.listed.queue_pool.0 v.listed.queue_pool.1) [
      | inl full ↦ (
        set_retvalue k k.running dsos_emqcreate,
        rw full refl,
        retvalue-IsLinked k k.running dsos_emqcreate v,
      )
      | inr (r, pool, t) ↦ (
        created k r pool,
        create_queue-created k r pool t.taken t.given,
        created-IsLinked k v r pool t,
      )
    ]

-- The links are kept by a create.
pub internal_mq_create-IsLinked :
    (k : Kernel) → IsLinked k → Returns IsLinked (internal_mq_create k)
unfolding internal_mq_create
internal_mq_create-IsLinked k v =
    elim (Bool-cases (
      leb_ℤ (queue_id_of k) (pos 0)
      || leb_ℤ (capacity_of k) (pos 0)
      || ltb_ℤ (pos max_messages_per_queue) (capacity_of k))) [
        | inl illegal ↦ (
          set_retvalue k k.running dsos_emqinvalid,
          rw illegal refl,
          retvalue-IsLinked k k.running dsos_emqinvalid v,
        )
        | inr legal ↦ elim (Bool-cases (not (existing == null) && is_message_queue k existing)) [
          | inl taken ↦ (
            set_retvalue k k.running dsos_emqexists,
            rw (legal, taken) refl,
            retvalue-IsLinked k k.running dsos_emqexists v,
          )
          | inr free ↦
              let (k', ran, after) = create_queue-IsLinked k v in (k', rw (legal, free) ran, after)
        ]
      ]
  where
    existing : Ptr
    existing = resource_list_by_id k.resources k.resources_list (queue_id_of k)
