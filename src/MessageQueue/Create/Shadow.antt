-- ===== src/MessageQueue/Create/Shadow.antt =====
-- A message queue with the id of another resource.
use disastr_os_message_queue.Base.{
  ℕ, ◌≡◌, ◌∙◌, false, ◌||◌, some, ◌∷◌, [], arith, pos, leb_ℤ, ltb_ℤ, has, ◌==◌,
}
use disastr_os_message_queue.Constants.{message_max_size, dsos_emqinvalid}
use disastr_os_message_queue.PoolAllocator.{Ptr, null, PoolAllocator, get_block}
use disastr_os_message_queue.Kernel.{Kernel, ok, set_retvalue}
use disastr_os_message_queue.MessageQueue.{resource_list_by_id, is_message_queue}
use disastr_os_message_queue.MessageQueue.Lookup.{lookup_update, lookup-append_found}
use disastr_os_message_queue.MessageQueue.Request.{queue_id_of, size_of}
use disastr_os_message_queue.MessageQueue.Send.{internal_mq_send}
use disastr_os_message_queue.MessageQueue.Send.Spec.{IsSize}
use disastr_os_message_queue.MessageQueue.Create.{internal_mq_create}
use disastr_os_message_queue.MessageQueue.Create.Spec.{
  IsCapacity, capacity_of, created, new_resource, internal_mq_create-created,
}

module _ (k : Kernel) (old r : Ptr) (pool : PoolAllocator) where
  shadow_lookup :
      resource_list_by_id k.resources k.resources_list (queue_id_of k) ≡ old
      → (old == null) ≡ false
      → has r k.resources_list ≡ false
      → resource_list_by_id
          (created k r pool).resources
          (created k r pool).resources_list
          (queue_id_of k)
        ≡ old
  shadow_lookup found exists fresh =
      let rs = (created k r pool).resources in
      let id = queue_id_of k in
      let same = lookup_update k.resources r (new_resource id) k.resources_list id fresh ∙ found in
      lookup-append_found rs k.resources_list (r ∷ []) id (rw same exists) ∙ same

  shadow_type :
      is_message_queue k old ≡ false
      → (old == r) ≡ false
      → is_message_queue (created k r pool) old ≡ false
  shadow_type other apart = rw apart other

send_to_other :
    (k : Kernel) (old : Ptr) (n : ℕ)
    → leb_ℤ (queue_id_of k) (pos 0) ≡ false
    → IsSize (size_of k) n
    → resource_list_by_id k.resources k.resources_list (queue_id_of k) ≡ old
    → is_message_queue k old ≡ false
    → internal_mq_send k ≡ ok (set_retvalue k k.running dsos_emqinvalid)
unfolding internal_mq_send
send_to_other k old n id_pos s found other =
    let small : (leb_ℤ (size_of k) (pos 0) || ltb_ℤ (pos message_max_size) (size_of k)) ≡ false =
      ground arith in
    rw (id_pos, small, found) (ground arith)

-- With a legal capacity and a free block that is not linked, a create for the positive id of a
-- resource that is no message queue succeeds and returns the id. But from then on, as long as the
-- resources stay as they are, every send to this id of 1 to 256 bytes is refused as invalid: the
-- search still finds the older resource.
pub internal_mq_create_shadowed :
    (k k2 : Kernel) (n m : ℕ) (old r : Ptr) (pool : PoolAllocator)
    → leb_ℤ (queue_id_of k) (pos 0) ≡ false
    → IsCapacity (capacity_of k) n
    → resource_list_by_id k.resources k.resources_list (queue_id_of k) ≡ old
    → (old == null) ≡ false
    → is_message_queue k old ≡ false
    → get_block k.queue_pool ≡ some (r, pool)
    → (r == null) ≡ false
    → has r k.resources_list ≡ false
    → (old == r) ≡ false
    → k2.resources ≡ (created k r pool).resources
    → k2.resources_list ≡ (created k r pool).resources_list
    → queue_id_of k2 ≡ queue_id_of k
    → IsSize (size_of k2) m
    → (internal_mq_create k ≡ ok (created k r pool))
      × (internal_mq_send k2 ≡ ok (set_retvalue k2 k2.running dsos_emqinvalid))
internal_mq_create_shadowed k k2 n m old r pool id_pos c found exists other got given fresh apart rs
      linked id s =
    (
      internal_mq_create-created k n r pool id_pos c (rw found (rw other (ground arith))) got given,
      send_to_other k2 old m (rw id id_pos) s
          (rw (rs, linked, id) (shadow_lookup k old r pool found exists fresh))
          (rw rs (shadow_type k old r pool other apart)),
    )
