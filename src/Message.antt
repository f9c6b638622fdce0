-- ===== src/Message.antt =====
-- src/disastrOS_message.c
pub mod Alloc
use disastr_os_message_queue.Base.{
  ℕ, List, ◌||◌, if◌then◌else◌, ◌==◌, ℤ, pos, pos_part, ltb_ℤ, leb_ℤ, replicate,
}
use disastr_os_message_queue.Constants.{message_max_size}
use disastr_os_message_queue.PoolAllocator.{Ptr, null, get_block, release_block}
use disastr_os_message_queue.Kernel.{Kernel, Run, ok, ◌>>=◌, from_pool, update}

-- `Message_alloc`: null for a payload size out of range or an exhausted pool, else a message with a
-- zeroed payload, sent by the process that runs.
unfoldable pub message_alloc : Kernel → (size : ℤ) → Run (Ptr × Kernel)
message_alloc k size =
    if leb_ℤ size (pos 0) || ltb_ℤ (pos message_max_size) size then ok (null, k) else do
      (msg, pool) ← from_pool (get_block k.message_pool)
      if msg == null
          then ok (null, record k { message_pool = pool })
          else ok (
            msg,
            record k {
              message_pool = pool;
              messages = update k.messages msg (record {
                size = size;
                payload = replicate (pos_part size) 0;
                sender = k.running;
              });
            },
          )

-- `Message_free`. The result of the release is ignored.
unfoldable pub message_free : Kernel → Ptr → Run Kernel
message_free k msg = if msg == null then ok k else do
  (pool, _) ← from_pool (release_block k.message_pool msg)
  ok (record k { message_pool = pool })

-- `memcpy(msg->data, buffer, size)` on a message whose payload has this size.
abbrev pub fill : Kernel → Ptr → List ℕ → Kernel
fill k msg bytes = record k {
  messages = update k.messages msg (record (k.messages msg) { payload = bytes });
}
