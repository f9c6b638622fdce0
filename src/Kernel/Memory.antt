-- ===== src/Kernel/Memory.antt =====
-- Bytes copied to memory and read back.
use disastr_os_message_queue.Base.{
  ℕ, suc, ◌<◌, ◌≡◌, refl, ap, ◌∙◌, ◌∷◌, [], List, arith, length, ==_refl,
}
use disastr_os_message_queue.PoolAllocator.{Ptr}
use disastr_os_message_queue.Kernel.{read_bytes, write_bytes, update}

-- A copy changes no byte before its target.
write_bytes_before :
    (memory : Ptr → ℕ) (p q : Ptr) (bs : List ℕ) → q < p → write_bytes memory p bs q ≡ memory q
unfolding write_bytes
write_bytes_before memory p q [] h = refl
write_bytes_before memory p q (b ∷ bs) h =
    write_bytes_before (update memory p b) (suc p) q bs (omega arith) ∙ ground arith

-- What was copied is read back.
pub read_bytes-write_bytes :
    (memory : Ptr → ℕ) (p : Ptr) (bs : List ℕ)
    → read_bytes (write_bytes memory p bs) p (length bs) ≡ bs
unfolding read_bytes write_bytes
read_bytes-write_bytes memory p [] = refl
read_bytes-write_bytes memory p (b ∷ bs) =
    rw (write_bytes_before (update memory p b) (suc p) p bs (omega arith), ==_refl p)
      (ap (◌∷◌ b) (read_bytes-write_bytes (update memory p b) (suc p) bs))
