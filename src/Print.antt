-- ===== src/Print.antt =====
-- The functions of src/ that print the state: disastrOS_printStatus in src/disastrOS.c and those that it
-- calls, and MessageQueue_printAll and MessageQueue_print_messages in src/disastrOS_message_queue.c.
-- What they print is a sequence of texts and of numbers that `printf` writes for `%d`.
pub mod Queues
pub mod Status
use Prim.Native.String.{String}
use disastr_os_message_queue.Base.{
  ℕ, suc, List, [], ◌∷◌, ◌++◌, if◌then◌else◌, ◌==◌, ◌&&◌, ◌||◌, ℤ, pos, ◌==ℤ◌, leb_ℤ, Option, none,
  some,
}
use disastr_os_message_queue.PoolAllocator.{Ptr, null}
use disastr_os_message_queue.Kernel.{
  Kernel, Run, ok, fault, ◌>>=◌, resource_message_queue, MqStatus, mq_open, mq_closed, MessageQueue,
}

pub data Piece : Type 0 where
  text : String → Piece
  number : ℤ → Piece

abbrev pub Output : Type 0
Output = List Piece

-- The pid of the process at `p`. A null pointer is dereferenced.
abbrev pub pid_at : Kernel → Ptr → Run ℤ
pid_at k p = if p == null then fault else ok (k.pcbs p).pid

-- The comma and blank between two items.
abbrev pub between : List Ptr → Output
between [] = []
between (x ∷ xs) = text ", " ∷ []

-- The loop of `PCBPtrList_print`
unfoldable pub pcb_ptr_items : Kernel → List Ptr → Run Output
pcb_ptr_items k [] = ok []
pcb_ptr_items k (p ∷ ps) = do
  pid ← pid_at k (k.pcb_ptrs p)
  rest ← pcb_ptr_items k ps
  ok (number pid ∷ between ps ++ rest)

unfoldable pub pcb_ptr_list_print : Kernel → List Ptr → Run Output
unfolding pcb_ptr_items
pcb_ptr_list_print k ps = do items ← pcb_ptr_items k ps; ok (text "(" ∷ items ++ text ")" ∷ [])

unfoldable pub pcb_print : Kernel → Ptr → Run Output
unfolding pcb_ptr_list_print
pcb_print k pcb = do
  pid ← pid_at k pcb
  children ← pcb_ptr_list_print k (k.pcbs pcb).children
  ok (text "[pid: " ∷ number pid ∷ text ", child: " ∷ children ++ text "]" ∷ [])

-- The comma behind all items but the last.
abbrev pub comma : List Ptr → Output
comma [] = []
comma (x ∷ xs) = text "," ∷ []

-- The loop of `PCBList_print`
unfoldable pub pcb_items : Kernel → List Ptr → Run Output
unfolding pcb_print
pcb_items k [] = ok []
pcb_items k (p ∷ ps) = do
  item ← pcb_print k p
  rest ← pcb_items k ps
  ok (text "\t" ∷ item ++ comma ps ++ text "\n" ∷ rest)

unfoldable pub pcb_list_print : Kernel → List Ptr → Run Output
unfolding pcb_items
pcb_list_print k ps = do items ← pcb_items k ps; ok (text "{\n" ∷ items ++ text "}\n" ∷ [])

-- The loop of `TimerList_print`
unfoldable pub timer_items : Kernel → List Ptr → Run Output
timer_items k [] = ok []
timer_items k (t ∷ ts) = do
  pid ← pid_at k (k.timers t).pcb
  rest ← timer_items k ts
  ok (
      text "(pid:"
        ∷ number pid
        ∷ text ", t:"
        ∷ number (k.timers t).awakening_time
        ∷ text ")"
        ∷ between ts
      ++ rest)

unfoldable pub timer_list_print : Kernel → List Ptr → Run Output
unfolding timer_items
timer_list_print k ts = do items ← timer_items k ts; ok (text "[" ∷ items ++ text "]" ∷ [])
