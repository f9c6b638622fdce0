-- ===== src/Print/Status.antt =====
-- disastrOS_printStatus in src/disastrOS.c, with the lists of src/disastrOS_descriptor.c and
-- src/disastrOS_resource.c.
use disastr_os_message_queue.Base.{List, [], ◌∷◌, ◌++◌, if◌then◌else◌, ◌==◌}
use disastr_os_message_queue.PoolAllocator.{Ptr, null}
use disastr_os_message_queue.Kernel.{Kernel, Run, ok, fault, ◌>>=◌}
use disastr_os_message_queue.Print.{
  Output, text, number, pid_at, between, comma, pcb_print, pcb_list_print, timer_list_print,
}

-- One round of the loop of `DescriptorPtrList_print`. A null pointer is dereferenced.
abbrev descriptor_ptr_print : Kernel → Ptr → Run Output
descriptor_ptr_print k p =
    let des = k.descriptor_ptrs p in
    let d = k.descriptors des in
    if des == null then fault else if d.resource == null then fault else do
      pid ← pid_at k d.pcb
      ok (
          text "(pid: "
          ∷ number pid
          ∷ text ", fd: "
          ∷ number d.fd
          ∷ text ", rid: "
          ∷ number (k.resources d.resource).id
          ∷ text ")"
          ∷ [])

-- The loop
unfoldable pub descriptor_ptr_items : Kernel → List Ptr → Run Output
descriptor_ptr_items k [] = ok []
descriptor_ptr_items k (p ∷ ps) = do
  item ← descriptor_ptr_print k p
  rest ← descriptor_ptr_items k ps
  ok (item ++ between ps ++ rest)

unfoldable pub descriptor_ptr_list_print : Kernel → List Ptr → Run Output
unfolding descriptor_ptr_items
descriptor_ptr_list_print k ps = do
  items ← descriptor_ptr_items k ps
  ok (text "[" ∷ items ++ text "]" ∷ [])

unfoldable pub resource_print : Kernel → Ptr → Run Output
unfolding descriptor_ptr_list_print
resource_print k r = do
  pids ← descriptor_ptr_list_print k (k.resources r).descriptors_ptrs
  ok (
      text "id: "
      ∷ number (k.resources r).id
      ∷ text ", type:"
      ∷ number (k.resources r).type
      ∷ text ", pids:"
      ∷ pids)

-- The loop of `ResourceList_print`
unfoldable pub resource_items : Kernel → List Ptr → Run Output
unfolding resource_print
resource_items k [] = ok []
resource_items k (r ∷ rs) = do
  item ← resource_print k r
  rest ← resource_items k rs
  ok (text "\t" ∷ item ++ comma rs ++ text "\n" ∷ rest)

unfoldable pub resource_list_print : Kernel → List Ptr → Run Output
unfolding resource_items
resource_list_print k rs = do
  items ← resource_items k rs
  ok (text "{\n" ∷ items ++ text "}\n" ∷ [])

-- `disastrOS_printStatus`
unfoldable pub disastr_os_print_status : Kernel → Run Output
unfolding resource_list_print pcb_print pcb_list_print timer_list_print
disastr_os_print_status k = do
  runs ← (if k.running == null then ok [] else pcb_print k k.running)
  timers ← timer_list_print k k.timer_list
  resources ← resource_list_print k k.resources_list
  ready ← pcb_list_print k k.ready_list
  waiting ← pcb_list_print k k.waiting_list
  zombie ← pcb_list_print k k.zombie_list
  ok (
      text "****************** DisastrOS ******************\n" ∷ text "Running: " ∷ runs
      ++ text "\n" ∷ text "Timers: " ∷ timers
      ++ text "\nResources: " ∷ resources
      ++ text "\nReady: " ∷ ready
      ++ text "\nWaiting: " ∷ waiting
      ++ text "\nZombie: " ∷ zombie
      ++ text "\n***********************************************\n\n" ∷ [])
