-- ===== src/Kernel/Links.antt =====
-- The part of the kernel that descriptors and resources are in, and the runs that leave it alone.
use disastr_os_message_queue.Base.{
  ◌≡◌, sym, ap, ◌∙◌, arith, ◌==◌, Bool-cases, inl, inr, eq_of_==, List, fun_ext, Bool, true, false,
  if◌then◌else◌,
}
use disastr_os_message_queue.PoolAllocator.{Ptr, PoolAllocator}
use disastr_os_message_queue.Kernel.Returns.{is_stopped}
use disastr_os_message_queue.Kernel.{
  Kernel, Pcb, Resource, Descriptor, Run, ok, ◌>>=◌, >>=-eq-ok, update,
}

-- The descriptors that each process has, the descriptors, the resources, and their allocators.
pub record Links : Type 0 where
  pub held : Ptr → List Ptr
  pub descriptors : Ptr → Descriptor
  pub descriptor_ptrs : Ptr → Ptr
  pub resources : Ptr → Resource
  pub resources_list : List Ptr
  pub descriptor_pool : PoolAllocator
  pub descriptor_ptr_pool : PoolAllocator
  pub resource_pool : PoolAllocator
  pub queue_pool : PoolAllocator

abbrev pub links_of : Kernel → Links
links_of k = record {
  held = λ p. (k.pcbs p).descriptors;
  descriptors = k.descriptors;
  descriptor_ptrs = k.descriptor_ptrs;
  resources = k.resources;
  resources_list = k.resources_list;
  descriptor_pool = k.descriptor_pool;
  descriptor_ptr_pool = k.descriptor_ptr_pool;
  resource_pool = k.resource_pool;
  queue_pool = k.queue_pool;
}

held_same :
    (pcbs : Ptr → Pcb) (p : Ptr) (pcb : Pcb)
    → pcb.descriptors ≡ (pcbs p).descriptors
    → (q : Ptr) → (update pcbs p pcb q).descriptors ≡ (pcbs q).descriptors
held_same pcbs p pcb e q = elim (Bool-cases (q == p)) [
  | inl same ↦ rw same (e ∙ ap (λ (x : Ptr). (pcbs x).descriptors) (sym (eq_of_== q p same)))
  | inr other ↦ rw other
]

-- A process changed but for its descriptors.
pub links_of-update :
    (k : Kernel) (p : Ptr) (pcb : Pcb)
    → pcb.descriptors ≡ (k.pcbs p).descriptors
    → links_of (record k { pcbs = update k.pcbs p pcb }) ≡ links_of k
links_of-update k p pcb e =
    ap (λ (h : Ptr → List Ptr). record (links_of k) { held = h })
      (fun_ext (held_same k.pcbs p pcb e))

-- Where the run returns, its result agrees with `l`.
abbrev pub Keeps : Links → Run Kernel → Type 0
Keeps l r = (k' : Kernel) → r ≡ ok k' → links_of k' ≡ l

pub Keeps-ok : {l : Links} {k1 : Kernel} → links_of k1 ≡ l → Keeps l (ok k1)
Keeps-ok {l} {k1} s k' e = ap links_of (sym e1) ∙ s
  where
    e1 : k1 ≡ k'
    e1 = ground arith

module _ {ℓ} {A : Type ℓ} where
  pub Keeps-bind :
      {l : Links} (m : Run A) (f : A → Run Kernel)
      → ((a : A) → m ≡ ok a → Keeps l (f a))
      → Keeps l (m >>= f)
  Keeps-bind m f h k' e = let (a, ran, rest) = >>=-eq-ok m f e in h a ran k' rest

-- A test that stops the run.
pub Keeps-stops_if :
    {l : Links} (b : Bool) (s r : Run Kernel)
    → is_stopped s ≡ true
    → Keeps l r
    → Keeps l (if b then s else r)
Keeps-stops_if true s r stopped h =
    λ k' e. absurd (ground (arith, stopped, ap (λ (x : Run Kernel). is_stopped x) e))
Keeps-stops_if false s r stopped h = h

-- One run behind another.
pub Keeps-then :
    {l : Links} (m : Run Kernel) (f : Kernel → Run Kernel)
    → Keeps l m
    → ((k1 : Kernel) → Keeps (links_of k1) (f k1))
    → Keeps l (m >>= f)
Keeps-then m f h next k' e = let (k1, ran, rest) = >>=-eq-ok m f e in next k1 k' rest ∙ h k1 ran
