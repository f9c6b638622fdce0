-- ===== src/Kernel/Update.antt =====
-- Tables with one entry replaced.
use disastr_os_message_queue.Base.{
  ◌≡◌, sym, ◌∙◌, fun_ext, ◌==◌, Bool-cases, inl, inr, eq_of_==, ==_refl, ap,
}
use disastr_os_message_queue.PoolAllocator.{Ptr}
use disastr_os_message_queue.Kernel.{update}

module _ {ℓ} {A : Type ℓ} (f : Ptr → A) where
  pub update-at : (p : Ptr) (v : A) → update f p v p ≡ v
  update-at p v = rw (==_refl p)

  -- The value that stands there already changes nothing.
  pub update_same : (p : Ptr) (v : A) → f p ≡ v → update f p v ≡ f
  update_same p v e = fun_ext λ q. elim (Bool-cases (q == p)) [
    | inl same ↦ rw same (sym e ∙ ap f (sym (eq_of_== q p same)))
    | inr other ↦ rw other
  ]

  -- The later of two values at one place counts.
  pub update-update : (p : Ptr) (v w : A) → update (update f p v) p w ≡ update f p w
  update-update p v w =
      fun_ext λ q. elim (Bool-cases (q == p)) [ inl same ↦ rw same | inr other ↦ rw other ]

-- A function of two or of three equal arguments.
pub ap2 {ℓ κ μ} :
    {A : Type ℓ} {B : Type κ} {C : Type μ} (f : A → B → C) {a a' : A} {b b' : B}
    → a ≡ a'
    → b ≡ b'
    → f a b ≡ f a' b'
ap2 f p q = cc

pub ap3 {ℓ κ μ ν} :
    {A : Type ℓ} {B : Type κ} {C : Type μ} {D : Type ν} (f : A → B → C → D) {a a' : A} {b b' : B}
    {c c' : C}
    → a ≡ a'
    → b ≡ b'
    → c ≡ c'
    → f a b c ≡ f a' b' c'
ap3 f p q r = cc

pub ap4 {ℓ κ μ ν ξ} :
    {A : Type ℓ} {B : Type κ} {C : Type μ} {D : Type ν} {E : Type ξ} (f : A → B → C → D → E)
    {a a' : A} {b b' : B} {c c' : C} {d d' : D}
    → a ≡ a'
    → b ≡ b'
    → c ≡ c'
    → d ≡ d'
    → f a b c d ≡ f a' b' c' d'
ap4 f p q r s = cc
