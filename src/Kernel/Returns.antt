-- ===== src/Kernel/Returns.antt =====
-- Total correctness of a run: it faults nowhere, and its result has a property.
use disastr_os_message_queue.Base.{
  Bool, true, false, if◌then◌else◌, ◌⊎◌, inl, inr, refl, ◌≡◌, sym, ◌∙◌, subst, arith,
}
use disastr_os_message_queue.Kernel.{Run, ok, fault, hang, segfault, tangled, ◌>>=◌}

abbrev pub Returns {ℓ κ} : {A : Type ℓ} → (A → Type κ) → Run A → Type (ℓ ⊔ κ)
Returns {A} P r = (a : A) × (r ≡ ok a) × P a

pub Returns-bind {ℓ κ μ ν} :
    {A : Type ℓ} {B : Type κ} {P : A → Type μ} {Q : B → Type ν} (m : Run A) (f : A → Run B)
    → Returns P m
    → ((a : A) → P a → Returns Q (f a))
    → Returns Q (m >>= f)
Returns-bind {Q} m f (a, e, p) next = rw e (next a p)

pub eq_of_ok {ℓ} : {A : Type ℓ} {a b : A} → ok a ≡ ok b → a ≡ b
eq_of_ok e = ground arith

pub Returns-and {ℓ κ μ} :
    {A : Type ℓ} {P : A → Type κ} {Q : A → Type μ} (r : Run A)
    → Returns P r
    → Returns Q r
    → Returns (λ a. P a × Q a) r
Returns-and {Q} r (a, ran, p) (b, again, q) = (a, ran, (p, subst Q (eq_of_ok (sym again ∙ ran)) q))

-- A run that ends by `segfault` or `tangled` is stopped, not by the kernel.
abbrev pub is_stopped {ℓ} : {A : Type ℓ} → Run A → Bool
is_stopped segfault = true
is_stopped tangled = true
is_stopped _ = false

-- A run that does not fault and does not hang: it is stopped, or its result has a property.
abbrev pub Settles {ℓ κ} : {A : Type ℓ} → (A → Type κ) → Run A → Type (ℓ ⊔ κ)
Settles P r = Returns P r ⊎ (is_stopped r ≡ true)

pub Settles-bind {ℓ κ μ ν} :
    {A : Type ℓ} {B : Type κ} {P : A → Type μ} {Q : B → Type ν} (m : Run A) (f : A → Run B)
    → Settles P m
    → ((a : A) → P a → Settles Q (f a))
    → Settles Q (m >>= f)
Settles-bind {Q} m f (inl (a, e, p)) next = rw e (next a p)
Settles-bind (ok a) f (inr s) next = absurd (ground arith)
Settles-bind fault f (inr s) next = absurd (ground arith)
Settles-bind hang f (inr s) next = absurd (ground arith)
Settles-bind segfault f (inr s) next = inr refl
Settles-bind tangled f (inr s) next = inr refl

-- A test that stops the run.
pub stops_if {ℓ κ} :
    {A : Type ℓ} {P : A → Type κ} (b : Bool) (s r : Run A)
    → is_stopped s ≡ true
    → Settles P r
    → Settles P (if b then s else r)
stops_if true s r stopped h = inr stopped
stops_if false s r stopped h = h

pub Settles-with {ℓ κ μ} :
    {A : Type ℓ} {P : A → Type κ} {Q : A → Type μ} (r : Run A)
    → ((a : A) → r ≡ ok a → Q a)
    → Settles P r
    → Settles (λ a. P a × Q a) r
Settles-with r each (inl (a, ran, p)) = inl (a, ran, (p, each a ran))
Settles-with r each (inr stopped) = inr stopped

-- What every result of a run has, the result has.
pub Returns-with {ℓ κ μ} :
    {A : Type ℓ} {P : A → Type κ} {Q : A → Type μ} (r : Run A)
    → ((a : A) → r ≡ ok a → Q a)
    → Returns P r
    → Returns (λ a. P a × Q a) r
Returns-with r each (a, ran, p) = (a, ran, (p, each a ran))
