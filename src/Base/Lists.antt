-- ===== src/Base/Lists.antt =====
-- Lists measured and indexed by native numbers, and sequences of addresses.
use Prim.Native.Nat.{ℕ, zero, suc, ◌+◌, ◌<◌}
use mathlib.Core.Path.{◌≡◌, refl, ap, sym, ◌∙◌}
use mathlib.Core.Logic.{◌≢◌, ◌⊎◌, inl, inr}
use mathlib.Core.Bool.{Bool, true, false, ◌||◌}
use mathlib.Core.List.{List, [], ◌∷◌, ◌++◌}
use mathlib.Core.Option.{Option, none, some}
use native.Mathlib.Omega.{arith}
use disastr_os_message_queue.Base.Tests.{eq_of_==, Bool-cases, ◌==◌, if◌then◌else◌}

module _ {ℓ} {A : Type ℓ} where
  abbrev pub length : List A → ℕ
  length [] = 0
  length (x ∷ xs) = suc (length xs)

  abbrev pub get_elem? : List A → ℕ → Option A
  get_elem? [] i = none
  get_elem? (x ∷ xs) zero = some x
  get_elem? (x ∷ xs) (suc i) = get_elem? xs i

  -- A write out of bounds changes nothing.
  abbrev pub set : List A → ℕ → A → List A
  set [] i v = []
  set (x ∷ xs) zero v = v ∷ xs
  set (x ∷ xs) (suc i) v = x ∷ set xs i v

  abbrev pub replicate : ℕ → A → List A
  replicate zero a = []
  replicate (suc n) a = a ∷ replicate n a

  pub length-append : (xs ys : List A) → length (xs ++ ys) ≡ length xs + length ys
  length-append [] ys = omega arith
  length-append (x ∷ xs) ys = omega (arith, length-append xs ys)

module _ {ℓ} {A : Type ℓ} where
  pub length-set : (xs : List A) (i : ℕ) (v : A) → length (set xs i v) ≡ length xs
  length-set [] i v = refl
  length-set (x ∷ xs) zero v = refl
  length-set (x ∷ xs) (suc i) v = ap suc (length-set xs i v)

  pub get_elem?-set_self :
      (xs : List A) (i : ℕ) (v : A) → i < length xs → get_elem? (set xs i v) i ≡ some v
  get_elem?-set_self [] i v h = elim h [ ]
  get_elem?-set_self (x ∷ xs) zero v h = refl
  get_elem?-set_self (x ∷ xs) (suc i) v h = get_elem?-set_self xs i v (omega arith)

  pub get_elem?-set_ne :
      (xs : List A) (i j : ℕ) (v : A) → i ≢ j → get_elem? (set xs i v) j ≡ get_elem? xs j
  get_elem?-set_ne [] i j v h = refl
  get_elem?-set_ne (x ∷ xs) zero zero v h = absurd (h refl)
  get_elem?-set_ne (x ∷ xs) zero (suc j) v h = refl
  get_elem?-set_ne (x ∷ xs) (suc i) zero v h = refl
  get_elem?-set_ne (x ∷ xs) (suc i) (suc j) v h = get_elem?-set_ne xs i j v (λ e. h (ap suc e))

  -- Two writes to one place: the later one counts, and the old value put back undoes both.
  pub set-set : (xs : List A) (i : ℕ) (v w : A) → set (set xs i v) i w ≡ set xs i w
  set-set [] i v w = refl
  set-set (x ∷ xs) zero v w = refl
  set-set (x ∷ xs) (suc i) v w = ap (◌∷◌ x) (set-set xs i v w)

  pub set_same : (xs : List A) (i : ℕ) (v : A) → get_elem? xs i ≡ some v → set xs i v ≡ xs
  set_same [] i v h = refl
  set_same (x ∷ xs) zero v h = ground arith
  set_same (x ∷ xs) (suc i) v h = ap (◌∷◌ x) (set_same xs i v h)

  pub lt_of_get_elem? : (xs : List A) (i : ℕ) (v : A) → get_elem? xs i ≡ some v → i < length xs
  lt_of_get_elem? [] i v h = ground arith
  lt_of_get_elem? (x ∷ xs) zero v h = omega arith
  lt_of_get_elem? (x ∷ xs) (suc i) v h = omega (arith, lt_of_get_elem? xs i v h)

pub List-cases {ℓ} :
    {A : Type ℓ} (xs : List A) → (xs ≡ []) ⊎ ((x : A) × (rest : List A) × (xs ≡ x ∷ rest))
List-cases [] = inl refl
List-cases (x ∷ rest) = inr (x, rest, refl)

-- Whether `a` stands in the sequence.
abbrev pub has : ℕ → List ℕ → Bool
has a [] = false
has a (x ∷ xs) = (a == x) || has a xs

-- What is not in a sequence is not its head, and not in the rest.
pub head_ne : (a x : ℕ) (xs : List ℕ) → has a (x ∷ xs) ≡ false → (x == a) ≡ false
head_ne a x xs out = ground (arith, out, eq_of_== x a)

pub has-rest : (a x : ℕ) (xs : List ℕ) → has a (x ∷ xs) ≡ false → has a xs ≡ false
has-rest a x xs out = ground (arith, out)

pub has-cons : (a x : ℕ) (xs : List ℕ) → has a xs ≡ true → has a (x ∷ xs) ≡ true
has-cons a x xs on = ground arith

-- An item of a sequence is none that is not in it.
pub has_ne : (a b : ℕ) (xs : List ℕ) → has a xs ≡ false → has b xs ≡ true → (a == b) ≡ false
has_ne a b xs out on = elim (Bool-cases (a == b)) [
  | inl same ↦ absurd (ground (arith, sym out ∙ ap (λ (c : ℕ). has c xs) (eq_of_== a b same) ∙ on))
  | inr other ↦ other
]

pub has_ne_sym : (a b : ℕ) (xs : List ℕ) → has a xs ≡ false → has b xs ≡ true → (b == a) ≡ false
has_ne_sym a b xs out on = ground (arith, has_ne a b xs out on)

-- The sequence without its first `a`.
unfoldable pub detach : ℕ → List ℕ → List ℕ
detach a [] = []
detach a (x ∷ xs) = if x == a then xs else x ∷ detach a xs

-- The sequence with `a` right behind the first `before`.
unfoldable pub insert_after : ℕ → ℕ → List ℕ → List ℕ
insert_after before a [] = []
insert_after before a (x ∷ xs) = if x == before then x ∷ a ∷ xs else x ∷ insert_after before a xs

-- Without repetition.
abbrev pub IsDistinct : List ℕ → Type 0
IsDistinct [] = Unit {0}
IsDistinct (x ∷ xs) = (has x xs ≡ false) × IsDistinct xs

pub detach-append : (a : ℕ) (xs : List ℕ) → has a xs ≡ false → detach a (xs ++ a ∷ []) ≡ xs
unfolding detach
detach-append a [] out = ground arith
detach-append a (x ∷ xs) out = ground (arith, detach-append a xs)

pub has-append : (a : ℕ) (xs ys : List ℕ) → has a (xs ++ ys) ≡ (has a xs || has a ys)
has-append a [] ys = refl
has-append a (x ∷ xs) ys = ground (arith, has-append a xs ys)

pub has-detach : (a b : ℕ) (xs : List ℕ) → has a (detach b xs) ≡ true → has a xs ≡ true
unfolding detach
has-detach a b [] h = h
has-detach a b (x ∷ xs) h = ground (arith, has-detach a b xs)

pub has-detach_ne :
    (a b : ℕ) (xs : List ℕ) → (a == b) ≡ false → has a xs ≡ true → has a (detach b xs) ≡ true
unfolding detach
has-detach_ne a b [] ne h = h
has-detach_ne a b (x ∷ xs) ne h = ground (arith, has-detach_ne a b xs ne, eq_of_== a x)

pub length-detach : (a : ℕ) (xs : List ℕ) → has a xs ≡ true → length xs ≡ suc (length (detach a xs))
unfolding detach
length-detach a [] h = absurd (ground arith)
length-detach a (x ∷ xs) h = ground (arith, length-detach a xs, eq_of_== a x)

-- Of what stands there once, a detach leaves none.
pub detach-gone : (a : ℕ) (xs : List ℕ) → IsDistinct xs → has a (detach a xs) ≡ false
unfolding detach
detach-gone a [] d = refl
detach-gone a (x ∷ xs) d = ground (arith, detach-gone a xs d.1, d.0, eq_of_== x a)

pub detach-IsDistinct : (a : ℕ) (xs : List ℕ) → IsDistinct xs → IsDistinct (detach a xs)
unfolding detach
detach-IsDistinct a [] d = d
detach-IsDistinct a (x ∷ xs) d = elim (Bool-cases (x == a)) [
  | inl same ↦ rw same d.1
  | inr other ↦ rw other (ground (arith, has-detach x a xs, d.0), detach-IsDistinct a xs d.1)
]

pub append-IsDistinct :
    (a : ℕ) (xs : List ℕ) → IsDistinct xs → has a xs ≡ false → IsDistinct (xs ++ a ∷ [])
append-IsDistinct a [] d out = (refl, _)
append-IsDistinct a (x ∷ xs) d out = (
  ground (arith, has-append x xs (a ∷ []), d.0, eq_of_== x a),
  append-IsDistinct a xs d.1 (ground (arith, out)),
)
