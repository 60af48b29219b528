-- ===== src/Base/Outcome.antt =====
-- What a run of Rust code ends with, where an index or a slice may be out of range.
use mathlib.Core.Path.{◌≡◌, refl}
use mathlib.Core.Option.{Option, none, some}

-- `refused` is a `None` or a failed `?`; `panic` an index or a slice out of range. `stuck` is no
-- value of the program: a loop of the model ran out of fuel.
pub data Outcome {ℓ} (A : Type ℓ) : Type ℓ where
  ok : A → Outcome A
  refused panic stuck : Outcome A

infixl 5 ◌>>=◌
abbrev pub ◌>>=◌ {ℓ κ} : {A : Type ℓ} {B : Type κ} → Outcome A → (A → Outcome B) → Outcome B
ok a >>= f = f a
refused >>= f = refused
panic >>= f = panic
stuck >>= f = stuck

-- `o?` on an `Option`.
abbrev pub from_option {ℓ} : {A : Type ℓ} → Option A → Outcome A
from_option none = refused
from_option (some a) = ok a

-- An index expression `v[i]`, from `v.get(i)`.
abbrev pub or_panic {ℓ} : {A : Type ℓ} → Option A → Outcome A
or_panic none = panic
or_panic (some a) = ok a

-- An `Option` that the code keeps as a value.
abbrev pub attempt {ℓ} : {A : Type ℓ} → Outcome A → Outcome (Option A)
attempt (ok a) = ok (some a)
attempt refused = ok none
attempt panic = panic
attempt stuck = stuck

-- The code returned, with a value or with `None`.
abbrev pub Returned {ℓ} : {A : Type ℓ} → Outcome A → Type 0
Returned (ok a) = Unit
Returned refused = Unit
Returned panic = ⊥
Returned stuck = ⊥

pub bound_ok {ℓ κ} :
    {A : Type ℓ} {B : Type κ} (m : Outcome A) (f : A → Outcome B) {b : B}
    → (m >>= f) ≡ ok b
    → (a : A) × (m ≡ ok a) × (f a ≡ ok b)
bound_ok (ok a) f h = (a, refl, h)
bound_ok refused f h = cc
bound_ok panic f h = cc
bound_ok stuck f h = cc

-- The loops of the model came to an end.
abbrev pub IsDone {ℓ} : {A : Type ℓ} → Outcome A → Type 0
IsDone (ok a) = Unit
IsDone refused = Unit
IsDone panic = Unit
IsDone stuck = ⊥

pub IsDone-bind {ℓ κ} :
    {A : Type ℓ} {B : Type κ} (m : Outcome A) (f : A → Outcome B)
    → IsDone m
    → ((a : A) → IsDone (f a))
    → IsDone (m >>= f)
IsDone-bind (ok a) f h k = k a
IsDone-bind refused f h k = tt
IsDone-bind panic f h k = tt
IsDone-bind stuck f h k = absurd h

pub IsDone-from_option {ℓ} : {A : Type ℓ} (o : Option A) → IsDone (from_option o)
IsDone-from_option none = tt
IsDone-from_option (some a) = tt

pub IsDone-attempt {ℓ} : {A : Type ℓ} (m : Outcome A) → IsDone m → IsDone (attempt m)
IsDone-attempt (ok a) h = tt
IsDone-attempt refused h = tt
IsDone-attempt panic h = tt
IsDone-attempt stuck h = absurd h

pub attempt-some {ℓ} : {A : Type ℓ} (m : Outcome A) (a : A) → attempt m ≡ ok (some a) → m ≡ ok a
attempt-some (ok b) a h = cc h
attempt-some refused a h = absurd (cc h)
attempt-some panic a h = absurd (cc h)
attempt-some stuck a h = absurd (cc h)
