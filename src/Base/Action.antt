-- ===== src/Base/Action.antt =====
-- Rust code that acts on the outside: what a call ends with, and the world that it leaves.
use alt_keeper.Base.Outcome.{Outcome}
use mathlib.Core.Option.{Option, none, some}
use mathlib.Core.Path.{◌≡◌, refl}
use mathlib.Core.Logic.{◌≢◌}
use mathlib.Core.List.{◌++◌}
use alt_keeper.Base.Text.{Str}

-- `err` is a `Result`'s error with its text; `panic` and `stuck` are those of `Outcome`.
pub data Run {ℓ} (A : Type ℓ) : Type ℓ where
  ok : A → Run A
  err : Str → Run A
  panic stuck : Run A

abbrev pub Action {ℓ} : Type 0 → Type ℓ → Type ℓ
Action World A = World → Run A × World

abbrev pub and_then {ℓ κ} :
    {World : Type 0} {A : Type ℓ} {B : Type κ}
    → Run A
    → (A → Action World B)
    → World
    → Run B × World
and_then (ok a) f w = f a w
and_then (err e) f w = (err e, w)
and_then panic f w = (panic, w)
and_then stuck f w = (stuck, w)

infixl 5 ◌>>=◌ ◌>>◌
abbrev pub ◌>>=◌ {ℓ κ} :
    {World : Type 0} {A : Type ℓ} {B : Type κ}
    → Action World A
    → (A → Action World B)
    → Action World B
◌>>=◌ m f w = and_then (m w).0 f (m w).1

abbrev pub ◌>>◌ {ℓ κ} :
    {World : Type 0} {A : Type ℓ} {B : Type κ} → Action World A → Action World B → Action World B
m >> k = m >>= λ _. k

abbrev pub pure {ℓ} : {World : Type 0} {A : Type ℓ} → A → Action World A
pure a w = (ok a, w)

abbrev pub fail {ℓ} : {World : Type 0} {A : Type ℓ} → Str → Action World A
fail e w = (err e, w)

-- `o.ok_or(e)?`
abbrev pub or_fail {ℓ} : {World : Type 0} {A : Type ℓ} → Str → Option A → Action World A
or_fail e none = fail e
or_fail e (some a) = pure a

-- A call that returns nothing.
abbrev pub effect : {World : Type 0} → (World → World) → Action World (Unit {0})
effect f w = (ok tt, f w)

-- An `Option` that the code keeps as a value, from a function that may panic.
abbrev pub optional {ℓ} : {World : Type 0} {A : Type ℓ} → Outcome A → Action World (Option A)
optional (Outcome.ok a) = pure (some a)
optional Outcome.refused = pure none
optional Outcome.panic = λ w. (panic, w)
optional Outcome.stuck = λ w. (stuck, w)

-- `m.map_err(|e| format!("{tag}{e}"))?`
abbrev pub tag_err {ℓ} : {A : Type ℓ} → Str → Run A → Run A
tag_err tag (ok a) = ok a
tag_err tag (err e) = err (tag ++ e)
tag_err tag panic = panic
tag_err tag stuck = stuck

abbrev pub context {ℓ} : {World : Type 0} {A : Type ℓ} → Str → Action World A → Action World A
context tag m w = (tag_err tag (m w).0, (m w).1)

-- A `Result` that no call on the outside made.
abbrev pub of_run {ℓ} : {World : Type 0} {A : Type ℓ} → Run A → Action World A
of_run r w = (r, w)

-- A value read from the world.
abbrev pub get {ℓ} : {World : Type 0} {A : Type ℓ} → (World → A) → Action World A
get f w = (ok (f w), w)

-- A call that changes the world and returns a value.
abbrev pub call {ℓ} : {World : Type 0} {A : Type ℓ} → (World → A × World) → Action World A
call f w = (ok (f w).0, (f w).1)

-- An action that returned a value went on from one that did.
pub then_ok {ℓ κ} :
    {World : Type 0} {A : Type ℓ} {B : Type κ} (m : Action World A) (f : A → Action World B)
    (w : World) {b : B}
    → ((m >>= f) w).0 ≡ ok b
    → (a : A) × ((m w).0 ≡ ok a) × ((f a (m w).1).0 ≡ ok b) × ((m >>= f) w ≡ f a (m w).1)
then_ok {A = A} m f w {b} e = go (m w).0 refl e
  where
    go :
        (r : Run A)
        → (m w).0 ≡ r
        → (and_then r f (m w).1).0 ≡ ok b
        → (a : A) × (r ≡ ok a) × ((f a (m w).1).0 ≡ ok b) × (and_then r f (m w).1 ≡ f a (m w).1)
    go (ok a) q e = (a, refl, e, refl)
    go (err x) q e = absurd (cc e)
    go panic q e = absurd (cc e)
    go stuck q e = absurd (cc e)

-- `I` holds after an action that it holds before, however it ends.
abbrev pub Keeps {ℓ} : {World : Type 0} {A : Type ℓ} → (World → Type 0) → Action World A → Type 0
Keeps {World} I m = (w : World) → I w → I (m w).1

-- What a run returns, if it returns, has `Q`.
abbrev pub Yields {ℓ κ} : {A : Type ℓ} → (A → Type κ) → Run A → Type κ
Yields Q (ok a) = Q a
Yields Q (err e) = Unit
Yields Q panic = Unit
Yields Q stuck = Unit

-- An action that returns no value, and after which `I` still holds.
abbrev pub Never {ℓ} : {World : Type 0} {A : Type ℓ} → (World → Type 0) → Action World A → Type ℓ
Never {World} {A = A} I m = (w : World) → I w → I (m w).1 × ((a : A) → (m w).0 ≢ ok a)

module _ {World : Type 0} (I : World → Type 0) where
  pub Never-then {ℓ κ} :
      {A : Type ℓ} {B : Type κ} (r : Run A) (f : A → Action World B) (w : World)
      → ((a : A) → Never I (f a))
      → I w
      → I (and_then r f w).1 × ((b : B) → (and_then r f w).0 ≢ ok b)
  Never-then (ok a) f w k h = k a w h
  Never-then (err e) f w k h = (h, λ b e. cc e)
  Never-then panic f w k h = (h, λ b e. cc e)
  Never-then stuck f w k h = (h, λ b e. cc e)

  pub Never-bind {ℓ κ} :
      {A : Type ℓ} {B : Type κ} (m : Action World A) (f : A → Action World B)
      → Keeps I m
      → ((a : A) → Never I (f a))
      → Never I (m >>= f)
  Never-bind m f h k w i = Never-then (m w).0 f (m w).1 k (h w i)

  pub Never-err {ℓ κ} :
      {A : Type ℓ} {B : Type κ} (r : Run A) (e : Str) (f : A → Action World B)
      → r ≡ err e
      → Never I (of_run r >>= f)
  Never-err r e f q w h = rw q (h, λ b x. cc x)

  pub keeps_yields {ℓ κ μ} :
      {A : Type ℓ} {B : Type κ} (Q : A → Type μ) (r : Run A) (f : A → Action World B) (w : World)
      → Yields Q r
      → ((a : A) → Q a → Keeps I (f a))
      → I w
      → I (and_then r f w).1
  keeps_yields Q (ok a) f w q k h = k a q w h
  keeps_yields Q (err e) f w q k h = h
  keeps_yields Q panic f w q k h = h
  keeps_yields Q stuck f w q k h = h

  pub keeps_then {ℓ κ} :
      {A : Type ℓ} {B : Type κ} (r : Run A) (f : A → Action World B) (w : World)
      → ((a : A) → Keeps I (f a))
      → I w
      → I (and_then r f w).1
  keeps_then (ok a) f w k h = k a w h
  keeps_then (err e) f w k h = h
  keeps_then panic f w k h = h
  keeps_then stuck f w k h = h

  pub Keeps-bind {ℓ κ} :
      {A : Type ℓ} {B : Type κ} (m : Action World A) (f : A → Action World B)
      → Keeps I m
      → ((a : A) → Keeps I (f a))
      → Keeps I (m >>= f)
  Keeps-bind m f h k w i = keeps_then (m w).0 f (m w).1 k (h w i)

  -- The same, where what follows may rely on what the first action returned.
  pub Keeps-bind_ok {ℓ κ} :
      {A : Type ℓ} {B : Type κ} (m : Action World A) (f : A → Action World B)
      → Keeps I m
      → ((a : A) (w : World) → (m w).0 ≡ ok a → Keeps I (f a))
      → Keeps I (m >>= f)
  Keeps-bind_ok {A = A} m f h k w i = go (m w).0 refl
    where
      go : (r : Run A) → (m w).0 ≡ r → I (and_then r f (m w).1).1
      go (ok a) e = k a w e (m w).1 (h w i)
      go (err x) e = h w i
      go panic e = h w i
      go stuck e = h w i

  pub Keeps-pure {ℓ} : {A : Type ℓ} (a : A) → Keeps I (pure a)
  Keeps-pure a w h = h

  pub Keeps-or_fail {ℓ} : {A : Type ℓ} (e : Str) (o : Option A) → Keeps I (or_fail e o)
  Keeps-or_fail e none w h = h
  Keeps-or_fail e (some a) w h = h

  pub Keeps-optional {ℓ} : {A : Type ℓ} (o : Outcome A) → Keeps I (optional o)
  Keeps-optional (Outcome.ok a) w h = h
  Keeps-optional Outcome.refused w h = h
  Keeps-optional Outcome.panic w h = h
  Keeps-optional Outcome.stuck w h = h

  pub Keeps-effect : (f : World → World) → ((w : World) → I w → I (f w)) → Keeps I (effect f)
  Keeps-effect f h = h

  pub Keeps-context {ℓ} :
      {A : Type ℓ} (tag : Str) (m : Action World A) → Keeps I m → Keeps I (context tag m)
  Keeps-context tag m h = h

  pub Keeps-of_run {ℓ} : {A : Type ℓ} (r : Run A) → Keeps I (of_run r)
  Keeps-of_run r w h = h
