-- ===== src/Base/Effects.antt =====
-- How a Go function ends (a value, an error, a panic; or, in the model, no end within its fuel), and effects on an unknown outside world.
-- The world keeps what was done to it before an error or a panic.
use Prim.Native.Nat.{ℕ}
use Prim.Native.String.{String}
use mathlib.Core.Bool.{Bool, true, false}
use mathlib.Core.Option.{Option, none, some}
use mathlib.Core.List.{List}
use kubeip.Base.Tests.{nat_eq}

-- The package-level error values, and the two of package `context`.
pub data Sentinel : Type 0 where
  unknown_cloud_provider static_ip_already_assigned no_static_ip_assigned : Sentinel
  no_public_ip_assigned empty_path canceled deadline_exceeded : Sentinel

-- An error value: `errors.Wrap` keeps its cause.
pub data Error : Type 0 where
  sentinel : Sentinel → Error
  message : String → Error
  operation_error : String → List String → Error
  wrap : Error → String → Error

abbrev index : Sentinel → ℕ
index unknown_cloud_provider = 0
index static_ip_already_assigned = 1
index no_static_ip_assigned = 2
index no_public_ip_assigned = 3
index empty_path = 4
index canceled = 5
index deadline_exceeded = 6

-- `errors.Is`: the error or one of its causes is the given value.
abbrev pub errors_is : Error → Sentinel → Bool
errors_is (sentinel t) s = nat_eq (index t) (index s)
errors_is (message m) s = false
errors_is (operation_error n e) s = false
errors_is (wrap e m) s = errors_is e s

pub data Result {ℓ} (A : Type ℓ) : Type ℓ where
  ok : A → Result A
  err : Error → Result A
  panic : Result A
  unfinished : Result A

abbrev pub Action : Type 0 → Type 0 → Type 0
Action W A = W → Result A × W

abbrev pub return : {W A : Type 0} → A → Action W A
return a w = (ok a, w)

abbrev pub fail : {W A : Type 0} → Error → Action W A
fail e w = (err e, w)

-- A loop that used up its fuel: the model's own outcome, no outcome of the program.
abbrev pub no_fuel : {W A : Type 0} → Action W A
no_fuel w = (unfinished, w)

abbrev pub crash : {W A : Type 0} → Action W A
crash w = (panic, w)

-- What a step hands on.
abbrev pub and_then : {W A B : Type 0} → Result A → (A → Action W B) → Action W B
and_then (ok a) f w = f a w
and_then (err e) f w = (err e, w)
and_then panic f w = (panic, w)
and_then unfinished f w = (unfinished, w)

infixl 5 ◌>>=◌ ◌>>◌
abbrev pub ◌>>=◌ : {W A B : Type 0} → Action W A → (A → Action W B) → Action W B
◌>>=◌ m f w = let (r, w') = m w in and_then r f w'

abbrev pub ◌>>◌ : {W B : Type 0} → Action W (Unit {0}) → Action W B → Action W B
m >> k = m >>= λ _. k

-- A pure computation that may fail.
abbrev pub lift : {W A : Type 0} → Result A → Action W A
lift r w = (r, w)

-- `*p`: a nil pointer panics.
abbrev pub deref : {W A : Type 0} → Option A → Action W A
deref none = crash
deref (some a) = return a

abbrev pub wrap_result : {A : Type 0} → String → Result A → Result A
wrap_result m (ok a) = ok a
wrap_result m (err e) = err (wrap e m)
wrap_result m panic = panic
wrap_result m unfinished = unfinished

-- `if err != nil { return errors.Wrap(err, m) }` after a call.
abbrev pub wrapped : {W A : Type 0} → String → Action W A → Action W A
wrapped m act w = let (r, w') = act w in (wrap_result m r, w')

abbrev pub caught : {A : Type 0} → Result A → Result (Result A)
caught (ok a) = ok (ok a)
caught (err e) = ok (err e)
caught panic = panic
caught unfinished = unfinished

-- A call whose error is looked at; a panic goes on up.
abbrev pub attempt : {W A : Type 0} → Action W A → Action W (Result A)
attempt act w = let (r, w') = act w in (caught r, w')

abbrev pub fail_if : {W : Type 0} → Bool → Error → Action W (Unit {0})
fail_if true e = fail e
fail_if false e = return tt

-- The element is there, or the error.
abbrev pub or_fail : {W A : Type 0} → Option A → Error → Action W A
or_fail none e = fail e
or_fail (some a) e = return a

-- Why the context is done, if it is: what `ctx.Err()` returns at this moment.
pub record Context (W : Type 0) : Type 0 where
  pub ctx_err : Action W (Option Error)
