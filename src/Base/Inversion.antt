-- ===== src/Base/Inversion.antt =====
-- What the parts of a sequence did when the whole ended in a value.
use Prim.Native.String.{String}
use mathlib.Core.Path.{◌≡◌, refl, subst}
use mathlib.Core.Option.{Option, none, some}
use mathlib.Core.Bool.{Bool, true, false}
use mathlib.Core.Logic.{◌⊎◌, inl, inr}
use kubeip.Base.Tests.{if◌then◌else◌}
use native.Mathlib.Omega.{arith}
use kubeip.Base.Effects.{
  Error, Result, ok, err, panic, unfinished, Action, and_then, ◌>>=◌, wrap_result, wrapped, fail_if,
  deref, or_fail, caught, attempt,
}

-- The call returned a value, and left the world in a state.
abbrev pub Ran : {W A : Type 0} → Action W A → W → A → W → Type 0
Ran m w a w' = m w ≡ (ok a, w')

pair-eq : {W A : Type 0} (p : Result A × W) {a : A} → p.0 ≡ ok a → p ≡ (ok a, p.1)
pair-eq p e = ground arith

wrap_result-eq-ok :
    {A : Type 0} (msg : String) (r : Result A) {a : A} → wrap_result msg r ≡ ok a → r ≡ ok a
wrap_result-eq-ok msg (ok a) h = h
wrap_result-eq-ok msg (err e) h = absurd (ground arith)
wrap_result-eq-ok msg panic h = absurd (ground arith)
wrap_result-eq-ok msg unfinished h = absurd (ground arith)

module _ {W A B : Type 0} where
  and_then-eq-ok :
      (r : Result A) (v : W) (f : A → Action W B) {b : B} {w' : W}
      → and_then r f v ≡ (ok b, w')
      → (a : A) × (r ≡ ok a) × (f a v ≡ (ok b, w'))
  and_then-eq-ok (ok a) v f h = (a, refl, h)
  and_then-eq-ok (err e) v f h = absurd (ground arith)
  and_then-eq-ok panic v f h = absurd (ground arith)
  and_then-eq-ok unfinished v f h = absurd (ground arith)

  -- A sequence that ended in a value: both parts did.
  pub >>=-Ran :
      (m : Action W A) (f : A → Action W B) (w : W) {b : B} {w' : W}
      → Ran (m >>= f) w b w'
      → (a : A) × (v : W) × Ran m w a v × Ran (f a) v b w'
  >>=-Ran m f w h =
      let (a, e, rest) = and_then-eq-ok (m w).0 (m w).1 f h in (a, (m w).1, pair-eq (m w) e, rest)

module _ {W A : Type 0} where
  -- Wrapping the error does not change how a call succeeds.
  pub wrapped-Ran :
      (msg : String) (m : Action W A) (w : W) {a : A} {w' : W}
      → Ran (wrapped msg m) w a w'
      → Ran m w a w'
  wrapped-Ran msg m w h = ground (arith, wrap_result-eq-ok msg (m w).0)

  pub or_fail-Ran :
      (o : Option A) (e : Error) (w : W) {a : A} {w' : W}
      → Ran (or_fail o e) w a w'
      → (o ≡ some a) × (w ≡ w')
  or_fail-Ran none e w h = ground arith
  or_fail-Ran (some a) e w h = ground arith

module _ {W A B : Type 0} where
  -- A wrapped call in front of a sequence.
  pub wrapped>>=-Ran :
      (msg : String) (m : Action W A) (f : A → Action W B) (w : W) {b : B} {w' : W}
      → Ran (wrapped msg m >>= f) w b w'
      → (a : A) × (v : W) × Ran m w a v × Ran (f a) v b w'
  wrapped>>=-Ran msg m f w h =
      let (a, v, ran, rest) = >>=-Ran (wrapped msg m) f w h in (a, v, wrapped-Ran msg m w ran, rest)

pub fail_if-Ran :
    {W : Type 0} (b : Bool) (e : Error) (w w' : W)
    → Ran (fail_if b e) w tt w'
    → (b ≡ false) × (w ≡ w')
fail_if-Ran true e w w' h = ground arith
fail_if-Ran false e w w' h = ground arith

caught-eq-ok : {A : Type 0} (r r' : Result A) → caught r ≡ ok r' → r ≡ r'
caught-eq-ok (ok a) r' h = ground arith
caught-eq-ok (err e) r' h = ground arith
caught-eq-ok panic r' h = absurd (ground arith)
caught-eq-ok unfinished r' h = absurd (ground arith)

-- A looked-at call ended the way that was seen.
pub attempt-Ran :
    {W A : Type 0} (m : Action W A) (w : W) {r : Result A} {w' : W}
    → Ran (attempt m) w r w'
    → m w ≡ (r, w')
attempt-Ran m w {r} h = ground (arith, caught-eq-ok (m w).0 r)

-- One of the two branches ran.
pub if-Ran :
    {W A : Type 0} (b : Bool) (x y : Action W A) (w : W) {a : A} {w' : W}
    → Ran (if b then x else y) w a w'
    → ((b ≡ true) × Ran x w a w') ⊎ ((b ≡ false) × Ran y w a w')
if-Ran true x y w h = inl (refl, h)
if-Ran false x y w h = inr (refl, h)

-- A pointer that was read was not nil.
pub deref-Ran :
    {W A : Type 0} (p : Option A) (w : W) {a : A} {w' : W}
    → Ran (deref p) w a w'
    → (p ≡ some a) × (w ≡ w')
deref-Ran none w h = absurd (ground arith)
deref-Ran (some a) w h = ground arith

-- The same call, between equal states and with an equal value.
pub Ran-same :
    {W A : Type 0} (m : Action W A) {v v1 w w1 : W} {a b : A}
    → v ≡ v1
    → a ≡ b
    → w ≡ w1
    → Ran m v a w
    → Ran m v1 b w1
Ran-same m {v} {v1} {w} {w1} {a} {b} e f k h =
    subst (Ran m v1 b) k (subst (λ x. Ran m v1 x w) f (subst (λ x. Ran m x a w) e h))
