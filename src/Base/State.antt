-- ===== src/Base/State.antt =====
-- A C function that reads and writes a state `S`: `none` is an abort (a failed `assert`, a `panic`,
-- a host trap) or an operation that C leaves undefined.
use mathlib.Core.Path.{◌≡◌, refl}
use mathlib.Core.Bool.{Bool, true, false}
use mathlib.Core.Option.{Option, none, some}

abbrev pub Cmd : Type 0 → Type 0 → Type 0
Cmd S A = S → Option (A × S)

abbrev pub bind {ℓ κ} : {X : Type ℓ} {Y : Type κ} → Option X → (X → Option Y) → Option Y
bind none k = none
bind (some x) k = k x

module _ {S : Type 0} where
  abbrev pub pure : {A : Type 0} → A → Cmd S A
  pure a s = some (a, s)

  infixl 5 ◌>>=◌ ◌>>◌
  abbrev pub ◌>>=◌ : {A B : Type 0} → Cmd S A → (A → Cmd S B) → Cmd S B
  ◌>>=◌ m k s = bind (m s) (λ (a, t). k a t)

  abbrev pub ◌>>◌ : {A B : Type 0} → Cmd S A → Cmd S B → Cmd S B
  ◌>>◌ m k s = bind (m s) (λ (a, t). k t)

  abbrev pub skip : Cmd S (Unit {0})
  skip s = some (tt, s)

  abbrev pub assert : Bool → Cmd S (Unit {0})
  assert true s = some (tt, s)
  assert false s = none

  abbrev pub abort : {A : Type 0} → Cmd S A
  abort s = none

  abbrev pub modify : (S → S) → Cmd S (Unit {0})
  modify f s = some (tt, f s)

  abbrev pub from_option : {A : Type 0} → Option A → Cmd S A
  from_option o s = bind o (λ a. some (a, s))

-- Inversion of a successful bind.
pub bind-eq-some {ℓ κ} :
    {X : Type ℓ} {Y : Type κ} (o : Option X) (k : X → Option Y) {y : Y}
    → bind o k ≡ some y
    → (x : X) × (o ≡ some x) × (k x ≡ some y)
bind-eq-some none k h = cc
bind-eq-some (some x) k h = (x, refl, h)

-- Total correctness: the command returns, and leaves a state with `P`.
pub data Ends {S A : Type 0} (P : S → Type 0) : Option (A × S) → Type 0 where
  ends : {a : A} {s : S} → P s → Ends P (some (a, s))

-- One step of a sequence, whose result is known.
pub step :
    {S A B : Type 0} {P : S → Type 0} {o : Option (A × S)} {x : A × S} (k : A × S → Option (B × S))
    → o ≡ some x
    → Ends P (k x)
    → Ends P (bind o k)
step k e h = rw e h

-- What follows a command that ends, from what it leaves.
pub and_then :
    {S A B : Type 0} {P Q : S → Type 0} {o : Option (A × S)} (k : A × S → Option (B × S))
    → Ends P o
    → ((a : A) (s : S) → P s → Ends Q (k (a, s)))
    → Ends Q (bind o k)
and_then k (ends p) f = f _ _ p

pub weaken :
    {S A : Type 0} {P Q : S → Type 0} {o : Option (A × S)}
    → Ends P o
    → ((s : S) → P s → Q s)
    → Ends Q o
weaken (ends p) f = ends (f _ p)

-- The value and the state of a command that ends.
pub ended :
    {S A : Type 0} {P : S → Type 0} {o : Option (A × S)}
    → Ends P o
    → (x : A × S) × (o ≡ some x) × P x.1
ended (ends {a} {s} p) = ((a, s), refl, p)
