-- ===== src/Base/Result.antt =====
-- How a call ends: with a value, with a C++ exception that a caller may catch, or with a failed
-- CHECK, a LOG(FATAL) or an exception that leaves a `noexcept` function, which abort the process.
use Prim.Native.String.{String}
use mathlib.Core.Path.{◌≡◌, refl, ap}
use mathlib.Core.Bool.{Bool, true, false}
use mathlib.Core.Option.{Option, none, some}

-- `throw` carries the constant part of the exception's message.
pub data Outcome {ℓ} (A : Type ℓ) : Type ℓ where
  ok : A → Outcome A
  throw : String → Outcome A
  fatal : Outcome A

module _ {ℓ κ} {A : Type ℓ} {B : Type κ} where
  infixl 5 ◌>>=◌
  abbrev pub ◌>>=◌ : Outcome A → (A → Outcome B) → Outcome B
  fatal >>= next = fatal
  throw message >>= next = throw message
  ok a >>= next = next a

  -- What a call that returned went through.
  pub >>=-eq-ok :
      (first : Outcome A) (next : A → Outcome B) {b : B}
      → (first >>= next) ≡ ok b
      → (a : A) × (first ≡ ok a) × (next a ≡ ok b)
  >>=-eq-ok fatal next ended = cc
  >>=-eq-ok (throw message) next ended = cc
  >>=-eq-ok (ok a) next ended = (a, refl, ended)

-- Two continuations that agree, one of them in two parts.
pub >>=-eq->>= {ℓ κ μ} :
    {A : Type ℓ} {B : Type κ} {C : Type μ} (first : Outcome A) (whole : A → Outcome C)
    (next : A → Outcome B) (last : B → Outcome C)
    → ((a : A) → whole a ≡ (next a >>= last))
    → (first >>= whole) ≡ ((first >>= next) >>= last)
>>=-eq->>= fatal whole next last h = refl
>>=-eq->>= (throw message) whole next last h = refl
>>=-eq->>= (ok a) whole next last h = h a

infixl 5 ◌>>◌
abbrev pub ◌>>◌ {ℓ} : {B : Type ℓ} → Outcome (Unit {0}) → Outcome B → Outcome B
fatal >> rest = fatal
throw message >> rest = throw message
ok _ >> rest = rest

pub >>-eq-ok {ℓ} :
    {B : Type ℓ} (first : Outcome (Unit {0})) (rest : Outcome B) {b : B}
    → (first >> rest) ≡ ok b
    → rest ≡ ok b
>>-eq-ok fatal rest ended = cc
>>-eq-ok (throw message) rest ended = cc
>>-eq-ok (ok _) rest ended = ended

-- CHECK(b)
abbrev pub check : Bool → Outcome (Unit {0})
check true = ok tt
check false = fatal

-- A CHECK that was passed.
pub after_check {ℓ} :
    {A : Type ℓ} (b : Bool) (rest : Outcome A) {r : A} → (check b >> rest) ≡ ok r → rest ≡ ok r
after_check true rest h = h
after_check false rest h = cc

-- if (!b) throw BistroException(message)
abbrev pub require : Bool → String → Outcome (Unit {0})
require true message = ok tt
require false message = throw message

-- A value that the code takes to be there.
abbrev pub or_fatal {ℓ} : {A : Type ℓ} → Option A → Outcome A
or_fatal none = fatal
or_fatal (some a) = ok a

abbrev pub or_throw {ℓ} : {A : Type ℓ} → Option A → String → Outcome A
or_throw none message = throw message
or_throw (some a) message = ok a

-- An exception that leaves a `noexcept` function terminates the process.
abbrev pub no_except {ℓ} : {A : Type ℓ} → Outcome A → Outcome A
no_except (ok a) = ok a
no_except (throw e) = fatal
no_except fatal = fatal

abbrev ok_or {ℓ} : {A : Type ℓ} → A → Outcome A → A
ok_or d (ok a) = a
ok_or d _ = d

pub ok-injective {ℓ} : {A : Type ℓ} {a b : A} → ok a ≡ ok b → a ≡ b
ok-injective {a} h = ap (ok_or a) h
