-- ===== src/Common/Results.antt =====
-- A call that may raise: its value, or the exception. An action of an object returns the object
-- beside it, since what was written before a raise stays written.
use mathlib.Core.List.{List}
use Prim.Native.Nat.{ℕ}
use mathlib.Core.Path.{◌≡◌, refl, subst}
use mathlib.Core.Logic.{◌⊎◌, inl, inr}
use mathlib.Core.Bool.{Bool, true, false}

pub data Result {ℓ} (E A : Type ℓ) : Type ℓ where
  ok : A → Result E A
  err : E → Result E A

infixl 5 ◌>>=◌
abbrev pub ◌>>=◌ {ℓ} : {E A B : Type ℓ} → Result E A → (A → Result E B) → Result E B
ok a >>= f = f a
err e >>= f = err e

abbrev pub map_ok {ℓ} : {E A B : Type ℓ} → (A → B) → Result E A → Result E B
map_ok f (ok a) = ok (f a)
map_ok f (err e) = err e

abbrev pub is_ok {ℓ} : {E A : Type ℓ} → Result E A → Bool
is_ok (ok a) = true
is_ok (err e) = false

-- The classes of exception that some handler tells apart; `os_error` stands for the operating
-- system's and SQLite's.
pub data ErrorKind : Type 0 where
  value_error : ErrorKind
  runtime_error : ErrorKind
  os_error : ErrorKind
  config_error : ErrorKind
  missing_dependency : ErrorKind
  other_error : ErrorKind

-- An exception: its class and its text.
pub record Exc : Type 0 where
  pub kind : ErrorKind
  pub message : List ℕ

-- To split on the outcome of a call and keep the equation.
pub Result-cases {ℓ} :
    {E A : Type ℓ} (r : Result E A) → ((a : A) × (r ≡ ok a)) ⊎ ((e : E) × (r ≡ err e))
Result-cases (ok a) = inl (a, refl)
Result-cases (err e) = inr (e, refl)

pub ok_injective : {E A : Type 0} {a b : A} → ◌≡◌ {A = Result E A} (ok a) (ok b) → a ≡ b
ok_injective e = cc

-- What is known of a call: of its value if it returns, of its exception if it raises.
pub data Outcome {A : Type 0} (P : A → Type 0) (Q : Exc → Type 0) : Result Exc A → Type 0 where
  returns : {a : A} → P a → Outcome P Q (ok a)
  raises : {e : Exc} → Q e → Outcome P Q (err e)

pub >>=-Outcome :
    {A B : Type 0} {P : A → Type 0} {R : B → Type 0} {Q : Exc → Type 0} {m : Result Exc A}
    {f : A → Result Exc B}
    → Outcome P Q m
    → ((a : A) → P a → Outcome R Q (f a))
    → Outcome R Q (m >>= f)
>>=-Outcome (returns p) k = k _ p
>>=-Outcome (raises q) k = raises q

pub Outcome-self :
    {A : Type 0} {Q : Exc → Type 0} (m : Result Exc A)
    → ((e : Exc) → m ≡ err e → Q e)
    → Outcome (λ a. m ≡ ok a) Q m
Outcome-self (ok a) h = returns refl
Outcome-self (err e) h = raises (h e refl)

pub err_injective : {A : Type 0} {e f : Exc} → ◌≡◌ {A = Result Exc A} (err e) (err f) → e ≡ f
err_injective h = cc

pub Outcome-ok :
    {A : Type 0} {P : A → Type 0} {Q : Exc → Type 0} {m : Result Exc A}
    → Outcome P Q m
    → (a : A) → m ≡ ok a
    → P a
Outcome-ok {P} (returns p) a e = subst P (ok_injective e) p
Outcome-ok (raises q) a e = cc

pub Outcome-err :
    {A : Type 0} {P : A → Type 0} {Q : Exc → Type 0} {m : Result Exc A}
    → Outcome P Q m
    → (x : Exc) → m ≡ err x
    → Q x
Outcome-err (returns p) x e = cc
Outcome-err {Q} (raises q) x e = subst Q (err_injective e) q
