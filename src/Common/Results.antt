-- ===== src/Common/Results.antt =====
-- Go's errors as values, and the result of code that may also panic.
use mathlib.Core.Path.{◌≡◌, refl, ap, subst, fun_ext}
use coriolis_logger.Common.Tests.{if◌then◌else◌}
use mathlib.Core.Bool.{Bool, true, false}
use mathlib.Core.Logic.{◌⊎◌, inl, inr}
use mathlib.Core.Option.{Option, none, some}
use Prim.Native.String.{String}

-- `eof` and `authentication_disabled` are the sentinels that the code compares errors with;
-- `about` is a formatted message with the text that it quotes.
pub data Error : Type 0 where
  plain : String → Error
  about : String → String → Error
  wrapped : String → Error → Error
  eof : Error
  authentication_disabled : Error

-- `err == io.EOF`
abbrev pub is_eof : Error → Bool
is_eof eof = true
is_eof _ = false

abbrev pub is_authentication_disabled : Error → Bool
is_authentication_disabled authentication_disabled = true
is_authentication_disabled _ = false

pub data Result {ℓ} (A : Type ℓ) : Type ℓ where
  ok : A → Result A
  err : Error → Result A
  panic : Result A

-- `if !test { return err }`
abbrev pub guard : Bool → Error → Result (Unit {0})
guard false complaint = err complaint
guard true complaint = ok tt

-- `if err != nil { return err }` between two calls.
module _ {ℓ κ} {A : Type ℓ} {B : Type κ} where
  infixl 5 ◌>>=◌ ◌>>◌
  abbrev pub ◌>>=◌ : Result A → (A → Result B) → Result B
  panic >>= next = panic
  err failure >>= next = err failure
  ok value >>= next = next value

  abbrev pub ◌>>◌ : Result A → Result B → Result B
  first >> second = first >>= λ done. second

-- `errors.Wrap(err, text)` on the error path.
abbrev pub wrap {ℓ} : {A : Type ℓ} → String → Result A → Result A
wrap text (ok a) = ok a
wrap text (err e) = err (wrapped text e)
wrap text panic = panic

abbrev pub is_ok {ℓ} : {A : Type ℓ} → Result A → Bool
is_ok (ok a) = true
is_ok _ = false

-- The error of a call, `nil` as `none`.
abbrev pub error_of {ℓ} : {A : Type ℓ} → Result A → Option Error
error_of (err e) = some e
error_of _ = none

-- If a sequence of two calls succeeds, then both do.
module _ {ℓ κ} {A : Type ℓ} {B : Type κ} {b : B} where
  pub >>=-eq-ok :
      (call : Result A) (next : A → Result B)
      → (call >>= next) ≡ ok b
      → (value : A) × (call ≡ ok value) × (next value ≡ ok b)
  >>=-eq-ok panic next success = cc
  >>=-eq-ok (err failure) next success = cc
  >>=-eq-ok (ok value) next success = (value, refl, success)

pub wrap-eq-ok {ℓ} :
    {A : Type ℓ} (text : String) (r : Result A) (a : A) → wrap text r ≡ ok a → r ≡ ok a
wrap-eq-ok text (ok b) a e = e
wrap-eq-ok text (err x) a e = cc
wrap-eq-ok text panic a e = cc

pub ok_of_is_ok {ℓ} : {A : Type ℓ} (r : Result A) → is_ok r ≡ true → (a : A) × (r ≡ ok a)
ok_of_is_ok (ok a) h = (a, refl)
ok_of_is_ok (err e) h = cc
ok_of_is_ok panic h = cc

module _ {ℓ κ} {A : Type ℓ} {B : Type κ} where
  pub bind_agree :
      (m : Result A) (f g : A → Result B) → ((a : A) → f a ≡ g a) → (m >>= f) ≡ (m >>= g)
  bind_agree m f g h = ap (λ k. m >>= k) (fun_ext h)

  pub >>=_assoc {μ} :
      {C : Type μ} (m : Result A) (f : A → Result B) (g : B → Result C)
      → (m >>= f >>= g) ≡ (m >>= λ a. f a >>= g)
  >>=_assoc (ok a) f g = refl
  >>=_assoc (err e) f g = refl
  >>=_assoc panic f g = refl

pub Result-cases {ℓ} :
    {A : Type ℓ} (r : Result A)
    → ((a : A) × (r ≡ ok a)) ⊎ (((e : Error) × (r ≡ err e)) ⊎ (r ≡ panic))
Result-cases (ok a) = inl (a, refl)
Result-cases (err e) = inr (inl (e, refl))
Result-cases panic = inr (inr refl)

abbrev value_or {ℓ} : {A : Type ℓ} → A → Result A → A
value_or d (ok a) = a
value_or d _ = d

pub ok_injective {ℓ} : {A : Type ℓ} {a b : A} → ok a ≡ ok b → a ≡ b
ok_injective {a} h = ap (value_or a) h

-- What holds of the value that a result is known to have.
module _ {ℓ κ} {A : Type ℓ} (P : A → Type κ) {a : A} where
  pub ok_becomes : (b : A) → P b → ok b ≡ ok a → P a
  ok_becomes b v e = subst P (ok_injective e) v

  pub if_ok :
      (b : Bool) (x y : Result A)
      → (x ≡ ok a → P a)
      → (y ≡ ok a → P a)
      → (if b then x else y) ≡ ok a
      → P a
  if_ok true x y f g e = f e
  if_ok false x y f g e = g e
