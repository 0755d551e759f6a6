-- ===== src/Base/Results.antt =====
-- What a Go call may come to: a value, an error value, a run-time panic, or (in the model only) a
-- loop whose fuel has run out.
use mathlib.Core.Path.{◌≡◌, refl}
use mathlib.Core.Logic.{◌≢◌}
use mathlib.Core.Bool.{Bool, true, false}
use olsr_go.Base.Tests.{if◌then◌else◌}
use mathlib.Core.Option.{Option, none, some}

-- The errors that the code returns, one for each of its messages.
pub data Error : Type 0 where
  invalid_ipv4 unsupported_body message_too_large packet_too_large link_too_large : Error
  data_too_short bad_packet_length packet_length_mismatch incomplete_header : Error
  message_exceeds_packet bad_body_length bad_link_header link_exceeds_body bad_address_length
        no_router_id :
      Error

pub data Outcome {ℓ} (A : Type ℓ) : Type ℓ where
  ok : A → Outcome A
  err : Error → Outcome A
  panic : Outcome A
  out_of_fuel : Outcome A

infixl 5 ◌>>=◌
abbrev pub ◌>>=◌ {ℓ κ} : {A : Type ℓ} {B : Type κ} → Outcome A → (A → Outcome B) → Outcome B
ok a >>= f = f a
err e >>= f = err e
panic >>= f = panic
out_of_fuel >>= f = out_of_fuel

pub >>=-eq-ok {ℓ κ} :
    {A : Type ℓ} {B : Type κ} (first : Outcome A) (next : A → Outcome B) {result : B}
    → (first >>= next) ≡ ok result
    → (a : A) × (first ≡ ok a) × (next a ≡ ok result)
>>=-eq-ok out_of_fuel next ends = cc
>>=-eq-ok panic next ends = cc
>>=-eq-ok (err e) next ends = cc
>>=-eq-ok (ok a) next ends = (a, refl, ends)

-- A read out of range is a run-time panic.
abbrev pub or_panic {ℓ} : {A : Type ℓ} → Option A → Outcome A
or_panic none = panic
or_panic (some a) = ok a

-- The call ends: its loops had fuel enough.
pub record Ends {ℓ} {A : Type ℓ} (r : Outcome A) : Type ℓ where
  pub has_fuel : r ≢ out_of_fuel

module _ {ℓ} {A : Type ℓ} where
  pub Ends-ok : (a : A) → Ends (ok a)
  Ends-ok a = record { has_fuel = λ p. cc }

  pub Ends-err : (e : Error) → Ends {A = A} (err e)
  Ends-err e = record { has_fuel = λ p. cc }

  pub Ends-panic : Ends {A = A} panic
  Ends-panic = record { has_fuel = λ p. cc }

  pub Ends-if : (b : Bool) (r s : Outcome A) → Ends r → Ends s → Ends (if b then r else s)
  Ends-if true r s hr hs = hr
  Ends-if false r s hr hs = hs

module _ {ℓ κ} {A : Type ℓ} {B : Type κ} where
  -- The rest of a chain may use what the first call has returned.
  pub Ends-bind_eq :
      (m : Outcome A) (f : A → Outcome B)
      → Ends m
      → ((a : A) → m ≡ ok a → Ends (f a))
      → Ends (m >>= f)
  Ends-bind_eq (ok a) f h k = k a refl
  Ends-bind_eq (err e) f h k = Ends-err e
  Ends-bind_eq panic f h k = Ends-panic
  Ends-bind_eq out_of_fuel f h k = absurd (h.has_fuel refl)

  pub Ends-bind :
      (m : Outcome A) (f : A → Outcome B) → Ends m → ((a : A) → Ends (f a)) → Ends (m >>= f)
  Ends-bind m f h k = Ends-bind_eq m f h (λ a _. k a)

pub ruleset ends_rules = (Ends-ok, Ends-err, Ends-panic, Ends-if, Ends-bind)
