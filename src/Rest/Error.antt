-- ===== src/Rest/Error.antt =====
-- The errors of pkg/rest, and computations that may end in one.
use pigo.Base.{ℕ}
use pigo.Base.Bytes.{Bytes}

-- What `errorf` says it met at the current position.
pub data Found : Type 0 where
  end_of_input : Found
  rune_at : ℕ → ℕ → Found

pub data Message : Type 0 where
  -- expected %q
  token : Bytes → Message
  said : Bytes → Message

pub data Error : Type 0 where
  syntax : Message → Found → Error
  too_deep : Error
  invalid_is : Bytes → Error
  not_quantifiable : Bytes → Error
  unknown_operator : Bytes → Error
  embedded_filter : Bytes → Error
  -- the errors wrapped by parseFilter and parseFilterKey, with the text that was parsed
  in_logic_tree in_filter in_filter_key : Bytes → Error → Error
  no_column : Bytes → Bytes → Error
  invalid_ordering : Bytes → Error
  nothing_to_insert nothing_to_update : Error
  not_encodable : Bytes → Error
  -- no error of the program: a loop of the model stopped before the program's would
  out_of_fuel : Error

pub data Result {ℓ} (A : Type ℓ) : Type ℓ where
  ok : A → Result A
  err : Error → Result A

infixl 5 ◌>>=◌
abbrev pub ◌>>=◌ {ℓ κ} : {A : Type ℓ} {B : Type κ} → Result A → (A → Result B) → Result B
ok a >>= f = f a
err e >>= f = err e

-- fmt.Errorf("...: %w", err)
abbrev pub wrap {ℓ} : {A : Type ℓ} → (Error → Error) → Result A → Result A
wrap f (ok a) = ok a
wrap f (err e) = err (f e)
