-- ===== src/Logs.antt =====
-- The log commands of the command line (src/bin/kronictl/log_cli.rs): its data, and errors as values.
pub mod Chars
pub mod Selection
pub mod Entries
pub mod Listing
pub mod Selected
pub mod Shown
pub mod Labels
pub mod Parens
use kronical.Prelude.{ℕ, ◌≡◌, refl, List}
use kronical.Prelude.Int.{ℤ}
use kronical.Logs.Chars.{Text}

pub record LogEntry : Type 0 where
  pub index : ℕ
  pub path : List Text
  pub modified : ℕ
  pub size : ℕ

-- The messages: an index that is no number, one past the last, one before the first.
pub data SelectError : Type 0 where
  no_log_files : SelectError
  invalid_index : Text → SelectError
  past_last : ℕ → ℕ → SelectError
  before_first : ℤ → ℕ → SelectError

pub data Result {ℓ} (A : Type ℓ) : Type ℓ where
  ok : A → Result A
  err : SelectError → Result A

infixl 5 ◌>>=◌
abbrev pub ◌>>=◌ {ℓ κ} : {A : Type ℓ} {B : Type κ} → Result A → (A → Result B) → Result B
ok a >>= f = f a
err e >>= f = err e

-- The laws of a chain of results.
pub bind_assoc {ℓ κ ν} :
    {A : Type ℓ} {B : Type κ} {C : Type ν} (m : Result A) (f : A → Result B) (g : B → Result C)
    → ((m >>= f) >>= g) ≡ (m >>= λ a. f a >>= g)
bind_assoc (Result.ok a) f g = refl
bind_assoc (Result.err e) f g = refl

pub bind-cong {ℓ κ} :
    {A : Type ℓ} {B : Type κ} (m : Result A) (f g : A → Result B)
    → ((a : A) → f a ≡ g a)
    → (m >>= f) ≡ (m >>= g)
bind-cong (Result.ok a) f g h = h a
bind-cong (Result.err e) f g h = refl

-- A property of what may be returned.
abbrev pub Returns {ℓ κ} : {A : Type ℓ} → (A → Type κ) → Result A → Type κ
Returns P (Result.ok a) = P a
Returns P (Result.err e) = Unit

pub bind-Returns {ℓ κ ν ξ} :
    {A : Type ℓ} {B : Type κ} (P : A → Type ν) (Q : B → Type ξ) (m : Result A) (f : A → Result B)
    → Returns P m
    → ((a : A) → P a → Returns Q (f a))
    → Returns Q (m >>= f)
bind-Returns P Q (Result.ok a) f h k = k a h
bind-Returns P Q (Result.err e) f h k = tt
