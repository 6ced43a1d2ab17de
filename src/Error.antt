-- ===== src/Error.antt =====
-- src/error.rs: the error types, and the result of the parser's methods.
use fluent_uri_rs.Base.{ℕ}

pub data ParseErrorKind : Type 0 where
  invalid_octet unexpected_char invalid_ipv6_addr : ParseErrorKind

-- `ParseError<I>`
pub record ParseError (I : Type 0) : Type 0 where
  pub index : ℕ
  pub kind : ParseErrorKind
  pub input : I

-- `NoInput` of src/internal.rs
pub data NoInput : Type 0 where
  no_input : NoInput

unfoldable pub with_input : {I : Type 0} → ParseError NoInput → I → ParseError I
with_input e i = record { index = e.index; kind = e.kind; input = i }

unfoldable pub into_input : {I : Type 0} → ParseError I → I
into_input e = e.input

unfoldable pub strip_input : {I : Type 0} → ParseError I → ParseError NoInput
strip_input e = record { index = e.index; kind = e.kind; input = no_input }

pub data BuildErrorKind : Type 0 where
  non_abempty_path path_starting_with_double_slash colon_in_first_path_segment : BuildErrorKind

pub data ResolveErrorKind : Type 0 where
  non_absolute_base non_hierarchical_base : ResolveErrorKind

-- `parser::Result<T>`. `panic` is an index out of range.
pub data Result {ℓ} (A : Type ℓ) : Type ℓ where
  ok : A → Result A
  err : ℕ → ParseErrorKind → Result A
  panic : Result A

infixl 5 ◌>>=◌
abbrev pub ◌>>=◌ {ℓ κ} : {A : Type ℓ} {B : Type κ} → Result A → (A → Result B) → Result B
ok a >>= f = f a
err i k >>= f = err i k
panic >>= f = panic
