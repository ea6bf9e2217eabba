-- ===== src/Document/MultiLine/Result.antt =====
-- The results of reading a multi-line string: a value, one of the source's errors, or lack of fuel.
use gokdl.Base.{Bytes}
use gokdl.Document.Unquote.{Unquoted, done, invalid, out_of_fuel}

pub data TextError : Type 0 where
  err_invalid opening_line_content closing_line_content insufficient_indentation : TextError

pub data TextResult (A : Type 0) : Type 0 where
  text : A → TextResult A
  failed : TextError → TextResult A
  no_fuel : TextResult A

infixl 5 ◌>>=◌
abbrev pub ◌>>=◌ : {A B : Type 0} → TextResult A → (A → TextResult B) → TextResult B
text a >>= f = f a
failed e >>= f = failed e
no_fuel >>= f = no_fuel

abbrev pub from_unquoted : Unquoted → TextResult Bytes
from_unquoted (done b) = text b
from_unquoted invalid = failed err_invalid
from_unquoted out_of_fuel = no_fuel
