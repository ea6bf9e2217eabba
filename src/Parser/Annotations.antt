-- ===== src/Parser/Annotations.antt =====
-- internal/parser/transitions.go: what becomes of a type annotation before an argument.
use gokdl.Base.{◌≡◌, refl}
use gokdl.Go.Strconv.{FloatLib}
use gokdl.Parser.Context.{ParseContext}
use gokdl.Parser.Handlers.Params.{params_suffixed_decimal}
use gokdl.Tokenizer.Token.{Token}

-- A type annotation before a number with a suffix makes no difference to what the parser does with
-- the number.
pub params_suffixed_decimal-annotation :
    (floats : FloatLib) (c : ParseContext) (t a a' : Token)
    → params_suffixed_decimal floats (record c { type_annot = a }) t
      ≡ params_suffixed_decimal floats (record c { type_annot = a' }) t
unfolding params_suffixed_decimal
params_suffixed_decimal-annotation floats c t a a' = refl
