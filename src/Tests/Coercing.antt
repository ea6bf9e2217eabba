-- ===== src/Tests/Coercing.antt =====
-- internal/coerce: runs of the conversions.
use gokdl.Base.{◌≡◌, refl, true, false, none, some, pos, negsuc, codes, arith, ◌^◌, ◌-◌}
use gokdl.Coerce.{signed, unsigned, w8, w64, string, big_int}
use gokdl.Coerce.Agreement.{to_uint64-unsigned, one_digit, to_bool-big_int}
use gokdl.Coerce.Integers.{to_uint64}
use gokdl.Coerce.Rereading.{from_string-to_string, from_string-exponent}
use gokdl.Coerce.Strings.{to_string, from_string}
use gokdl.Coerce.Suffixes.{suffix_to_multiplier, suffix_loop, numeric_units}
use gokdl.Coerce.Suffixes.Units.{Agrees, suffix_to_multiplier-Agrees}
use gokdl.Coerce.Texts.{re_numeric, re_integer}
use gokdl.Coerce.Truth.{bool_string, to_bool}
use gokdl.Document.SuffixedDecimal.{suffix_multiplier}
use gokdl.Go.Strconv.{format_int}
use gokdl.Go.Utf8.{decode_rune}
use gokdl.Tests.Floats.{values}

to_uint64-unsigned_example :
    (to_uint64 values (unsigned w64 (2 ^ 64 - 1)) ≡ 2 ^ 64 - 1)
    × (to_uint64 values (big_int (pos (2 ^ 64 - 1))) ≡ 2 ^ 63 - 1)
    × (to_uint64 values (string (format_int (pos (2 ^ 64 - 1)) 10)) ≡ 2 ^ 63 - 1)
to_uint64-unsigned_example = to_uint64-unsigned values w64 (2 ^ 64 - 1) (omega arith)

from_string-to_string_example :
    from_string values (to_string values (signed w8 (negsuc 4))) ≡ string (format_int (negsuc 4) 10)
from_string-to_string_example = from_string-to_string values w8 (negsuc 4)

exponent_matches : re_numeric (codes "1e5") ≡ true
unfolding re_numeric
exponent_matches = refl

exponent_is_no_integer : re_integer (codes "1e5") ≡ false
unfolding re_integer
exponent_is_no_integer = refl

from_string-exponent_example : from_string values (codes "1e5") ≡ signed w64 (pos 0)
from_string-exponent_example =
    from_string-exponent values (codes "1e5") exponent_matches refl exponent_is_no_integer

suffix_to_multiplier-Agrees_example :
    Agrees (suffix_multiplier (codes "Kb")) (suffix_to_multiplier (codes "Kb"))
suffix_to_multiplier-Agrees_example = suffix_to_multiplier-Agrees (codes "Kb")

kilo : suffix_to_multiplier (codes "Kb") ≡ some 1_024
unfolding suffix_to_multiplier numeric_units
kilo = refl

no_unit : suffix_to_multiplier (codes "x") ≡ some 0
unfolding suffix_to_multiplier numeric_units
no_unit = refl

suffix_begins : suffix_loop 4 (none) 0 (codes "10kb") ≡ (some 2, false)
unfolding suffix_loop decode_rune
suffix_begins = refl

yes_is_true : bool_string (codes "yes") ≡ true
unfolding bool_string
yes_is_true = refl

to_bool-big_int_example : to_bool values (big_int (pos 12)) ≡ one_digit (pos 12)
to_bool-big_int_example = to_bool-big_int values (pos 12)
