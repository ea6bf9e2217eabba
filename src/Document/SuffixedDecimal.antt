-- ===== src/Document/SuffixedDecimal.antt =====
-- document/suffixeddec.go: numbers with a unit, in relaxed mode.
pub mod Spelling
use gokdl.Base.{
  ℕ, zero, suc, ◌+◌, ◌*◌, Bool, true, false, not, ◌&&◌, ◌||◌, List, [], ◌∷◌, ◌++◌, Option, none,
  some, Bytes, ◌==◌, leb, one_of, take, drop, if◌then◌else◌, codes,
}

pub record SuffixedDecimal : Type 0 where
  pub number : Bytes
  pub suffix : Bytes

-- `String`.
abbrev pub spelled : SuffixedDecimal → Bytes
spelled d = d.number ++ d.suffix

-- `ErrInvalid`'s counterparts of `ParseSuffixedDecimal`.
pub data SuffixResult : Type 0 where
  suffixed : SuffixedDecimal → SuffixResult
  unexpected_character : ℕ → SuffixResult
  starts_with_non_digit : SuffixResult

pub record Scan : Type 0 where
  pub duration : Bool
  pub suffix_index : Option ℕ

abbrev set_index : Option ℕ → ℕ → Option ℕ
set_index none i = some i
set_index (some k) i = some k

abbrev is_set : Option ℕ → Bool
is_set none = false
is_set (some _) = true

-- One round of the loop at `b[i] = c`; `none` is the error. A `break` leaves the `switch` only.
-- The case for `µ` compares a byte with 0xB5.
unfoldable pub scan_step : Scan → ℕ → ℕ → Option Scan
scan_step st i c =
    if leb b'0' c && leb c b'9' || c == b'.'
    then some st
    else if one_of (codes "hsu") c || c == 0xB5
    then some (record { duration = true; suffix_index = set_index st.suffix_index i })
    else if one_of (codes "kKmMgGtTpPbB") c
    then some (
        if is_set st.suffix_index
        then record st { duration = st.duration || not (c == b'b') }
        else record st { suffix_index = some i })
    else none

unfoldable pub scan_loop : Scan → ℕ → Bytes → Scan × Option ℕ
scan_loop st i [] = (st, none)
scan_loop st i (c ∷ s) = elim (scan_step st i c) [
  | none ↦ (st, some c)
  | some st' ↦ scan_loop st' (i + 1) s
]

abbrev pub finish_scan : Bytes → Scan → SuffixResult
finish_scan b st = elim st.suffix_index [
  | none ↦
      if st.duration
      then suffixed (record { number = []; suffix = b })
      else suffixed (record { number = b; suffix = [] })
  | some zero ↦ starts_with_non_digit
  | some (suc k) ↦
      if st.duration
      then suffixed (record { number = []; suffix = b })
      else suffixed (record { number = take (suc k) b; suffix = drop (suc k) b })
]

-- The loop's error, or what follows the loop.
abbrev pub after_scan : Bytes → Scan × Option ℕ → SuffixResult
after_scan b r = elim r.1 [ none ↦ finish_scan b r.0 | some c ↦ unexpected_character c ]

unfoldable pub parse_suffixed_decimal : Bytes → SuffixResult
unfolding scan_loop scan_step
parse_suffixed_decimal b =
    after_scan b (scan_loop (record { duration = false; suffix_index = none }) 0 b)

-- The unit and multiplier of `AsNumber`: whole numbers below 2^53, so exact as float64.
abbrev unit_of : Bytes → Option ℕ
unit_of [] = some 1000
unit_of (c ∷ []) = some 1000
unit_of (c ∷ d ∷ []) = if d == b'b' || d == b'B' then some 1024 else none
unit_of (c ∷ d ∷ e ∷ s) = none

abbrev letter_multiplier : ℕ → ℕ → Option ℕ
letter_multiplier c unit =
    if one_of (codes "kK") c
    then some unit
    else if one_of (codes "mM") c
    then some (unit * unit)
    else if one_of (codes "gG") c
    then some (unit * unit * unit)
    else if one_of (codes "tT") c
    then some (unit * unit * unit * unit)
    else if one_of (codes "pP") c
    then some (unit * unit * unit * unit * unit)
    else none

-- `none` is the error "invalid suffix"; an empty suffix leaves the number as it is.
unfoldable pub suffix_multiplier : Bytes → Option ℕ
suffix_multiplier [] = some 1
suffix_multiplier (c ∷ s) = elim (unit_of (c ∷ s)) [
  | none ↦ none
  | some unit ↦ letter_multiplier c unit
]
