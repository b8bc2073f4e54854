-- ===== src/LogSink/Names.antt =====
-- The names of the archive's files: `file_name` and `file_seq` of
-- crates/nyanpasu-core-manager/src/log_sink.rs.
pub mod Inverse
use nyanpasu_service.Prelude.{
  ℕ, ◌+◌, ◌-◌, ◌*◌, Bool, true, false, ◌&&◌, Option, none, some, List, [], ◌∷◌, ◌++◌, ltb, leb,
  ◌==◌, if◌then◌else◌, length, replicate,
}
use nyanpasu_service.Text.{Text, bytes, same_text}
use nyanpasu_service.Text.Decimal.{show_ℕ}

abbrev pub file_prefix : Text
file_prefix = bytes "core-"

abbrev pub file_suffix : Text
file_suffix = bytes ".jsonl"

-- `{:06}`: zeros in front, up to a width of six.
padded : Text → Text
padded digits = replicate (6 - length digits) b'0' ++ digits

unfoldable pub file_name : ℕ → Text
unfolding padded
file_name seq = file_prefix ++ padded (show_ℕ seq) ++ file_suffix

-- `str::strip_prefix` and `str::strip_suffix`
strip_prefix : Text → Text → Option Text
strip_prefix [] text = some text
strip_prefix (p ∷ ps) [] = none
strip_prefix (p ∷ ps) (t ∷ ts) = let rest = strip_prefix ps ts in if p == t then rest else none

prepend : ℕ → Option Text → Option Text
prepend t none = none
prepend t (some ts) = some (t ∷ ts)

strip_suffix : Text → Text → Option Text
unfolding same_text prepend
strip_suffix suffix [] = if same_text [] suffix then some [] else none
strip_suffix suffix (t ∷ ts) =
    let rest = strip_suffix suffix ts in
    if same_text (t ∷ ts) suffix then some [] else prepend t rest

is_digit : ℕ → Bool
is_digit b = leb b'0' b && leb b b'9'

all_digits : Text → Bool
unfolding is_digit
all_digits [] = true
all_digits (b ∷ bs) = is_digit b && all_digits bs

is_empty : Text → Bool
is_empty [] = true
is_empty (b ∷ bs) = false

abbrev pub u64_max : ℕ
u64_max = 18446744073709551615

-- `str::parse::<u64>` on digits: the first step past `u64::MAX` is an error.
parse_onto : ℕ → Text → Option ℕ
parse_onto acc [] = some acc
parse_onto acc (b ∷ bs) =
    let next = acc * 10 + (b - b'0') in
    let rest = parse_onto next bs in if ltb u64_max next then none else rest

parse_digits : Text → Option ℕ
unfolding all_digits is_empty parse_onto
parse_digits digits =
    if is_empty digits then none else if all_digits digits then parse_onto 0 digits else none

suffix_stripped : Option Text → Option ℕ
unfolding parse_digits
suffix_stripped none = none
suffix_stripped (some digits) = parse_digits digits

prefix_stripped : Option Text → Option ℕ
unfolding suffix_stripped strip_suffix
prefix_stripped none = none
prefix_stripped (some rest) = suffix_stripped (strip_suffix file_suffix rest)

unfoldable pub file_seq : Text → Option ℕ
unfolding prefix_stripped strip_prefix
file_seq name = prefix_stripped (strip_prefix file_prefix name)
