-- ===== src/Config/Values.antt =====
-- pocisys-hash-monitor/services/validation.py: the values that a form or a backup hands over.
use mathlib.Core.List.{reverse}
use gauge_umbrel_community.Prelude.{
  List, ◌+◌, ℕ, Bool, true, false, not, ◌&&◌, ◌||◌, [], ◌∷◌, Text, codes, is_empty, strip, lower,
  is_prefix, ltb, leb, ◌==◌, if◌then◌else◌, all, any, length, drop,
}

-- The message of an `ApiError` of status 400.
pub data ApiError : Type 0 where
  bad_number bad_whole_number bad_host bad_time bad_profile ambiguous_profile : ApiError
  bad_name bad_type bad_warning bad_critical critical_below_warning negative_minimum : ApiError
  bad_target bad_low_mode equal_times missing_profile missing_low_profile : ApiError

-- A value that `as_float` or `as_int` reads: missing or empty, no number, or a number, below 0 or
-- not; a float is in thousandths.
pub data RawValue : Type 0 where
  blank not_a_number negative : RawValue
  value : ℕ → RawValue

unfoldable pub is_bad : RawValue → Bool
is_bad not_a_number = true
is_bad _ = false

unfoldable pub is_negative : RawValue → Bool
is_negative negative = true
is_negative _ = false

-- The number, the default for a missing one, and 0 for one below 0.
unfoldable pub value_or : ℕ → RawValue → ℕ
value_or default blank = default
value_or default (value n) = n
value_or default _ = 0

unfoldable pub or_text : Text → Text → Text
or_text t default = if is_empty t then default else t

unfoldable pub without_prefix : Text → Text → Text
without_prefix prefix t = if is_prefix prefix (lower t) then drop (length prefix) t else t

unfoldable pub drop_slashes : Text → Text
drop_slashes [] = []
drop_slashes (c ∷ s) = let rest = drop_slashes s in if c == 47 then rest else c ∷ s

-- `clean_host`'s answer.
unfoldable pub host_text : Text → Text
unfolding without_prefix drop_slashes
host_text t = reverse (
    drop_slashes
      (reverse (without_prefix (codes "https://") (without_prefix (codes "http://") (strip t)))))

-- `HOST_PATTERN`, character by character.
unfoldable pub is_host_char : ℕ → Bool
is_host_char c =
    leb 48 c && leb c 57
    || leb 65 c && leb c 90
    || leb 97 c && leb c 122
    || c == 95
    || c == 46
    || c == 58
    || c == 45

unfoldable pub is_host : Text → Bool
unfolding is_host_char
is_host t = not (is_empty t) && all is_host_char t

-- The digits 0 of the scripts that Unicode 15 has; the digits of each stand in a row.
abbrev pub digit_zeros : List ℕ
digit_zeros =
    48 ∷ 1632 ∷ 1776 ∷ 1984 ∷ 2406 ∷ 2534 ∷ 2662 ∷ 2790 ∷ 2918 ∷ 3046 ∷ 3174 ∷ 3302 ∷ 3430 ∷ 3558
    ∷ 3664 ∷ 3792 ∷ 3872 ∷ 4160 ∷ 4240 ∷ 6112 ∷ 6160 ∷ 6470 ∷ 6608 ∷ 6784 ∷ 6800 ∷ 6992 ∷ 7088
    ∷ 7232 ∷ 7248 ∷ 42528 ∷ 43216 ∷ 43264 ∷ 43472 ∷ 43504 ∷ 43600 ∷ 44016 ∷ 65296 ∷ 66720 ∷ 68912
    ∷ 69734 ∷ 69872 ∷ 69942 ∷ 70096 ∷ 70384 ∷ 70736 ∷ 70864 ∷ 71248 ∷ 71360 ∷ 71472 ∷ 71904 ∷ 72016
    ∷ 72784 ∷ 73040 ∷ 73120 ∷ 73552 ∷ 92768 ∷ 92864 ∷ 93008 ∷ 120782 ∷ 120792 ∷ 120802 ∷ 120812
    ∷ 120822 ∷ 123200 ∷ 123632 ∷ 124144 ∷ 125264 ∷ 130032 ∷ []

-- `\d`, which matches the decimal digits of every script.
unfoldable pub is_decimal : ℕ → Bool
is_decimal c = any (λ z. leb z c && leb c (z + 9)) digit_zeros

abbrev is_digit : ℕ → ℕ → Bool
is_digit last c = leb 48 c && leb c last

-- The pattern of `clean_time`.
unfoldable pub is_time : Text → Bool
is_time (a ∷ b ∷ c ∷ d ∷ e ∷ []) =
    (is_digit 49 a && is_decimal b || a == 50 && is_digit 51 b)
    && c == 58
    && is_digit 53 d
    && is_decimal e
is_time _ = false

-- A profile that `clean_profile` takes for a text, and one that is no board's number.
unfoldable pub is_profile : Text → Bool
is_profile t = leb (length t) 80 && not (any (λ c. c == 44 || ltb c 32) t)

unfoldable pub is_board_number : Text → Bool
is_board_number (c ∷ []) = leb 48 c && leb c 51
is_board_number _ = false
