-- ===== src/Scheduler.antt =====
-- When the daily jobs run (src/services/scheduler.rs). A time of day is in nanoseconds.
pub mod Next
use Prim.Native.Char.{code}
use elidune_server.Prelude.{
  ℕ, suc, ◌+◌, ◌-◌, ◌*◌, ◌/◌, String, Bool, true, false, ◌&&◌, ◌==◌, ltb, leb, if◌then◌else◌,
  Option, none, some, List, [], ◌∷◌,
}
use elidune_server.Stats.Text.{split}

abbrev pub second : ℕ
second = 1000000000

abbrev pub day : ℕ
day = 86400000000000

abbrev is_digit : ℕ → Bool
is_digit c = leb b'0' c && leb c b'9'

-- The digits of `str::parse::<u32>`, after those that have the value `n`.
abbrev parse_digits : ℕ → String → Option ℕ
parse_digits n String.[] = some n
parse_digits n (String.◌∷◌ c s) =
    let m = 10 * n + (code c - b'0') in
    let rest = parse_digits m s in if is_digit (code c) && ltb m 4294967296 then rest else none

-- A number has a digit, and may have one plus sign before it.
abbrev parse_unsigned : String → Option ℕ
parse_unsigned String.[] = none
parse_unsigned (String.◌∷◌ c s) = parse_digits 0 (String.◌∷◌ c s)

abbrev pub parse_u32 : String → Option ℕ
parse_u32 String.[] = none
parse_u32 (String.◌∷◌ c s) =
    if code c == b'+' then parse_unsigned s else parse_digits 0 (String.◌∷◌ c s)

abbrev unwrap_or : ℕ → Option ℕ → ℕ
unwrap_or a none = a
unwrap_or a (some b) = b

-- `parts.first()` and `parts.get(1)`, each with `parse` and its default
abbrev pub hour_and_minute : List String → ℕ × ℕ
hour_and_minute [] = (9, 0)
hour_and_minute (h ∷ []) = (unwrap_or 9 (parse_u32 h), 0)
hour_and_minute (h ∷ m ∷ rest) = (unwrap_or 9 (parse_u32 h), unwrap_or 0 (parse_u32 m))

-- `NaiveTime::from_hms_opt(hour, minute, 0)`, or nine o'clock, in seconds
abbrev pub target_of : ℕ × ℕ → ℕ
target_of (hour, minute) = if ltb hour 24 && ltb minute 60 then 3600 * hour + 60 * minute else 32400

abbrev pub target_seconds : String → ℕ
target_seconds send_time = target_of (hour_and_minute (split b':' send_time))

-- The seconds to sleep at a time of day before the next run at `target` seconds after midnight.
abbrev pub seconds_until : ℕ → ℕ → ℕ
seconds_until now target =
    if ltb now (target * second)
    then (target * second - now) / second
    else 86400 - now / second + target

unfoldable pub duration_until_next_send : ℕ → String → ℕ
duration_until_next_send now send_time =
    let secs_until = seconds_until now (target_seconds send_time) in
    if leb 1 secs_until then secs_until else 1
