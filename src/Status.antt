-- ===== src/Status.antt =====
-- What discovery says of a machine and how long to leave it alone: mrcore/transport/machine_status.go,
-- mrcore/transport/discovery_backoff.go and mobile/status.go. Times and durations are in nanoseconds.
mod Tests
pub mod Backoff
use synctang.Prelude.{
  ℕ, zero, suc, ◌+◌, ◌-◌, ◌*◌, ◌/◌, ◌^◌, Bool, true, false, [], ◌∷◌, ◌++◌, Bytes, codes, leb, ltb,
  if◌then◌else◌, Option, none, some,
}
use synctang.Enrol.Entries.{is_empty}
use synctang.Text.{ℤ, pos, negsuc, parse_uint, trim_space, itoa}

abbrev pub second : ℕ
second = 1000000000

abbrev pub minute : ℕ
minute = 60 * second

abbrev pub default_retry_after : ℕ
default_retry_after = 60 * second

-- `WaitingRecordMaxAge`
abbrev pub waiting_record_max_age : ℕ
waiting_record_max_age = 150 * second

pub data State : Type 0 where
  waiting stale absent no_network rate_limited : State

pub record MachineStatus : Type 0 where
  pub state : State
  -- `none` is the age -1
  pub age : Option ℕ
  pub retry_after : ℕ

abbrev pub plain_status : State → Option ℕ → MachineStatus
plain_status state age = record { state = state; age = age; retry_after = 0 }

-- A record is the time at which it was seen, or the zero time.
unfoldable pub status_of : Option (Option ℕ) → ℕ → MachineStatus
status_of none now = plain_status absent none
status_of (some none) now = plain_status stale none
status_of (some (some seen)) now =
    plain_status (if leb (now - seen) waiting_record_max_age then waiting else stale)
      (some (now - seen))

-- What a lookup may give.
pub data Lookup : Type 0 where
  limited : ℕ → Lookup
  failed : Lookup
  answered : Option (Option ℕ) → Lookup

unfoldable pub check_machine : Lookup → ℕ → MachineStatus
unfolding status_of
check_machine (limited wait) now = record { state = rate_limited; age = none; retry_after = wait }
check_machine failed now = plain_status no_network none
check_machine (answered found) now = status_of found now

-- The four branches of `FormatAge`.
unfoldable pub format_seconds : ℕ → Bytes
format_seconds secs =
    if ltb secs 60
    then itoa secs ++ codes " s"
    else if ltb secs (120 * 60)
    then itoa (secs / 60) ++ codes " min"
    else if ltb secs (48 * 3600)
    then itoa (secs / 3600) ++ codes " h"
    else itoa (secs / 86400) ++ codes " days"

unfoldable pub format_age : ℤ → Bytes
unfolding format_seconds
format_age (pos age) = format_seconds (age / second)
format_age (negsuc age) = format_seconds 0

-- `http.ParseTime` is a parameter.
unfoldable pub parse_retry_after : (Bytes → Option ℕ) → Bytes → ℕ → ℕ
parse_retry_after parse_time raw now =
    let header = trim_space raw in
    if is_empty header then default_retry_after else elim (parse_uint 32 header) [
      | some secs ↦ secs * second
      | none ↦ elim (parse_time header) [ some at_ ↦ at_ - now | none ↦ default_retry_after ]
    ]

abbrev pub lesser : ℕ → ℕ → ℕ
lesser a b = if leb a b then a else b

abbrev pub greater : ℕ → ℕ → ℕ
greater a b = if leb a b then b else a

abbrev pub dial_retry_max : ℕ
dial_retry_max = 15 * second

abbrev pub dial_retry_after_max : ℕ
dial_retry_after_max = minute

abbrev pub dial_retry_schedule : ℕ → ℕ
dial_retry_schedule retry =
    if ltb retry 1
    then 3 * second
    else if ltb retry 2
    then 5 * second
    else if ltb retry 3
    then 8 * second
    else if ltb retry 4
    then 12 * second
    else dial_retry_max

-- `none` is a dial with no deadline, whose `remaining` is negative.
unfoldable pub bounded_retry_after : ℤ → Option ℕ → ℕ
bounded_retry_after (negsuc n) none = 0
bounded_retry_after (negsuc n) (some remaining) = lesser 0 remaining
bounded_retry_after (pos d) none = lesser d dial_retry_after_max
bounded_retry_after (pos d) (some remaining) = lesser (lesser d dial_retry_after_max) remaining

abbrev pub retry_after_floor : ℕ
retry_after_floor = 30 * second

abbrev pub retry_after_cap : ℕ
retry_after_cap = 10 * minute

unfoldable pub honoured_retry_after : ℕ → ℕ
honoured_retry_after d =
    (lesser (greater d retry_after_floor) retry_after_cap + second - 1) / second

-- What the phone is given: the age and the wait in whole seconds.
pub record PhoneStatus : Type 0 where
  pub state : State
  pub age_seconds : Option ℕ
  pub retry_after_seconds : ℕ

unfoldable pub phone_status : MachineStatus → PhoneStatus
unfolding honoured_retry_after
phone_status st = elim st.state [
  | rate_limited ↦ record {
    state = rate_limited;
    age_seconds = none;
    retry_after_seconds = honoured_retry_after st.retry_after;
  }
  | no_network ↦ record { state = no_network; age_seconds = none; retry_after_seconds = 0 }
  | other ↦ record {
    state = other;
    age_seconds = elim st.age [ none ↦ none | some age ↦ some (age / second) ];
    retry_after_seconds = 0;
  }
]

-- An age for `FormatAge`, which takes a negative one for zero.
abbrev pub age_or_zero : Option ℕ → ℕ
age_or_zero none = 0
age_or_zero (some age) = age

-- `DialFailureHint`
unfoldable pub dial_failure_hint : MachineStatus → Bytes
unfolding format_seconds
dial_failure_hint st = elim st.state [
  | waiting ↦
      codes "The machine announced itself "
      ++ (format_seconds (age_or_zero st.age / second)
          ++ codes " ago but did not answer. Try again. If it keeps failing, check its network.")
  | stale ↦ elim st.age [
    | none ↦
        codes
          "The machine announced itself at some point, so it may not be at its prompt. Check the machine."
    | some age ↦
        codes "The machine last announced itself "
        ++ (format_seconds (age / second)
            ++ codes " ago, so it may not be at its prompt. Check the machine.")
  ]
  | absent ↦
      codes
        "The machine has not announced itself. It may still be starting, switched off, or using another discovery server."
  | no_network ↦ []
  | rate_limited ↦ []
]
