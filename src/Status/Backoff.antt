-- ===== src/Status/Backoff.antt =====
-- How long a server that asks to be left alone is left alone, and when a machine counts as waiting.
use synctang.Prelude.{ℕ, ◌+◌, ◌*◌, ◌≤◌, ◌≡◌, refl, ◌↔◌, none, some, arith}
use synctang.Status.{
  second, lesser, waiting, waiting_record_max_age, status_of, check_machine, Lookup, limited,
  failed, answered, bounded_retry_after, honoured_retry_after, phone_status, dial_retry_after_max,
  retry_after_cap,
}
use synctang.Text.{pos}

-- A wait that the phone honours is at least 30 s and at most 10 min, and unless the server asked for more
-- than 10 min it is at least what the server asked for.
pub honoured_retry_after_bounds :
    (d : ℕ)
    → (30 ≤ honoured_retry_after d)
      × (honoured_retry_after d ≤ 600)
      × (lesser d retry_after_cap ≤ honoured_retry_after d * second)
unfolding honoured_retry_after
honoured_retry_after_bounds d = (ground arith, ground arith, ground arith)

-- A dial never waits longer than a minute, than the server asked, or than the time it has left.
pub bounded_retry_after_bounds :
    (d remaining : ℕ)
    → (bounded_retry_after (pos d) (some remaining) ≤ dial_retry_after_max)
      × (bounded_retry_after (pos d) (some remaining) ≤ d)
      × (bounded_retry_after (pos d) (some remaining) ≤ remaining)
unfolding bounded_retry_after
bounded_retry_after_bounds d remaining = (ground arith, ground arith, ground arith)

-- The phone is told that a machine waits exactly when the lookup found a record that was seen at most
-- `waiting_record_max_age` ago, a time in the future included.
pub phone_status_waiting :
    (found : Lookup) (now : ℕ)
    → ((phone_status (check_machine found now)).state ≡ waiting)
      ↔ ((seen : ℕ) × (found ≡ answered (some (some seen))) × (now ≤ seen + waiting_record_max_age))
unfolding phone_status check_machine status_of
phone_status_waiting (limited w) now = (λ h. absurd (ground arith), λ h. absurd (ground arith))
phone_status_waiting failed now = (λ h. absurd (ground arith), λ h. absurd (ground arith))
phone_status_waiting (answered none) now = (λ h. absurd (ground arith), λ h. absurd (ground arith))
phone_status_waiting (answered (some none)) now =
    (λ h. absurd (ground arith), λ h. absurd (ground arith))
phone_status_waiting (answered (some (some seen))) now =
    (λ h. (seen, refl, ground arith), λ h. let (s, e, le) = h in ground arith)
