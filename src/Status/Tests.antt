-- ===== src/Status/Tests.antt =====
-- A wait of zero, a wait longer than a dial, and a machine that was seen a minute ago.
use synctang.Prelude.{ℕ, ◌+◌, ◌≤◌, ◌≡◌, ◌↔◌, some}
use synctang.Status.{minute, waiting, waiting_record_max_age, answered, check_machine, phone_status}
use synctang.Status.Backoff.{phone_status_waiting}

phone_status_waiting_example :
    ((phone_status (check_machine (answered (some (some 0))) minute)).state ≡ waiting) ↔ (
      (seen : ℕ) × (answered (some (some 0)) ≡ answered (some (some seen)))
      × (minute ≤ seen + waiting_record_max_age))
phone_status_waiting_example = phone_status_waiting (answered (some (some 0))) minute
