-- ===== src/Race.antt =====
-- mrcore/transport/multi.go: several transports raced against each other. The goroutines are the legs;
-- their steps, those of the race's own loop and those of `closeLateArrivals` interleave in any order.
pub mod Invariant
mod Leak
pub mod Legs
mod Settling
mod Steps
mod Tests
mod Waiting
use synctang.Race.Legs.{
  set, Leg, running, has_conn, has_err, pausing, idle, handed, closed, cancel_all, cancel_except,
}
use synctang.Prelude.{
  ℕ, zero, suc, ◌+◌, ◌-◌, ◌<◌, ◌≡◌, ◌≢◌, Bool, true, false, not, ◌&&◌, ◌==◌, List, [], ◌∷◌, Bytes,
  get_elem?, replicate, if◌then◌else◌, Option, none, some, Result, ok, err,
}
use synctang.Enrol.Entries.{is_empty}

-- How `race` returns.
pub data Outcome : Type 0 where
  won : ℕ → Outcome
  all_failed : Outcome
  -- the context of the caller has ended
  ended : Outcome

pub record Race : Type 0 where
  pub legs : List Leg
  -- whether a leg's context is cancelled
  pub cancelled : List Bool
  pub outstanding : ℕ
  -- whether `lastErr` has an entry of the leg
  pub last_err : List Bool
  pub returned : Option Outcome
  -- the results that `closeLateArrivals` has still to receive
  pub late : ℕ

pub data RaceError : Type 0 where
  no_transports : RaceError
  no_peer_id : RaceError

-- Every leg launched.
abbrev pub started : ℕ → Race
started n = record {
  legs = replicate n running;
  cancelled = replicate n false;
  outstanding = n;
  last_err = replicate n false;
  returned = none;
  late = 0;
}

-- `race` up to its loop, and `Dial` with its check of the peer.
unfoldable pub start_race : ℕ → Result RaceError Race
start_race n = if n == 0 then err no_transports else ok (started n)

unfoldable pub start_dial : Bytes → ℕ → Result RaceError Race
unfolding start_race
start_dial peer_id n = if is_empty peer_id then err no_peer_id else start_race n

abbrev pub all_set : List Bool → Bool
all_set [] = true
all_set (b ∷ bs) = b && all_set bs

-- A result is put into the channel.
unfoldable pub report_result : ℕ → Leg → Race → Race
report_result i l s = record s { legs = set s.legs i l }

-- The branch `r.err == nil` of the loop.
unfoldable pub take_win : ℕ → Race → Race
take_win i s = record s {
  legs = set s.legs i handed;
  cancelled = cancel_except i s.cancelled;
  outstanding = s.outstanding - 1;
  returned = some (won i);
  late = s.outstanding - 1;
}

-- `finished`
abbrev pub finished : ℕ → Race → Bool
finished i s = all_set (set s.last_err i true) && (s.outstanding - 1) == 0

-- The branch of a failed attempt; `retry` is `retryFailed`.
unfoldable pub take_failure : Bool → ℕ → Race → Race
take_failure retry i s = record s {
  legs = set s.legs i (if retry then pausing else idle);
  cancelled = set s.cancelled i true;
  outstanding = s.outstanding - 1;
  last_err = set s.last_err i true;
  returned = if retry then none else if finished i s then some all_failed else none;
}

abbrev pub has_ended : Option Outcome → Bool
has_ended none = false
has_ended (some (won i)) = false
has_ended (some all_failed) = false
has_ended (some ended) = true

-- `launch`, from the goroutine that has waited for the retry interval. Once the caller's context has
-- ended, the goroutine may also stop instead, and what it launches is cancelled from the start.
unfoldable pub relaunch : ℕ → Race → Race
relaunch i s = record s {
  legs = set s.legs i running;
  cancelled = set s.cancelled i (has_ended s.returned);
  outstanding = s.outstanding + 1;
}

-- The branch `ctx.Done()`.
unfoldable pub end_race : Race → Race
end_race s = record s { cancelled = cancel_all s.cancelled; returned = some ended }

-- One round of `closeLateArrivals`.
unfoldable pub close_late : ℕ → Leg → Race → Race
close_late i l s = record s { legs = set s.legs i l; late = s.late - 1 }

-- The steps of the goroutines. What an attempt gives, and when, is left open: an attempt that is
-- cancelled may still succeed. `ctx` says whether the context of the caller may end.
pub data Step (retry ctx : Bool) (s : Race) : Race → Type 0 where
  arrive :
      (i : ℕ) → get_elem? s.legs i ≡ some running → Step retry ctx s (report_result i has_conn s)
  fail : (i : ℕ) → get_elem? s.legs i ≡ some running → Step retry ctx s (report_result i has_err s)
  win :
      (i : ℕ)
      → s.returned ≡ none
      → get_elem? s.legs i ≡ some has_conn
      → Step retry ctx s (take_win i s)
  lose :
      (i : ℕ)
      → s.returned ≡ none
      → get_elem? s.legs i ≡ some has_err
      → Step retry ctx s (take_failure retry i s)
  again : (i : ℕ) → get_elem? s.legs i ≡ some pausing → Step retry ctx s (relaunch i s)
  finish : ctx ≡ true → s.returned ≡ none → Step retry ctx s (end_race s)
  drain_conn :
      (i : ℕ)
      → 0 < s.late
      → get_elem? s.legs i ≡ some has_conn
      → Step retry ctx s (close_late i closed s)
  drain_err :
      (i : ℕ)
      → 0 < s.late
      → get_elem? s.legs i ≡ some has_err
      → Step retry ctx s (close_late i idle s)

-- The states after `k` steps.
pub data Reach (retry ctx : Bool) (n : ℕ) : ℕ → Race → Type 0 where
  start : Reach retry ctx n 0 (started n)
  next :
      {k : ℕ} {s t : Race}
      → Reach retry ctx n k s
      → Step retry ctx s t
      → Reach retry ctx n (suc k) t
