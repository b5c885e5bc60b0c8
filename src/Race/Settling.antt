-- ===== src/Race/Settling.antt =====
-- A dial settles, within two steps of each transport.
use native.Mathlib.Nat.{eq-zero-or-pos}
use synctang.Race.Legs.{
  set, sum_over, sum_over-set, sum_over-zero, Leg, running, has_conn, has_err, pausing, idle,
  handed, closed,
}
use synctang.Race.{
  Race, Outcome, won, all_failed, ended, report_result, take_win, take_failure, close_late, Step,
  arrive, fail, win, lose, again, finish, drain_conn, drain_err, Reach, start, next,
}
use synctang.Race.Invariant.{work, active, pauses, holds, Going, Standing, DialInv, started-DialInv}
use synctang.Race.Steps.{report-Standing, close-Standing, win-Won, lose-Standing}
use synctang.Prelude.{
  ℕ, suc, ◌+◌, ◌*◌, ◌≤◌, ◌<◌, ◌≡◌, refl, subst, Bool, false, List, [], ◌∷◌, get_elem?, Option, none,
  some, arith, ◌⊎◌, inl, inr,
}

module _ (n k : ℕ) (s : Race) (inv : DialInv n k s) where
  -- The work that is left is one less, and no leg pauses.
  module _ (i : ℕ) (l m : Leg) (e : get_elem? s.legs i ≡ some m) where
    less_work : work m ≡ suc (work l) → sum_over work (set s.legs i l) + suc k ≡ 2 * n
    less_work h = omega (arith, sum_over-set work s.legs i l m e, inv.budget)

    no_pauses : pauses l ≡ 0 → sum_over pauses (set s.legs i l) ≡ 0
    no_pauses h = omega (arith, sum_over-set pauses s.legs i l m e, inv.no_pause)

  going : s.returned ≡ none → Going s
  going r = subst (λ (o : Option Outcome). Standing o s) r inv.standing

  Step-DialInv : (t : Race) → Step false false s t → DialInv n (suc k) t
  unfolding report_result take_win take_failure close_late
  Step-DialInv t (arrive i e) = record {
    budget = less_work i has_conn running e refl;
    no_pause = no_pauses i has_conn running e refl;
    standing = report-Standing s i has_conn e s.returned refl refl inv.standing;
  }
  Step-DialInv t (fail i e) = record {
    budget = less_work i has_err running e refl;
    no_pause = no_pauses i has_err running e refl;
    standing = report-Standing s i has_err e s.returned refl refl inv.standing;
  }
  Step-DialInv t (win i r e) = record {
    budget = less_work i handed has_conn e refl;
    no_pause = no_pauses i handed has_conn e refl;
    standing = win-Won s i e (going r);
  }
  Step-DialInv t (lose i r e) = record {
    budget = less_work i idle has_err e refl;
    no_pause = no_pauses i idle has_err e refl;
    standing = lose-Standing s i e (going r);
  }
  Step-DialInv t (again i e) =
      absurd (omega (arith, sum_over-zero pauses s.legs i pausing inv.no_pause e))
  Step-DialInv t (finish c r) = absurd (ground arith)
  Step-DialInv t (drain_conn i lt e) = record {
    budget = less_work i closed has_conn e refl;
    no_pause = no_pauses i closed has_conn e refl;
    standing = close-Standing s i closed has_conn e s.returned refl refl refl refl lt inv.standing;
  }
  Step-DialInv t (drain_err i lt e) = record {
    budget = less_work i idle has_err e refl;
    no_pause = no_pauses i idle has_err e refl;
    standing = close-Standing s i idle has_err e s.returned refl refl refl refl lt inv.standing;
  }

reach-DialInv : (n k : ℕ) (s : Race) → 0 < n → Reach false false n k s → DialInv n k s
reach-DialInv n k s h start = started-DialInv n h
reach-DialInv n k t h (next {k = j} {s = s} r st) =
    Step-DialInv n j s (reach-DialInv n j s h r) t st

-- A leg that has still to be heard of.
find_active :
    (ls : List Leg)
    → 0 < sum_over active ls
    → (i : ℕ) × (l : Leg) × (get_elem? ls i ≡ some l) × (active l ≡ 1)
unfolding sum_over
find_active [] h = absurd (omega arith)
find_active (running ∷ ls) h = (0, running, refl, refl)
find_active (has_conn ∷ ls) h = (0, has_conn, refl, refl)
find_active (has_err ∷ ls) h = (0, has_err, refl, refl)
find_active (pausing ∷ ls) h = let (i, l, e, a) = find_active ls (omega arith) in (suc i, l, e, a)
find_active (idle ∷ ls) h = let (i, l, e, a) = find_active ls (omega arith) in (suc i, l, e, a)
find_active (handed ∷ ls) h = let (i, l, e, a) = find_active ls (omega arith) in (suc i, l, e, a)
find_active (closed ∷ ls) h = let (i, l, e, a) = find_active ls (omega arith) in (suc i, l, e, a)

-- Nothing is left to be done: either the caller holds the one connection of the winner, whose context
-- is live, and every other is closed, or every attempt has failed and nobody holds a connection.
abbrev pub Settles : Option Outcome → Race → Type 0
Settles none s = ⊥
Settles (some (won w)) s =
    (sum_over active s.legs ≡ 0)
    × (sum_over holds s.legs ≡ 1)
    × (get_elem? s.legs w ≡ some handed)
    × (get_elem? s.cancelled w ≡ some false)
Settles (some all_failed) s = (sum_over active s.legs ≡ 0) × (sum_over holds s.legs ≡ 0)
Settles (some ended) s = ⊥

-- A step that the race can make.
abbrev pub CanStep : Bool → Bool → Race → Type 0
CanStep retry ctx s = (t : Race) × Step retry ctx s t

loop_step :
    (s : Race) (i : ℕ) (l : Leg)
    → s.returned ≡ none
    → get_elem? s.legs i ≡ some l
    → active l ≡ 1
    → CanStep false false s
loop_step s i running r e a = (report_result i has_conn s, arrive i e)
loop_step s i has_conn r e a = (take_win i s, win i r e)
loop_step s i has_err r e a = (take_failure false i s, lose i r e)
loop_step s i pausing r e a = absurd (omega arith)
loop_step s i idle r e a = absurd (omega arith)
loop_step s i handed r e a = absurd (omega arith)
loop_step s i closed r e a = absurd (omega arith)

drain_step :
    (s : Race) (i : ℕ) (l : Leg)
    → 0 < s.late
    → get_elem? s.legs i ≡ some l
    → active l ≡ 1
    → CanStep false false s
drain_step s i running r e a = (report_result i has_conn s, arrive i e)
drain_step s i has_conn r e a = (close_late i closed s, drain_conn i r e)
drain_step s i has_err r e a = (close_late i idle s, drain_err i r e)
drain_step s i pausing r e a = absurd (omega arith)
drain_step s i idle r e a = absurd (omega arith)
drain_step s i handed r e a = absurd (omega arith)
drain_step s i closed r e a = absurd (omega arith)

progress :
    (s : Race) (r : Option Outcome)
    → s.returned ≡ r
    → Standing r s
    → Settles r s ⊎ CanStep false false s
progress s none e g =
    let (i, l, at, a) = find_active s.legs (omega (arith, g.counted, g.some_left)) in
    inr (loop_step s i l e at a)
progress s (some (won w)) e g = elim (eq-zero-or-pos (sum_over active s.legs)) [
  | inl z ↦ inl (z, g.one_held, g.winner, g.winner_live)
  | inr p ↦
      let (i, l, at, a) = find_active s.legs p in
      inr (drain_step s i l (omega (arith, g.draining)) at a)
]
progress s (some all_failed) e g = inl (g.nothing_left, g.nothing_held)
progress s (some ended) e g = absurd g

-- A dial whose context does not end makes at most two steps for each transport, and until it is settled
-- it can make one: it settles, with the winner's connection handed over under a live context and any
-- other closed, or with every attempt failed and nothing held.
pub dial_settles :
    (n k : ℕ) (s : Race)
    → 0 < n
    → Reach false false n k s
    → (k ≤ 2 * n) × (Settles s.returned s ⊎ CanStep false false s)
dial_settles n k s h r =
    let inv = reach-DialInv n k s h r in
    (omega (arith, inv.budget), progress s s.returned refl inv.standing)
