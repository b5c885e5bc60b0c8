-- ===== src/Race/Waiting.antt =====
-- A listener that waits: its failed legs are launched again.
use synctang.Race.Legs.{
  set, get_elem?-set, length-set, Leg, running, has_conn, has_err, pausing, idle, handed, closed,
  get_elem?-replicate, length-replicate,
}
use synctang.Race.{
  Race, Outcome, won, started, report_result, take_win, take_failure, relaunch, end_race,
  close_late, Step, arrive, fail, win, lose, again, finish, drain_conn, drain_err, Reach, start,
  next,
}
use synctang.Prelude.{
  ℕ, zero, suc, ◌<◌, ◌≡◌, ◌≢◌, refl, sym, ◌∙◌, Bool, true, false, List, [], ◌∷◌, get_elem?, length,
  none, some, arith,
}

-- A leg of which something is still to come.
abbrev pub busy : Leg → Bool
busy running = true
busy has_conn = true
busy has_err = true
busy pausing = true
busy idle = false
busy handed = false
busy closed = false

record Waiting (n : ℕ) (s : Race) : Type 0 where
  size : length s.legs ≡ n
  late_after : s.returned ≡ none → s.late ≡ 0
  all_busy : (i : ℕ) (l : Leg) → s.returned ≡ none → get_elem? s.legs i ≡ some l → busy l ≡ true

started-Waiting : (n : ℕ) → Waiting n (started n)
started-Waiting n = record {
  size = length-replicate n running;
  late_after = λ r. refl;
  all_busy = λ i l r e. ground (arith, get_elem?-replicate n i running l e);
}

module _ (n : ℕ) (s : Race) (w : Waiting n s) where
  -- One leg moves and is busy after it, in a state that has not returned later than the one before.
  move-Waiting :
      (t : Race) (i : ℕ) (l m : Leg)
      → get_elem? s.legs i ≡ some m
      → busy l ≡ true
      → t.legs ≡ set s.legs i l
      → t.returned ≡ s.returned
      → t.late ≡ s.late
      → Waiting n t
  move-Waiting t i l m e b legs same late = record {
    size = rw legs (length-set s.legs i l ∙ w.size);
    late_after = λ r. late ∙ w.late_after (sym same ∙ r);
    all_busy = λ j k r at.
        ground (arith, legs, get_elem?-set s.legs i j l m e, w.all_busy j k (sym same ∙ r));
  }

  -- A step after which the race has returned.
  returned-Waiting :
      (t : Race) (i : ℕ) (l : Leg) (o : Outcome)
      → t.legs ≡ set s.legs i l
      → t.returned ≡ some o
      → Waiting n t
  returned-Waiting t i l o legs r = record {
    size = rw legs (length-set s.legs i l ∙ w.size);
    late_after = λ q. absurd (ground arith);
    all_busy = λ j k q at. absurd (ground arith);
  }

  -- Late results are received only once the race has returned.
  drained-Waiting : (i : ℕ) (l : Leg) → 0 < s.late → Waiting n (close_late i l s)
  unfolding close_late
  drained-Waiting i l lt = record {
    size = length-set s.legs i l ∙ w.size;
    late_after = λ r. absurd (omega (arith, w.late_after r));
    all_busy = λ j k r at. absurd (omega (arith, w.late_after r));
  }

  Step-Waiting : (ctx : Bool) (t : Race) → Step true ctx s t → Waiting n t
  unfolding report_result take_win take_failure relaunch end_race close_late
  Step-Waiting ctx t (arrive i e) = move-Waiting _ i has_conn running e refl refl refl refl
  Step-Waiting ctx t (fail i e) = move-Waiting _ i has_err running e refl refl refl refl
  Step-Waiting ctx t (win i r e) = returned-Waiting _ i handed (won i) refl refl
  Step-Waiting ctx t (lose i r e) = move-Waiting _ i pausing has_err e refl refl (sym r) refl
  Step-Waiting ctx t (again i e) = move-Waiting _ i running pausing e refl refl refl refl
  Step-Waiting ctx t (finish c r) = record {
    size = w.size;
    late_after = λ q. absurd (ground arith);
    all_busy = λ j k q at. absurd (ground arith);
  }
  Step-Waiting ctx t (drain_conn i lt e) = drained-Waiting i closed lt
  Step-Waiting ctx t (drain_err i lt e) = drained-Waiting i idle lt

reach-Waiting : (ctx : Bool) (n k : ℕ) (s : Race) → Reach true ctx n k s → Waiting n s
reach-Waiting ctx n k s start = started-Waiting n
reach-Waiting ctx n k t (next {k = j} {s = s} r st) =
    Step-Waiting n s (reach-Waiting ctx n j s r) ctx t st

-- The next step of a leg that is busy, and that it moves the leg.
busy-Step :
    (ctx : Bool) (s : Race) (i : ℕ) (l : Leg)
    → s.returned ≡ none
    → get_elem? s.legs i ≡ some l
    → busy l ≡ true
    → (t : Race) × Step true ctx s t × (get_elem? t.legs i ≢ get_elem? s.legs i)
unfolding report_result take_win take_failure relaunch
busy-Step ctx s i running r e b = (
  report_result i has_conn s,
  arrive i e,
  λ same. ground (arith, get_elem?-set s.legs i i has_conn running e),
)
busy-Step ctx s i has_conn r e b =
    (take_win i s, win i r e, λ same. ground (arith, get_elem?-set s.legs i i handed has_conn e))
busy-Step ctx s i has_err r e b = (
  take_failure true i s,
  lose i r e,
  λ same. ground (arith, get_elem?-set s.legs i i pausing has_err e),
)
busy-Step ctx s i pausing r e b =
    (relaunch i s, again i e, λ same. ground (arith, get_elem?-set s.legs i i running pausing e))
busy-Step ctx s i idle r e b = absurd (ground arith)
busy-Step ctx s i handed r e b = absurd (ground arith)
busy-Step ctx s i closed r e b = absurd (ground arith)

in_range : {A : Type 0} (xs : List A) (i : ℕ) → i < length xs → (a : A) × (get_elem? xs i ≡ some a)
in_range [] i h = absurd (omega arith)
in_range (x ∷ xs) zero h = (x, refl)
in_range (x ∷ xs) (suc i) h = in_range xs i (omega arith)

-- A listener that has not returned goes dark on no transport: after any steps of any of them, failures
-- included, every one still has a step of its own, which moves it.
pub listen_keeps_every_leg :
    (ctx : Bool) (n k i : ℕ) (s : Race)
    → Reach true ctx n k s
    → s.returned ≡ none
    → i < n
    → (t : Race) × Step true ctx s t × (get_elem? t.legs i ≢ get_elem? s.legs i)
listen_keeps_every_leg ctx n k i s h r lt =
    let w = reach-Waiting ctx n k s h in
    let (l, e) = in_range s.legs i (omega (arith, w.size)) in
    busy-Step ctx s i l r e (w.all_busy i l r e)
