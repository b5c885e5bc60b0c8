-- ===== src/Race/Leak.antt =====
-- What becomes of a leg that is launched again after the race has returned.
use synctang.Race.Legs.{set, get_elem?-set, Leg, running, has_conn, has_err, pausing}
use synctang.Race.{
  Race, won, report_result, take_win, take_failure, relaunch, end_race, close_late, Step, arrive,
  fail, win, lose, again, finish, drain_conn, drain_err,
}
use synctang.Prelude.{
  ℕ, zero, suc, ◌≡◌, ◌≢◌, refl, ◌∙◌, Bool, true, false, List, [], ◌∷◌, get_elem?, some, arith,
}

-- The states that a state leads to.
pub data Later (retry ctx : Bool) (s : Race) : Race → Type 0 where
  now : Later retry ctx s s
  then_step : {t u : Race} → Later retry ctx s t → Step retry ctx t u → Later retry ctx s u

-- Clearing one flag leaves a clear flag clear.
set-false :
    (bs : List Bool) (i j : ℕ)
    → get_elem? bs i ≡ some false
    → get_elem? (set bs j false) i ≡ some false
set-false [] i j h = h
set-false (b ∷ bs) zero zero h = refl
set-false (b ∷ bs) zero (suc j) h = h
set-false (b ∷ bs) (suc i) zero h = h
set-false (b ∷ bs) (suc i) (suc j) h = set-false bs i j h

Later-trans :
    (retry ctx : Bool) (s t u : Race)
    → Later retry ctx s t
    → Later retry ctx t u
    → Later retry ctx s u
Later-trans retry ctx s t u a now = a
Later-trans retry ctx s t u a (then_step {t = v} b st) =
    then_step (Later-trans retry ctx s t v a b) st

-- A connection that nobody takes and nobody closes, under a context that nobody cancels.
record Leaked (o : ℕ) (i : ℕ) (s : Race) : Type 0 where
  done : s.returned ≡ some (won o)
  drained : s.late ≡ 0
  waits : get_elem? s.legs i ≡ some has_conn
  live : get_elem? s.cancelled i ≡ some false

module _ (o : ℕ) (i : ℕ) (s : Race) (h : Leaked o i s) where
  move-Leaked :
      (t : Race) (j : ℕ) (l m : Leg)
      → get_elem? s.legs j ≡ some m
      → m ≢ has_conn
      → t.legs ≡ set s.legs j l
      → t.returned ≡ s.returned
      → t.late ≡ s.late
      → get_elem? t.cancelled i ≡ some false
      → Leaked o i t
  move-Leaked t j l m e other legs same late c = record {
    done = same ∙ h.done;
    drained = late ∙ h.drained;
    waits = ground (arith, legs, get_elem?-set s.legs j i l m e, h.waits);
    live = c;
  }

  Step-Leaked : (ctx : Bool) (t : Race) → Step true ctx s t → Leaked o i t
  unfolding report_result take_win take_failure relaunch end_race close_late
  Step-Leaked ctx t (arrive j e) =
      move-Leaked _ j has_conn running e (λ q. ground arith) refl refl refl h.live
  Step-Leaked ctx t (fail j e) =
      move-Leaked _ j has_err running e (λ q. ground arith) refl refl refl h.live
  Step-Leaked ctx t (win j r e) = absurd (ground (arith, h.done))
  Step-Leaked ctx t (lose j r e) = absurd (ground (arith, h.done))
  Step-Leaked ctx t (again j e) =
      move-Leaked _ j running pausing e (λ q. ground arith) refl refl refl
        (rw h.done (set-false s.cancelled i j h.live))
  Step-Leaked ctx t (finish c r) = absurd (ground (arith, h.done))
  Step-Leaked ctx t (drain_conn j lt e) = absurd (omega (arith, h.drained))
  Step-Leaked ctx t (drain_err j lt e) = absurd (omega (arith, h.drained))

Later-Leaked :
    (o : ℕ) (i : ℕ) (ctx : Bool) (s t : Race) → Leaked o i s → Later true ctx s t → Leaked o i t
Later-Leaked o i ctx s t h now = h
Later-Leaked o i ctx s u h (then_step {t = t} r st) =
    Step-Leaked o i t (Later-Leaked o i ctx s t h r) ctx u st

-- A listener has returned a winner and every late result has been received, but a leg that failed
-- before is still waiting to be launched again. Then it is launched, under a context that nobody has
-- cancelled, and as long as the caller's context goes on, a connection that it delivers is never handed
-- over nor closed, nor is its context cancelled.
pub relaunched_leg_leaks :
    (ctx : Bool) (o : ℕ) (i : ℕ) (b : Bool) (s t : Race)
    → s.returned ≡ some (won o)
    → s.late ≡ 0
    → get_elem? s.legs i ≡ some pausing
    → get_elem? s.cancelled i ≡ some b
    → Later true ctx (report_result i has_conn (relaunch i s)) t
    → Later true ctx s t
      × (get_elem? t.legs i ≡ some has_conn)
      × (get_elem? t.cancelled i ≡ some false)
unfolding report_result relaunch
relaunched_leg_leaks ctx o i b s t done drained e c r =
    let ran = get_elem?-set s.legs i i running pausing e in
    let at : get_elem? (set s.legs i running) i ≡ some running = ground (arith, ran) in
    let l : Leaked o i (report_result i has_conn (relaunch i s)) = record {
      done = done;
      drained = drained;
      waits = ground (arith, get_elem?-set (set s.legs i running) i i has_conn running at);
      live = ground (arith, done, get_elem?-set s.cancelled i i false b c);
    } in
    let out = Later-Leaked o i ctx _ t l r in
    (
      Later-trans true ctx s _ t (then_step (then_step now (again i e)) (arrive i at)) r,
      out.waits,
      out.live,
    )
