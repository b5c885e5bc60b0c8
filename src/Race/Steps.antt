-- ===== src/Race/Steps.antt =====
-- Each step of a dial keeps what stands.
use synctang.Race.Legs.{
  set, get_elem?-set, sum_over, sum_over-set, sum_over-zero, Leg, running, has_conn, has_err, idle,
  handed, get_elem?-cancel_except,
}
use synctang.Race.{
  Race, Outcome, won, all_failed, ended, report_result, take_win, take_failure, finished,
  close_late,
}
use synctang.Race.Invariant.{active, holds, unset, all_set-sum, Going, Won, Failed, Standing}
use synctang.Prelude.{
  ℕ, suc, ◌<◌, ◌≡◌, refl, sym, subst, Bool, Bool-cases, true, false, get_elem?, if◌then◌else◌,
  Option, none, some, arith, inl, inr,
}

module _ (s : Race) (i : ℕ) (l : Leg) (e : get_elem? s.legs i ≡ some running) where
  -- A result put into the channel is still a result to come.
  pub report-Going : active l ≡ 1 → holds l ≡ 0 → Going s → Going (report_result i l s)
  unfolding report_result
  report-Going a h g = record {
    counted = omega (arith, sum_over-set active s.legs i l running e, g.counted);
    unreported = g.unreported;
    some_left = g.some_left;
    none_held = omega (arith, sum_over-set holds s.legs i l running e, g.none_held);
    not_late = g.not_late;
    live = λ j m at act. live_at j m at act;
  }
    where
      live_at :
          (j : ℕ) (m : Leg)
          → get_elem? (set s.legs i l) j ≡ some m
          → active m ≡ 1
          → (get_elem? s.cancelled j ≡ some false) × (get_elem? s.last_err j ≡ some false)
      live_at j m at act =
          ground (arith, get_elem?-set s.legs i j l running e, g.live j m, g.live i running e refl)

  pub report-Won : (w : ℕ) → active l ≡ 1 → holds l ≡ 0 → Won w s → Won w (report_result i l s)
  unfolding report_result
  report-Won w a h g = record {
    draining = omega (arith, sum_over-set active s.legs i l running e, g.draining);
    one_held = omega (arith, sum_over-set holds s.legs i l running e, g.one_held);
    winner = ground (arith, get_elem?-set s.legs i w l running e, g.winner);
    winner_live = g.winner_live;
  }

  pub report-Standing :
      (r : Option Outcome)
      → active l ≡ 1
      → holds l ≡ 0
      → Standing r s
      → Standing r (report_result i l s)
  report-Standing none a h g = report-Going a h g
  report-Standing (some (won w)) a h g = report-Won w a h g
  report-Standing (some all_failed) a h g =
      absurd (omega (arith, sum_over-zero active s.legs i running g.nothing_left e))
  report-Standing (some ended) a h g = g

-- A late result that is received.
module _ (s : Race) (i : ℕ) (l m : Leg) (e : get_elem? s.legs i ≡ some m) where
  pub close-Standing :
      (r : Option Outcome)
      → active m ≡ 1
      → holds m ≡ 0
      → active l ≡ 0
      → holds l ≡ 0
      → 0 < s.late
      → Standing r s
      → Standing r (close_late i l s)
  unfolding close_late
  close-Standing none a h b k lt g = absurd (omega (arith, g.not_late))
  close-Standing (some (won w)) a h b k lt g = record {
    draining = omega (arith, sum_over-set active s.legs i l m e, g.draining);
    one_held = omega (arith, sum_over-set holds s.legs i l m e, g.one_held);
    winner = ground (arith, get_elem?-set s.legs i w l m e, g.winner);
    winner_live = g.winner_live;
  }
  close-Standing (some all_failed) a h b k lt g =
      absurd (omega (arith, sum_over-zero active s.legs i m g.nothing_left e))
  close-Standing (some ended) a h b k lt g = g

pub win-Won :
    (s : Race) (i : ℕ) → get_elem? s.legs i ≡ some has_conn → Going s → Won i (take_win i s)
unfolding take_win
win-Won s i e g = record {
  draining = omega (arith, sum_over-set active s.legs i handed has_conn e, g.counted);
  one_held = omega (arith, sum_over-set holds s.legs i handed has_conn e, g.none_held);
  winner = ground (arith, get_elem?-set s.legs i i handed has_conn e);
  winner_live = ground (arith, get_elem?-cancel_except i s.cancelled, g.live i has_conn e refl);
}

module _ (s : Race) (i : ℕ) (e : get_elem? s.legs i ≡ some has_err) (g : Going s) where
  counted_after : s.outstanding ≡ suc (sum_over active (set s.legs i idle))
  counted_after = omega (arith, sum_over-set active s.legs i idle has_err e, g.counted)

  unset_after : s.outstanding ≡ suc (sum_over unset (set s.last_err i true))
  unset_after =
      omega (
        arith,
        sum_over-set unset s.last_err i true false (g.live i has_err e refl).1,
        g.unreported,
      )

  held_after : sum_over holds (set s.legs i idle) ≡ 0
  held_after = omega (arith, sum_over-set holds s.legs i idle has_err e, g.none_held)

  live_after :
      (j : ℕ) (l : Leg)
      → get_elem? (set s.legs i idle) j ≡ some l
      → active l ≡ 1
      → (get_elem? (set s.cancelled i true) j ≡ some false)
        × (get_elem? (set s.last_err i true) j ≡ some false)
  live_after j l at act = ground (
    arith,
    get_elem?-set s.legs i j idle has_err e,
    get_elem?-set s.cancelled i j true false (g.live i has_err e refl).0,
    get_elem?-set s.last_err i j true false (g.live i has_err e refl).1,
    g.live j l,
  )

  lose-Failed : finished i s ≡ true → Failed (take_failure false i s)
  unfolding take_failure
  lose-Failed f = record { nothing_left = ground (arith, counted_after); nothing_held = held_after }

  lose-Going : finished i s ≡ false → Going (take_failure false i s)
  unfolding take_failure
  lose-Going f = record {
    counted = omega (arith, counted_after);
    unreported = omega (arith, unset_after);
    some_left = ground (arith, all_set-sum (set s.last_err i true), unset_after);
    none_held = held_after;
    not_late = g.not_late;
    live = live_after;
  }

  returned_after :
      (b : Bool)
      → finished i s ≡ b
      → (take_failure false i s).returned ≡ (if b then some all_failed else none)
  unfolding take_failure
  returned_after b f = rw f refl

  -- A failure is final exactly when it is the last.
  pub lose-Standing : Standing (take_failure false i s).returned (take_failure false i s)
  lose-Standing = elim (Bool-cases (finished i s)) [
    | inl f ↦
        subst (λ r. Standing r (take_failure false i s)) (sym (returned_after true f))
          (lose-Failed f)
    | inr f ↦
        subst (λ r. Standing r (take_failure false i s)) (sym (returned_after false f))
          (lose-Going f)
  ]
