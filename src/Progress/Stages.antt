-- ===== src/Progress/Stages.antt =====
-- The stages within one attempt and across attempts.
use synctang.Progress.{
  Progress, Route, DialPhase, set_locked, advance, begin_attempt, dial_hook, won, route_of_leg,
}
use synctang.Prelude.{
  ℕ, ◌+◌, ◌<◌, ◌≡◌, refl, sym, ap, subst, ◌∙◌, List, [], ◌∷◌, ◌++◌, Option-cases, arith, inl, inr,
  ◌⊎◌,
}

-- One call on the record of a dial: the calls of one attempt come from its legs in any order.
pub data Report : Type 0 where
  phase : ℕ → Route → DialPhase → Report
  reached : ℕ → Report
  winner : ℕ → Report

unfoldable pub apply_report : Report → Progress → Progress
unfolding dial_hook advance won
apply_report (phase leg route ph) p = dial_hook leg route ph p
apply_report (reached stage) p = advance stage p
apply_report (winner leg) p = won leg p

unfoldable pub apply_all : List Report → Progress → Progress
unfolding apply_report
apply_all [] p = p
apply_all (r ∷ rs) p = apply_all rs (apply_report r p)

-- Each stage of the list is later than the one before it; the first is later than the bound.
abbrev pub RisesFrom : ℕ → List ℕ → Type 0
RisesFrom lo [] = Unit {0}
RisesFrom lo (s ∷ ss) = (lo < s) × RisesFrom s ss

-- Where a list of rising stages has got to.
abbrev pub last_stage : ℕ → List ℕ → ℕ
last_stage lo [] = lo
last_stage lo (s ∷ ss) = last_stage s ss

-- What a step adds to the history: nothing, or one stage, which is later.
Steps : Progress → Progress → Type 0
Steps p q =
    ((q.stage ≡ p.stage) × (q.stages ≡ p.stages) × (q.attempt ≡ p.attempt))
    ⊎ ((p.stage < q.stage) × (q.stages ≡ p.stages ++ (q.stage ∷ [])) × (q.attempt ≡ p.attempt))

apply_report-Steps : (r : Report) (p : Progress) → Steps p (apply_report r p)
unfolding apply_report dial_hook advance won set_locked Steps
apply_report-Steps (phase leg route ph) p = ground arith
apply_report-Steps (reached stage) p = ground arith
apply_report-Steps (winner leg) p = elim (Option-cases (route_of_leg leg p.leg_route)) [
  | inl missing ↦ ground arith
  | inr (r, e) ↦ ground arith
]

-- What the calls of one attempt add to the history.
pub record Climb (p q : Progress) : Type 0 where
  pub added : List ℕ
  pub history : q.stages ≡ p.stages ++ added
  pub rises : RisesFrom p.stage added
  pub ends : last_stage p.stage added ≡ q.stage
  pub same_attempt : q.attempt ≡ p.attempt

append_nil : (xs : List ℕ) → xs ++ [] ≡ xs
append_nil [] = refl
append_nil (x ∷ xs) = ap (λ (t : List ℕ). x ∷ t) (append_nil xs)

append_assoc : (xs ys zs : List ℕ) → (xs ++ ys) ++ zs ≡ xs ++ (ys ++ zs)
append_assoc [] ys zs = refl
append_assoc (x ∷ xs) ys zs = ap (λ (t : List ℕ). x ∷ t) (append_assoc xs ys zs)

Climb-step : (p q r : Progress) → Steps p q → Climb q r → Climb p r
unfolding Steps
Climb-step p q r (inl (same, history, attempt)) c = record {
  added = c.added;
  history = c.history ∙ ap (λ (t : List ℕ). t ++ c.added) history;
  rises = subst (λ lo. RisesFrom lo c.added) same c.rises;
  ends = subst (λ lo. last_stage lo c.added ≡ r.stage) same c.ends;
  same_attempt = c.same_attempt ∙ attempt;
}
Climb-step p q r (inr (later, history, attempt)) c = record {
  added = q.stage ∷ c.added;
  history =
      c.history
      ∙ (ap (λ (t : List ℕ). t ++ c.added) history ∙ append_assoc p.stages (q.stage ∷ []) c.added);
  rises = (later, c.rises);
  ends = c.ends;
  same_attempt = c.same_attempt ∙ attempt;
}

-- Within one attempt, in whatever order the legs of the race report, the stage only goes up: the
-- calls add to the history a list of stages that rise strictly from where the attempt was to where
-- it has got, and they do not change the number of the attempt.
pub apply_all-Climb : (rs : List Report) (p : Progress) → Climb p (apply_all rs p)
unfolding apply_all
apply_all-Climb [] p = record {
  added = [];
  history = sym (append_nil p.stages);
  rises = tt;
  ends = refl;
  same_attempt = refl;
}
apply_all-Climb (r ∷ rs) p =
    Climb-step p (apply_report r p) (apply_all rs (apply_report r p)) (apply_report-Steps r p)
      (apply_all-Climb rs (apply_report r p))

-- A new attempt is counted, starts at its first stage and knows no leg's route: a leg that has not
-- reported since then cannot be the route that won.
pub begin_attempt_fresh :
    (first leg : ℕ) (p : Progress)
    → ((begin_attempt first p).stage ≡ first)
      × ((begin_attempt first p).attempt ≡ p.attempt + 1)
      × (won leg (begin_attempt first p) ≡ begin_attempt first p)
unfolding begin_attempt set_locked won route_of_leg
begin_attempt_fresh first leg p = ground arith
