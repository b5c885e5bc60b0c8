-- ===== src/Progress.antt =====
-- mobile/progress.go: how far a dial has got, reported by the legs of a race in any order. The log and
-- the clock readings are left out.
mod Tests
pub mod Stages
use synctang.Prelude.{
  ℕ, ◌+◌, Bool, true, false, ◌==◌, List, [], ◌∷◌, ◌++◌, Bytes, ltb, if◌then◌else◌, Option, none,
  some,
}
use synctang.Enrol.Entries.{is_empty}

abbrev pub stage_looking_up : ℕ
stage_looking_up = 2

abbrev pub stage_connecting : ℕ
stage_connecting = 3

abbrev pub stage_checking_identity : ℕ
stage_checking_identity = 4

pub data Route : Type 0 where
  relay local direct : Route

pub data DialPhase : Type 0 where
  lookup connect handshake : DialPhase

pub record Progress : Type 0 where
  pub stage : ℕ
  pub attempt : ℕ
  -- `none` is RouteUnknown
  pub route : Option Route
  pub leg_route : List (ℕ × Route)
  -- every distinct stage, in order
  pub stages : List ℕ

unfoldable pub set_locked : ℕ → Progress → Progress
set_locked stage p = if stage == p.stage then p else record {
  stage = stage;
  attempt = p.attempt;
  route = p.route;
  leg_route = p.leg_route;
  stages = p.stages ++ (stage ∷ []);
}

unfoldable pub advance : ℕ → Progress → Progress
unfolding set_locked
advance stage p = if ltb p.stage stage then set_locked stage p else p

unfoldable pub begin_attempt : ℕ → Progress → Progress
unfolding set_locked
begin_attempt first p = set_locked first (record {
  stage = p.stage;
  attempt = p.attempt + 1;
  route = p.route;
  leg_route = [];
  stages = p.stages;
})

abbrev pub stage_of_phase : DialPhase → ℕ
stage_of_phase lookup = stage_looking_up
stage_of_phase connect = stage_connecting
stage_of_phase handshake = stage_checking_identity

-- `legRoute[leg] = route` and the advance of the stage, in one step; the latest entry of a leg comes
-- first.
unfoldable pub dial_hook : ℕ → Route → DialPhase → Progress → Progress
unfolding advance
dial_hook leg route phase p = advance (stage_of_phase phase) (record {
  stage = p.stage;
  attempt = p.attempt;
  route = p.route;
  leg_route = (leg, route) ∷ p.leg_route;
  stages = p.stages;
})

unfoldable pub route_of_leg : ℕ → List (ℕ × Route) → Option Route
route_of_leg leg [] = none
route_of_leg leg ((l, r) ∷ rest) =
    let later = route_of_leg leg rest in if l == leg then some r else later

unfoldable pub won : ℕ → Progress → Progress
unfolding route_of_leg
won leg p = elim (route_of_leg leg p.leg_route) [
  | none ↦ p
  | some r ↦ record {
    stage = p.stage;
    attempt = p.attempt;
    route = some r;
    leg_route = p.leg_route;
    stages = p.stages;
  }
]

unfoldable pub first_stage : Bytes → ℕ
first_stage direct_addr = if is_empty direct_addr then stage_looking_up else stage_connecting
