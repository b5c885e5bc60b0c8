-- ===== src/Progress/Tests.antt =====
-- Two legs of a race whose reports interleave.
use synctang.Progress.{Progress, relay, local, lookup, connect}
use synctang.Progress.Stages.{Report, phase, winner, apply_all, Climb, apply_all-Climb}
use synctang.Prelude.{List, [], ◌∷◌, none}

abbrev begun : Progress
begun = record { stage = 2; attempt = 1; route = none; leg_route = []; stages = 1 ∷ 2 ∷ [] }

abbrev reports : List Report
reports = phase 0 relay connect ∷ phase 1 local lookup ∷ winner 1 ∷ []

apply_all-Climb_example : Climb begun (apply_all reports begun)
apply_all-Climb_example = apply_all-Climb reports begun
