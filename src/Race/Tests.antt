-- ===== src/Race/Tests.antt =====
-- Runs of a race of two transports, and the theorems at those runs.
use synctang.Race.{
  Race, won, no_transports, no_peer_id, started, start_race, start_dial, report_result, take_win,
  take_failure, relaunch, Step, arrive, fail, win, lose, Reach, start, next,
}
use synctang.Race.Leak.{Later, now, relaunched_leg_leaks}
use synctang.Race.Legs.{has_conn, has_err, idle, handed, pausing}
use synctang.Race.Settling.{dial_settles, Settles, CanStep}
use synctang.Race.Waiting.{listen_keeps_every_leg}
use synctang.Prelude.{
  ◌*◌, ◌≤◌, ◌≡◌, ◌≢◌, refl, ◌⊎◌, false, true, [], ◌∷◌, ok, err, some, none, get_elem?, arith, codes,
}

no_transports_run : start_race 0 ≡ err no_transports
unfolding start_race
no_transports_run = refl

no_peer_run : start_dial [] 2 ≡ err no_peer_id
unfolding start_dial
no_peer_run = refl

start_run : start_dial (codes "peer") 2 ≡ ok (started 2)
unfolding start_dial start_race
start_run = refl

-- The first transport fails and its failure is received; the second delivers.
abbrev one_failed : Race
one_failed = take_failure false 0 (report_result 0 has_err (started 2))

abbrev second_delivers : Race
second_delivers = take_win 1 (report_result 1 has_conn one_failed)

second_delivers_run : Reach false false 2 4 second_delivers
unfolding report_result take_failure take_win
second_delivers_run =
    next (next (next (next start (fail 0 refl)) (lose 0 refl refl)) (arrive 1 refl))
      (win 1 refl refl)

legs_run : second_delivers.legs ≡ idle ∷ handed ∷ []
unfolding report_result take_failure take_win
legs_run = refl

dial_settles_example :
    (4 ≤ 2 * 2)
    × (Settles second_delivers.returned second_delivers ⊎ CanStep false false second_delivers)
dial_settles_example = dial_settles 2 4 second_delivers (omega arith) second_delivers_run

-- A listener in the same order of events.
abbrev first_pauses : Race
first_pauses = take_failure true 0 (report_result 0 has_err (started 2))

first_pauses_run : Reach true true 2 2 first_pauses
unfolding report_result take_failure
first_pauses_run = next (next start (fail 0 refl)) (lose 0 refl refl)

not_returned : first_pauses.returned ≡ none
unfolding report_result take_failure
not_returned = refl

listen_keeps_every_leg_example :
    (t : Race) × Step true true first_pauses t
    × (get_elem? t.legs 0 ≢ get_elem? first_pauses.legs 0)
listen_keeps_every_leg_example =
    listen_keeps_every_leg true 2 2 0 first_pauses first_pauses_run not_returned (omega arith)

-- The second transport wins while the first is between two attempts.
abbrev listened : Race
listened = take_win 1 (report_result 1 has_conn first_pauses)

listened_run : Reach true true 2 4 listened
unfolding report_result take_failure take_win
listened_run = next (next first_pauses_run (arrive 1 refl)) (win 1 refl refl)

listened_returned : listened.returned ≡ some (won 1)
unfolding report_result take_failure take_win
listened_returned = refl

listened_drained : listened.late ≡ 0
unfolding report_result take_failure take_win
listened_drained = refl

listened_pausing : get_elem? listened.legs 0 ≡ some pausing
unfolding report_result take_failure take_win
listened_pausing = refl

listened_cancelled : get_elem? listened.cancelled 0 ≡ some true
unfolding report_result take_failure take_win
listened_cancelled = refl

abbrev leaked : Race
leaked = report_result 0 has_conn (relaunch 0 listened)

relaunched_leg_leaks_example :
    Later true true listened leaked
    × (get_elem? leaked.legs 0 ≡ some has_conn)
    × (get_elem? leaked.cancelled 0 ≡ some false)
relaunched_leg_leaks_example =
    relaunched_leg_leaks true 1 0 true listened leaked listened_returned listened_drained
      listened_pausing listened_cancelled now
