-- ===== src/Race/Invariant.antt =====
-- What holds in every state of a dial, whose legs are not retried.
use synctang.Race.Legs.{
  sum_over, sum_over-replicate, Leg, running, has_conn, has_err, pausing, idle, handed, closed,
  get_elem?-replicate, get_elem?-replicate-lt,
}
use synctang.Race.{Race, Outcome, won, all_failed, ended, started, all_set}
use synctang.Prelude.{
  ℕ, ◌+◌, ◌*◌, ◌<◌, ◌≡◌, refl, Bool, true, false, List, [], ◌∷◌, get_elem?, replicate, Option, none,
  some, arith,
}

-- The steps that a leg of a dial has still to make.
abbrev pub work : Leg → ℕ
work running = 2
work has_conn = 1
work has_err = 1
work pausing = 0
work idle = 0
work handed = 0
work closed = 0

-- Legs whose result has not been received.
abbrev pub active : Leg → ℕ
active running = 1
active has_conn = 1
active has_err = 1
active pausing = 0
active idle = 0
active handed = 0
active closed = 0

abbrev pub pauses : Leg → ℕ
pauses pausing = 1
pauses running = 0
pauses has_conn = 0
pauses has_err = 0
pauses idle = 0
pauses handed = 0
pauses closed = 0

abbrev pub holds : Leg → ℕ
holds handed = 1
holds running = 0
holds has_conn = 0
holds has_err = 0
holds pausing = 0
holds idle = 0
holds closed = 0

abbrev pub unset : Bool → ℕ
unset true = 0
unset false = 1

pub all_set-sum : (bs : List Bool) → sum_over unset bs ≡ 0 → all_set bs ≡ true
unfolding sum_over
all_set-sum [] h = refl
all_set-sum (true ∷ bs) h = all_set-sum bs (omega arith)
all_set-sum (false ∷ bs) h = absurd (omega arith)

-- While the race goes on: every leg without a result is recorded, live and counted.
pub record Going (s : Race) : Type 0 where
  pub counted : s.outstanding ≡ sum_over active s.legs
  pub unreported : s.outstanding ≡ sum_over unset s.last_err
  pub some_left : 0 < s.outstanding
  pub none_held : sum_over holds s.legs ≡ 0
  pub not_late : s.late ≡ 0
  pub live :
      (i : ℕ) (l : Leg)
      → get_elem? s.legs i ≡ some l
      → active l ≡ 1
      → (get_elem? s.cancelled i ≡ some false) × (get_elem? s.last_err i ≡ some false)

-- After a win: what has not been received is what will be drained, and the winner alone is held, under
-- a context that nobody has cancelled.
pub record Won (w : ℕ) (s : Race) : Type 0 where
  pub draining : s.late ≡ sum_over active s.legs
  pub one_held : sum_over holds s.legs ≡ 1
  pub winner : get_elem? s.legs w ≡ some handed
  pub winner_live : get_elem? s.cancelled w ≡ some false

pub record Failed (s : Race) : Type 0 where
  pub nothing_left : sum_over active s.legs ≡ 0
  pub nothing_held : sum_over holds s.legs ≡ 0

abbrev pub Standing : Option Outcome → Race → Type 0
Standing none s = Going s
Standing (some (won w)) s = Won w s
Standing (some all_failed) s = Failed s
Standing (some ended) s = ⊥

pub record DialInv (n k : ℕ) (s : Race) : Type 0 where
  pub budget : sum_over work s.legs + k ≡ 2 * n
  pub no_pause : sum_over pauses s.legs ≡ 0
  pub standing : Standing s.returned s

started_live :
    (n i : ℕ) (l : Leg)
    → get_elem? (replicate n running) i ≡ some l
    → (get_elem? (replicate n false) i ≡ some false)
      × (get_elem? (replicate n false) i ≡ some false)
started_live n i l h =
    let (e, lt) = get_elem?-replicate n i running l h in
    (get_elem?-replicate-lt n i false lt, get_elem?-replicate-lt n i false lt)

pub started-DialInv : (n : ℕ) → 0 < n → DialInv n 0 (started n)
started-DialInv n h = record {
  budget = omega (arith, sum_over-replicate work n running);
  no_pause = omega (arith, sum_over-replicate pauses n running);
  standing = record {
    counted = omega (arith, sum_over-replicate active n running);
    unreported = omega (arith, sum_over-replicate unset n false);
    some_left = h;
    none_held = omega (arith, sum_over-replicate holds n running);
    not_late = refl;
    live = λ i l h a. started_live n i l h;
  };
}
