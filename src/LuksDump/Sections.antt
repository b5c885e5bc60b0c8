-- ===== src/LuksDump/Sections.antt =====
-- What `parseSection` (cmd/synctang-unlocker/luksdump.go) reads from a dump, seen as unindented lines
-- with the indented lines that follow each of them.
use synctang.LuksDump.{newline, colon, is_heading, section_loop, parse_section}
use synctang.Prelude.{
  ◌≡◌, refl, sym, ap, ◌∙◌, Bool-cases, inl, inr, true, false, List, [], ◌∷◌, ◌++◌, Bytes, bytes_eq,
  All, Bool, if◌then◌else◌,
}
use synctang.Text.{split, join, join-split, trim_space}

-- An unindented line, blank or not, and the indented ones below it.
pub record Section : Type 0 where
  pub title : Bytes
  pub lines : List Bytes

abbrev pub IsIndented : Bytes → Type 0
IsIndented l = is_heading l ≡ false

pub record IsSection (s : Section) : Type 0 where
  pub unindented : is_heading s.title ≡ true
  pub indented : All IsIndented s.lines

abbrev pub lines_of : List Section → List Bytes
lines_of [] = []
lines_of (s ∷ ss) = s.title ∷ (s.lines ++ lines_of ss)

-- The indented lines of the sections whose title is the heading and a colon, but for white space at its
-- ends, in order.
abbrev pub titled : Bytes → List Section → List Bytes
titled heading [] = []
titled heading (s ∷ ss) =
    let later = titled heading ss in
    if bytes_eq (trim_space s.title) (heading ++ (colon ∷ [])) then s.lines ++ later else later

kept_lines :
    (heading : Bytes) (inside : Bool) (ls rest : List Bytes)
    → All IsIndented ls
    → section_loop heading inside (ls ++ rest) ≡ (
        if inside then ls ++ section_loop heading inside rest else section_loop heading inside rest)
unfolding section_loop
kept_lines heading true [] rest h = refl
kept_lines heading false [] rest h = refl
kept_lines heading true (l ∷ ls) rest (h, hs) =
    rw h (ap (λ (t : List Bytes). l ∷ t) (kept_lines heading true ls rest hs))
kept_lines heading false (l ∷ ls) rest (h, hs) = rw h (kept_lines heading false ls rest hs)

section_loop-lines_of :
    (heading : Bytes) (ss : List Section) (inside : Bool)
    → All IsSection ss
    → section_loop heading inside (lines_of ss) ≡ titled heading ss
unfolding section_loop
section_loop-lines_of heading [] inside h = refl
section_loop-lines_of heading (s ∷ ss) inside (h, hs) =
    let opened = bytes_eq (trim_space s.title) (heading ++ (colon ∷ [])) in
    rw h.unindented (
      kept_lines heading opened s.lines (lines_of ss) h.indented
      ∙ rw (section_loop-lines_of heading ss opened hs))

-- Every list of lines is some indented ones and then sections.
pub record Outline (lines : List Bytes) : Type 0 where
  pub before : List Bytes
  pub sections : List Section
  pub before_indented : All IsIndented before
  pub are_sections : All IsSection sections
  pub spelled : lines ≡ before ++ lines_of sections

pub outline : (lines : List Bytes) → Outline lines
outline [] = record {
  before = [];
  sections = [];
  before_indented = tt;
  are_sections = tt;
  spelled = refl;
}
outline (l ∷ lines) = add (outline lines)
  where
    add : Outline lines → Outline (l ∷ lines)
    add o = elim (Bool-cases (is_heading l)) [
      | inl e ↦ record {
        before = [];
        sections = record { title = l; lines = o.before } ∷ o.sections;
        before_indented = tt;
        are_sections = (record { unindented = e; indented = o.before_indented }, o.are_sections);
        spelled = ap (λ (t : List Bytes). l ∷ t) o.spelled;
      }
      | inr e ↦ record {
        before = l ∷ o.before;
        sections = o.sections;
        before_indented = (e, o.before_indented);
        are_sections = o.are_sections;
        spelled = ap (λ (t : List Bytes). l ∷ t) o.spelled;
      }
    ]

section_loop-Outline :
    (heading : Bytes) (lines : List Bytes) (o : Outline lines)
    → section_loop heading false lines ≡ titled heading o.sections
section_loop-Outline heading lines o =
    ap (λ (ls : List Bytes). section_loop heading false ls) o.spelled
    ∙ kept_lines heading false o.before (lines_of o.sections) o.before_indented
    ∙ section_loop-lines_of heading o.sections false o.are_sections

-- Every dump is made of lines, of which some indented ones come first, and then sections: an
-- unindented line, blank or not, with the indented lines below it. `parseSection` returns the indented
-- lines of exactly those sections whose unindented line is the heading and a colon, but for white space
-- at its ends, in their order.
pub parse_section-Outline :
    (dump heading : Bytes)
    → (o : Outline (split newline dump)) × (join newline (o.before ++ lines_of o.sections) ≡ dump)
      × (parse_section dump heading ≡ titled heading o.sections)
unfolding parse_section
parse_section-Outline dump heading =
    let o = outline (split newline dump) in
    (
      o,
      ap (λ (ls : List Bytes). join newline ls) (sym o.spelled) ∙ join-split newline dump,
      section_loop-Outline heading (split newline dump) o,
    )
