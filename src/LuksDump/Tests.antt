-- ===== src/LuksDump/Tests.antt =====
-- A dump in the layout of cryptsetup's, with a token of this program, one of another, and two keyslots.
use synctang.LuksDump.{
  newline, section_loop, parse_section, entry_of, entry_ids, used_keyslots, lowest_free_keyslot,
  token_ids_of_type,
}
use synctang.LuksDump.Slots.{Search, lowest_free_keyslot-Search}
use synctang.LuksDump.Sections.{Outline, lines_of, titled, parse_section-Outline}
use synctang.Prelude.{◌≡◌, refl, List, [], ◌∷◌, ◌++◌, Bytes, codes, some}
use synctang.Text.{pos, split, join, trim_space, has_prefix, cut, atoi}

-- The dump starts with the lines of its head, one of which names an area "Keyslots area:".
abbrev dump_lines : List Bytes
dump_lines =
    codes "LUKS header information"
    ∷ codes "Version:       \t2"
    ∷ codes "Keyslots area: \t16744448 [bytes]"
    ∷ []
    ∷ codes "Data segments:"
    ∷ codes "  0: crypt"
    ∷ codes "\toffset: 16777216 [bytes]"
    ∷ []
    ∷ codes "Keyslots:"
    ∷ codes "  0: luks2"
    ∷ codes "\tKey:        512 bits"
    ∷ codes "  2: luks2"
    ∷ codes "Tokens:"
    ∷ codes "  0: clevis"
    ∷ codes "  1: mr-1"
    ∷ codes "\tKeyslot:    2"
    ∷ codes "Digests:"
    ∷ codes "  0: pbkdf2"
    ∷ []
    ∷ []

abbrev dump : Bytes
dump = join newline dump_lines

used_run : used_keyslots dump ≡ pos 0 ∷ pos 2 ∷ []
unfolding used_keyslots parse_section section_loop entry_ids entry_of split join trim_space
    has_prefix cut atoi
used_run = refl

tokens_run : token_ids_of_type dump (codes "mr-1") ≡ pos 1 ∷ []
unfolding token_ids_of_type parse_section section_loop entry_ids entry_of split join trim_space
    has_prefix cut atoi
tokens_run = refl

lowest_run : lowest_free_keyslot dump ≡ some 1
unfolding lowest_free_keyslot used_keyslots parse_section section_loop entry_ids entry_of split join
    trim_space has_prefix cut atoi
lowest_run = refl

lowest_free_keyslot-Search_example : Search (used_keyslots dump) 0 32 (lowest_free_keyslot dump)
lowest_free_keyslot-Search_example = lowest_free_keyslot-Search dump

sections_run :
    parse_section dump (codes "Tokens")
    ≡ codes "  0: clevis" ∷ codes "  1: mr-1" ∷ codes "\tKeyslot:    2" ∷ []
unfolding parse_section section_loop split join trim_space
sections_run = refl

parse_section-Outline_example :
    (o : Outline (split newline dump)) × (join newline (o.before ++ lines_of o.sections) ≡ dump)
    × (parse_section dump (codes "Tokens") ≡ titled (codes "Tokens") o.sections)
parse_section-Outline_example = parse_section-Outline dump (codes "Tokens")
