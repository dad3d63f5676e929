-- ===== src/Artifacts/Layout/Sections.antt =====
-- The five sections of a witness cover it without gaps, and the allocation of one more slot moves
-- only the sections behind it.
use mavros.Prelude.{ℕ, ◌+◌, ◌<◌, ◌≤◌, ◌≡◌, arith, ltb, if◌then◌else◌}
use mavros.Artifacts.Layout.{
  WitnessLayout, algebraic_start, algebraic_end, multiplicities_start, multiplicities_end,
  challenges_start, challenges_end, tables_data_start, tables_data_end, lookups_data_start,
  lookups_data_end, next_challenge, next_table_data, next_lookups_data, size, pre_commitment_size,
  post_commitment_size,
}

pub data Section : Type 0 where
  algebraic multiplicities challenges tables_data lookups_data outside : Section

-- The section that a witness index lies in, by the section ends.
unfoldable pub section_of : WitnessLayout → ℕ → Section
section_of l i =
    if ltb i (algebraic_end l)
    then algebraic
    else if ltb i (multiplicities_end l)
    then multiplicities
    else if ltb i (challenges_end l)
    then challenges
    else if ltb i (tables_data_end l)
    then tables_data
    else if ltb i (lookups_data_end l)
    then lookups_data
    else outside

-- Where a section starts and how long it is; `outside` starts behind the last one.
unfoldable pub start_of : WitnessLayout → Section → ℕ
start_of l algebraic = algebraic_start l
start_of l multiplicities = multiplicities_start l
start_of l challenges = challenges_start l
start_of l tables_data = tables_data_start l
start_of l lookups_data = lookups_data_start l
start_of l outside = size l

unfoldable pub length_of : WitnessLayout → Section → ℕ
length_of l algebraic = l.algebraic_size
length_of l multiplicities = l.multiplicities_size
length_of l challenges = l.challenges_size
length_of l tables_data = l.tables_data_size
length_of l lookups_data = l.lookups_data_size
length_of l outside = 0

-- Every offset below a section's length, from that section's start, lies in that section and below
-- the size of the witness.
pub section_of-start_of :
    (l : WitnessLayout) (s : Section) (k : ℕ)
    → k < length_of l s
    → (section_of l (start_of l s + k) ≡ s) × (start_of l s + k < size l)
unfolding section_of start_of length_of size
section_of-start_of l algebraic k h = ground arith
section_of-start_of l multiplicities k h = ground arith
section_of-start_of l challenges k h = ground arith
section_of-start_of l tables_data k h = ground arith
section_of-start_of l lookups_data k h = ground arith
section_of-start_of l outside k h = elim h [ ]

-- Every index below the size of the witness is an offset below the length of the section that it
-- lies in, from that section's start.
section_of_bounds :
    (l : WitnessLayout) (i : ℕ)
    → i < size l
    → (start_of l (section_of l i) ≤ i)
      × (i < start_of l (section_of l i) + length_of l (section_of l i))
unfolding section_of start_of length_of size
section_of_bounds l i h = ground arith

-- The witness is the part sent before the challenges and the part after them, and the second part
-- starts at the challenges.
size-commitments :
    (l : WitnessLayout)
    → (size l ≡ pre_commitment_size l + post_commitment_size l)
      × (challenges_start l ≡ pre_commitment_size l)
      × (lookups_data_end l ≡ size l)
unfolding size pre_commitment_size post_commitment_size
size-commitments l = ground arith

-- What the allocation of one more slot of section `s` does: the slot is the one behind the section,
-- it belongs to the section, the size grows by one, and an index `i` of the old layout lies in the
-- same section as before, moved by one from the slot on.
abbrev pub Allocates : Section → WitnessLayout → WitnessLayout × ℕ → ℕ → Type 0
Allocates s l (l', slot) i =
    (slot ≡ start_of l s + length_of l s)
    × (section_of l' slot ≡ s)
    × (size l' ≡ size l + 1)
    × (section_of l' (if ltb i slot then i else i + 1) ≡ section_of l i)

-- `next_challenge`, `next_table_data` and `next_lookups_data` allocate one slot in their section.
pub next-Allocates :
    (l : WitnessLayout) (i : ℕ)
    → Allocates challenges l (next_challenge l) i
      × Allocates tables_data l (next_table_data l) i
      × Allocates lookups_data l (next_lookups_data l) i
unfolding section_of start_of length_of size next_challenge next_table_data next_lookups_data
next-Allocates l i = (
  (ground arith, ground arith, ground arith, ground arith),
  (ground arith, ground arith, ground arith, ground arith),
  (ground arith, ground arith, ground arith, ground arith),
)
