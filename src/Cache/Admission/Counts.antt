-- ===== src/Cache/Admission/Counts.antt =====
-- admission.go: what one read does to the counters of a key, and how they make its estimate.
use breakwater.Base.{
  ℕ, ◌+◌, ◌/◌, ◌%◌, ◌^◌, ◌*◌, ◌≤◌, ◌<◌, ◌≡◌, refl, true, false, Bool-cases, inl, inr, List, [], ◌∷◌,
  All, length, min, ltb, leb, arith, if◌then◌else◌,
}
use breakwater.Cache.Admission.{
  Row, Admission, probes, xor_bits, slot, nibble, bump, bump_row, sketch_increment, set_all,
  has_all, door_add, door_has, aged, record_read, lowest_counter, estimate,
}
use breakwater.Cache.Admission.Counters.{and_bits_bounded, nibble-bump, nibble-bump_grows}
use breakwater.Cache.Admission.Door.{has_all_kept, has_all-set_all}
use breakwater.Cache.Admission.Sized.{All-map_pair, IsWide, IsSized}

abbrev pub IsCounted : ℕ → ℕ → ℕ → Row → Type 0
IsCounted k h mask row = k ≤ nibble (slot mask row.seed h) row.cells

abbrev pub IsSeen : ℕ → ℕ → Admission → Type 0
IsSeen k h a = (door_has h a ≡ true) × All (IsCounted k h a.mask) a.rows

lower_above : (k v floor : ℕ) → k ≤ v → k ≤ floor → k ≤ (if ltb v floor then v else floor)
lower_above k v floor a b = ground (arith, a, b)

lower_below : (v floor n : ℕ) → n ≤ (if ltb v floor then v else floor) → n ≤ floor
lower_below v floor n h = ground (arith, h)

lowest_counter_above :
    (k h mask floor : ℕ) (rows : List Row)
    → k ≤ floor
    → All (IsCounted k h mask) rows
    → k ≤ lowest_counter mask h floor rows
unfolding lowest_counter
lowest_counter_above k h mask floor [] low all = low
lowest_counter_above k h mask floor (row ∷ rows) low (here, all) =
    let v = nibble (slot mask row.seed h) row.cells in
    lowest_counter_above k h mask (if ltb v floor then v else floor) rows
      (lower_above k v floor here low) all

pub lowest_counter_below :
    (h mask floor : ℕ) (rows : List Row) → lowest_counter mask h floor rows ≤ floor
unfolding lowest_counter
lowest_counter_below h mask floor [] = omega arith
lowest_counter_below h mask floor (row ∷ rows) =
    let v = nibble (slot mask row.seed h) row.cells in
    lower_below v floor _ (lowest_counter_below h mask (if ltb v floor then v else floor) rows)

slot_bounded : (mask seed h : ℕ) → slot mask seed h ≤ mask
unfolding slot
slot_bounded mask seed h =
    let x = xor_bits 64 h seed * 0x9E3779B97F4A7C15 % 2 ^ 64 in
    and_bits_bounded 64 (xor_bits 64 x (x / 2 ^ 31)) mask

pub estimate-IsSeen : (k h : ℕ) (a : Admission) → k ≤ 15 → IsSeen k h a → k + 1 ≤ estimate h a
unfolding estimate
estimate-IsSeen k h a small (known, rows) =
    rw known (omega (arith, lowest_counter_above k h a.mask 15 a.rows small rows))

min_grows : (k m n : ℕ) → k ≤ m → min (m + 1) 15 ≤ n → min (k + 1) 15 ≤ n
min_grows k m n low up = omega (arith, low, up)

bump_row-IsCounted :
    (k h g mask : ℕ) (row : Row) → IsCounted k h mask row → IsCounted k h mask (bump_row g mask row)
unfolding bump_row
bump_row-IsCounted k h g mask row c =
    omega (arith, c, nibble-bump_grows (slot mask row.seed g) (slot mask row.seed h) row.cells)

bump_row_counts :
    (k h mask : ℕ) (row : Row)
    → IsCounted k h mask row
    → IsWide mask row
    → IsCounted (min (k + 1) 15) h mask (bump_row h mask row)
unfolding bump_row
bump_row_counts k h mask row c wide =
    let index = slot mask row.seed h in
    let inside : index / 2 < length row.cells = omega (arith, slot_bounded mask row.seed h, wide) in
    min_grows k (nibble index row.cells) (nibble index (bump index row.cells)) c
      (nibble-bump index row.cells inside)

module _ (a : Admission) (young : a.incrs + 1 < a.reset_at) where
  aged_young : aged a ≡ record a { incrs = a.incrs + 1 }
  unfolding aged
  aged_young =
      let left : leb a.reset_at (a.incrs + 1) ≡ false = ground (arith, young) in simp left refl

  aged-IsSeen : (k h : ℕ) → IsSeen k h a → IsSeen k h (aged a)
  unfolding door_has
  aged-IsSeen k h seen = rw aged_young seen

  pub record_read_ages :
      (g : ℕ) → ((record_read g a).incrs ≡ a.incrs + 1) × ((record_read g a).reset_at ≡ a.reset_at)
  unfolding record_read door_add sketch_increment aged
  record_read_ages g =
      let left : leb a.reset_at (a.incrs + 1) ≡ false = ground (arith, young) in
      elim (Bool-cases (door_has g a)) [
        | inl known ↦ simp known (simp left (refl, refl))
        | inr first ↦ simp first (simp left (refl, refl))
      ]

-- A read keeps what was counted of any key, and one of the key counts it.
pub record_read-IsSeen :
    (k h g : ℕ) (a : Admission)
    → a.incrs + 1 < a.reset_at
    → IsSeen k h a
    → IsSeen k h (record_read g a)
unfolding record_read door_add sketch_increment door_has
record_read-IsSeen k h g a young (known, rows) =
    elim (Bool-cases (has_all probes a.door_m g a.door)) [
      | inl there ↦ simp there (
          aged-IsSeen (sketch_increment g a) young k h (
            known,
            All-map_pair (IsCounted k h a.mask) (IsCounted k h a.mask) (IsCounted k h a.mask)
                (bump_row g a.mask) (λ row c d. bump_row-IsCounted k h g a.mask row c) a.rows rows
                rows,
          ))
      | inr new ↦ simp new (
          aged-IsSeen (record a { door = set_all probes a.door_m g a.door }) young k h
            (has_all_kept probes probes a.door_m h g a.door known, rows))
    ]

pub again-IsSeen :
    (k h : ℕ) (a : Admission)
    → a.incrs + 1 < a.reset_at
    → IsSized a
    → IsSeen k h a
    → IsSeen (min (k + 1) 15) h (record_read h a)
unfolding record_read door_add sketch_increment door_has
again-IsSeen k h a young (inside, wide) (known, rows) = simp known (
    aged-IsSeen (sketch_increment h a) young (min (k + 1) 15) h (
      known,
      All-map_pair (IsCounted k h a.mask) (IsCounted (min (k + 1) 15) h a.mask) (IsWide a.mask)
          (bump_row h a.mask) (bump_row_counts k h a.mask) a.rows rows wide,
    ))

uncounted : (h mask : ℕ) (rows : List Row) → All (IsCounted 0 h mask) rows
uncounted h mask [] = tt
uncounted h mask (row ∷ rows) = (omega arith, uncounted h mask rows)

pub first-IsSeen :
    (h : ℕ) (a : Admission) → a.incrs + 1 < a.reset_at → IsSized a → IsSeen 0 h (record_read h a)
unfolding record_read door_add sketch_increment door_has
first-IsSeen h a young (inside, wide) = elim (Bool-cases (door_has h a)) [
  | inl known ↦ record_read-IsSeen 0 h h a young (known, uncounted h a.mask a.rows)
  | inr new ↦ simp new (
      aged-IsSeen (record a { door = set_all probes a.door_m h a.door }) young 0 h
        (has_all-set_all probes a.door_m h a.door inside, uncounted h a.mask a.rows))
]
