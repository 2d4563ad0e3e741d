-- ===== src/Cache/Admission.antt =====
-- internal/cache/admission.go: the frequency gate of the store. The mutex makes each call one step.
-- Words have 64 bits and bytes 8; an index past the end, which would panic in the code, reads 0 and
-- writes nothing here. The hash of a key, `maphash.String`, is an argument.
pub mod Counters
pub mod Door
pub mod Sized
pub mod Counts
pub mod Reads
mod Tests
use breakwater.Base.{
  ℕ, zero, suc, ◌+◌, ◌-◌, ◌*◌, ◌/◌, ◌%◌, ◌^◌, ◌==◌, Bool, true, false, ◌&&◌, List, [], ◌∷◌, map,
  String, ltb, leb, if◌then◌else◌,
}
use breakwater.Cache.Memory.{Gate, max_tracked_keys}

abbrev pub max_nibble : ℕ
max_nibble = 15

-- The lowest `w` bits of the conjunction and of the exclusive disjunction.
pub and_bits : ℕ → ℕ → ℕ → ℕ
and_bits zero a b = 0
and_bits (suc w) a b = (if a % 2 == 1 then b % 2 else 0) + 2 * and_bits w (a / 2) (b / 2)

pub xor_bits : ℕ → ℕ → ℕ → ℕ
xor_bits zero a b = 0
xor_bits (suc w) a b = (a + b) % 2 + 2 * xor_bits w (a / 2) (b / 2)

-- The test and the setting of one bit.
pub has_bit : ℕ → ℕ → Bool
has_bit zero b = b % 2 == 1
has_bit (suc i) b = has_bit i (b / 2)

pub with_bit : ℕ → ℕ → ℕ
with_bit zero b = b / 2 * 2 + 1
with_bit (suc i) b = b % 2 + 2 * with_bit i (b / 2)

-- The element of an array at an index, and its change in place.
pub at : List ℕ → ℕ → ℕ
at [] i = 0
at (x ∷ xs) zero = x
at (x ∷ xs) (suc i) = at xs i

pub change : (ℕ → ℕ) → ℕ → List ℕ → List ℕ
change f i [] = []
change f zero (x ∷ xs) = f x ∷ xs
change f (suc i) (x ∷ xs) = x ∷ change f i xs

pub zeros : ℕ → List ℕ
zeros zero = []
zeros (suc n) = 0 ∷ zeros n

-- A row of the sketch with its seed, and the gate.
pub record Row : Type 0 where
  pub seed : ℕ
  pub cells : List ℕ

pub record Admission : Type 0 where
  pub rows : List Row
  pub mask : ℕ
  pub door : List ℕ
  pub door_m : ℕ
  pub incrs : ℕ
  pub reset_at : ℕ

-- `admissionWidth`; twenty-one doublings reach the ceiling of the budget.
pub doubled_width : ℕ → ℕ → ℕ → ℕ
doubled_width zero width tracked = width
doubled_width (suc n) width tracked =
    let rest = doubled_width n (width * 2) tracked in if ltb width tracked then rest else width

pub capped_keys : ℕ → ℕ
capped_keys tracked =
    if ltb max_tracked_keys tracked
    then max_tracked_keys
    else (if ltb tracked 1 then 1 else tracked)

pub admission_width : ℕ → ℕ
unfolding doubled_width capped_keys
admission_width tracked = doubled_width 21 1 (capped_keys tracked)

-- `newAdmission`.
pub blank_row : ℕ → ℕ → Row
unfolding zeros
blank_row width i = record {
  seed = (i * 0x9E3779B97F4A7C15 + 1) % 2 ^ 64;
  cells = zeros ((width + 1) / 2);
}

pub new_admission : ℕ → Admission
unfolding admission_width blank_row zeros
new_admission tracked =
    let width = admission_width tracked in
    record {
      rows = map (blank_row width) (0 ∷ 1 ∷ 2 ∷ 3 ∷ []);
      mask = width - 1;
      door = zeros ((10 * width + 7) / 8);
      door_m = 10 * width - 1;
      incrs = 0;
      reset_at = width;
    }

pub slot : ℕ → ℕ → ℕ → ℕ
unfolding and_bits xor_bits
slot mask seed h =
    let x = xor_bits 64 h seed * 0x9E3779B97F4A7C15 % 2 ^ 64 in
    and_bits 64 (xor_bits 64 x (x / 2 ^ 31)) mask

-- The low or the high half of a byte, a one in it, and its saturating increment.
half : ℕ → ℕ → ℕ
half zero b = b % 16
half (suc s) b = b / 16 % 16

one_in : ℕ → ℕ
one_in zero = 1
one_in (suc s) = 16

bumped : ℕ → ℕ → ℕ
unfolding half one_in
bumped s b = if ltb (half s b) max_nibble then (b + one_in s) % 256 else b

pub nibble : ℕ → List ℕ → ℕ
unfolding half at
nibble index cells = half (index % 2) (at cells (index / 2))

pub bump : ℕ → List ℕ → List ℕ
unfolding bumped change
bump index cells = change (bumped (index % 2)) (index / 2) cells

pub bump_row : ℕ → ℕ → Row → Row
unfolding bump slot
bump_row h mask row = record row { cells = bump (slot mask row.seed h) row.cells }

pub sketch_increment : ℕ → Admission → Admission
unfolding bump_row
sketch_increment h a = record a { rows = map (bump_row h a.mask) a.rows }

pub halve_row : Row → Row
unfolding and_bits
halve_row row = record row { cells = map (λ b. and_bits 8 (b / 2) 0x77) row.cells }

pub sketch_halve : Admission → Admission
unfolding halve_row
sketch_halve a = record a { rows = map halve_row a.rows }

pub door_bit : ℕ → ℕ → ℕ → ℕ
unfolding and_bits with_bit
door_bit door_m h probe = and_bits 64 ((h + probe * with_bit 0 (h / 2 ^ 32)) % 2 ^ 64) door_m

abbrev pub probes : List ℕ
probes = 0 ∷ 1 ∷ 2 ∷ 3 ∷ 4 ∷ 5 ∷ 6 ∷ []

-- The loops of the doorkeeper over its probes.
pub has_all : List ℕ → ℕ → ℕ → List ℕ → Bool
unfolding has_bit at door_bit
has_all [] door_m h door = true
has_all (p ∷ ps) door_m h door =
    let bit = door_bit door_m h p in
    has_bit (bit % 8) (at door (bit / 8)) && has_all ps door_m h door

pub set_all : List ℕ → ℕ → ℕ → List ℕ → List ℕ
unfolding with_bit change door_bit
set_all [] door_m h door = door
set_all (p ∷ ps) door_m h door =
    let bit = door_bit door_m h p in
    set_all ps door_m h (change (with_bit (bit % 8)) (bit / 8) door)

pub door_has : ℕ → Admission → Bool
unfolding has_all
door_has h a = has_all probes a.door_m h a.door

pub door_add : ℕ → Admission → Admission × Bool
unfolding door_has set_all
door_add h a =
    if door_has h a
    then (a, true)
    else (record a { door = set_all probes a.door_m h a.door }, false)

pub door_reset : Admission → Admission
door_reset a = record a { door = map (λ b. 0) a.door }

-- The counter of the reads, and the aging when it is full.
pub aged : Admission → Admission
unfolding door_reset sketch_halve
aged a =
    if leb a.reset_at (a.incrs + 1)
    then sketch_halve (door_reset (record a { incrs = 0 }))
    else record a { incrs = a.incrs + 1 }

pub record_read : ℕ → Admission → Admission
unfolding aged door_add sketch_increment
record_read h a = let (b, known) = door_add h a in aged (if known then sketch_increment h b else b)

pub lowest_counter : ℕ → ℕ → ℕ → List Row → ℕ
unfolding nibble slot
lowest_counter mask h floor [] = floor
lowest_counter mask h floor (row ∷ rows) =
    let v = nibble (slot mask row.seed h) row.cells in
    lowest_counter mask h (if ltb v floor then v else floor) rows

pub estimate : ℕ → Admission → ℕ
unfolding lowest_counter door_has
estimate h a = lowest_counter a.mask h max_nibble a.rows + (if door_has h a then 1 else 0)

-- The gate of the store, with the hash of the keys.
abbrev pub admission_gate : (String → ℕ) → Gate
admission_gate hash = record {
  Sketch = Admission;
  record_read = λ a key. record_read (hash key) a;
  estimate = λ a key. estimate (hash key) a;
}
