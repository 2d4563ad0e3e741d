-- ===== src/Cache/Admission/Door.antt =====
-- admission.go: the doorkeeper keeps what it was told.
use breakwater.Base.{ℕ, ◌/◌, ◌%◌, ◌≤◌, ◌<◌, ◌≡◌, refl, ap, ◌∙◌, true, List, [], ◌∷◌, length, arith}
use breakwater.Cache.Admission.{has_bit, with_bit, at, change, door_bit, has_all, set_all}
use breakwater.Cache.Admission.Counters.{
  and_bits_bounded, has-with_bit, has_bit_kept, at-change, at-change_cases, length-change,
}

pub length-set_all :
    (ps : List ℕ) (m h : ℕ) (door : List ℕ) → length (set_all ps m h door) ≡ length door
unfolding set_all
length-set_all [] m h door = refl
length-set_all (p ∷ ps) m h door =
    let bit = door_bit m h p in
    length-set_all ps m h (change (with_bit (bit % 8)) (bit / 8) door)
    ∙ length-change (with_bit (bit % 8)) (bit / 8) door

bit_kept :
    (ps : List ℕ) (m h i j : ℕ) (door : List ℕ)
    → has_bit i (at door j) ≡ true
    → has_bit i (at (set_all ps m h door) j) ≡ true
unfolding set_all
bit_kept [] m h i j door set = set
bit_kept (p ∷ ps) m h i j door set =
    let bit = door_bit m h p in
    bit_kept ps m h i j (change (with_bit (bit % 8)) (bit / 8) door) (
      at-change_cases {P = λ b. has_bit i b ≡ true} (with_bit (bit % 8)) (bit / 8) j door
        (λ b. has_bit_kept i (bit % 8) b) set)

pub has_all_kept :
    (ps qs : List ℕ) (m h g : ℕ) (door : List ℕ)
    → has_all ps m h door ≡ true
    → has_all ps m h (set_all qs m g door) ≡ true
unfolding has_all
has_all_kept [] qs m h g door all = refl
has_all_kept (p ∷ ps) qs m h g door all =
    let bit = door_bit m h p in
    let first : has_bit (bit % 8) (at door (bit / 8)) ≡ true = ground arith in
    let others : has_all ps m h door ≡ true = ground arith in
    rw (bit_kept qs m g (bit % 8) (bit / 8) door first) (has_all_kept ps qs m h g door others)

pub has_all-set_all :
    (ps : List ℕ) (m h : ℕ) (door : List ℕ)
    → m / 8 < length door
    → has_all ps m h (set_all ps m h door) ≡ true
unfolding has_all set_all door_bit
has_all-set_all [] m h door inside = refl
has_all-set_all (p ∷ ps) m h door inside =
    let bit = door_bit m h p in
    let here = change (with_bit (bit % 8)) (bit / 8) door in
    let low : bit ≤ m = and_bits_bounded 64 _ m in
    let set : has_bit (bit % 8) (at here (bit / 8)) ≡ true =
      ap (has_bit (bit % 8))
        (at-change (with_bit (bit % 8)) (bit / 8) door (omega (arith, low, inside)))
      ∙ has-with_bit (bit % 8) (at door (bit / 8)) in
    rw (bit_kept ps m h (bit % 8) (bit / 8) here set) (
      has_all-set_all ps m h here
        (omega (arith, inside, length-change (with_bit (bit % 8)) (bit / 8) door)))
