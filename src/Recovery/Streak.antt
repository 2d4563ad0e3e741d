-- ===== src/Recovery/Streak.antt =====
-- recovery.go: the count of healthy probes in the book, and those of the log.
use breakwater.Base.{
  ℕ, ◌+◌, ◌≤◌, ◌≡◌, refl, ◌∙◌, Bool, true, false, Bool-cases, String-cases, inl, inr, List, [], ◌∷◌,
  String, str_eq, str_eq_refl, Assoc, lookup, lookup-insert, lookup-delete, insert, delete, Result,
  ok, err, ltb, if◌then◌else◌, arith,
}
use breakwater.Router.Control.{Switch, Error, auto_enable_upstream, is_some}
use breakwater.Recovery.{
  Config, Loop, Probed, count_of, is_waiting, note_failure, restore, noted, note_success,
  recover_one,
}

-- The probes of the upstream that passed since its last one that failed.
unfoldable pub streak : String → List Probed → ℕ
streak id [] = 0
streak id (p ∷ log) =
    let rest = streak id log in if str_eq p.id id then (if p.passed then rest + 1 else 0) else rest

-- The book never counts more than the log shows.
abbrev pub IsHonest : Loop → Type 0
IsHonest l = (id : String) → count_of (lookup id l.book.passes) ≤ streak id l.log

-- A probe of one upstream leaves the streaks of the others.
pub streak_other :
    (id j : String) (passed : Bool) (log : List Probed)
    → str_eq j id ≡ false
    → streak id (record { id = j; passed = passed } ∷ log) ≡ streak id log
unfolding streak
streak_other id j passed log e = rw e refl

pub streak_passed :
    (id : String) (log : List Probed)
    → streak id (record { id = id; passed = true } ∷ log) ≡ streak id log + 1
unfolding streak
streak_passed id log = rw (str_eq_refl id) refl

count-insert :
    (id j : String) (n : ℕ) (m : Assoc ℕ)
    → count_of (lookup id (insert j n m)) ≡ (if str_eq j id then n else count_of (lookup id m))
count-insert id j n m = rw (lookup-insert) (ground arith)

count-delete :
    (id j : String) (m : Assoc ℕ) → count_of (lookup id (delete j m)) ≤ count_of (lookup id m)
count-delete id j m = rw (lookup-delete) (ground arith)

note_failure-IsHonest :
    (c : Config) (start : ℕ) (j : String) (l : Loop)
    → IsHonest l
    → IsHonest (note_failure c start j l)
unfolding note_failure streak
note_failure-IsHonest c start j l h id =
    rw (count-insert id j 0 l.book.passes) (ground (arith, h id))

restore-IsHonest :
    (j : String) (l : Loop) (answer : Switch × Result Error (Unit {0}) × List String)
    → IsHonest l
    → IsHonest (restore j l answer)
unfolding restore
restore-IsHonest j l (s, ok u, fired) h id = omega (arith, count-delete id j l.book.passes, h id)
restore-IsHonest j l (s, err e, fired) h id = h id

noted-IsHonest : (j : String) (l : Loop) → IsHonest l → IsHonest (noted j l)
unfolding noted streak
noted-IsHonest j l h id = elim (String-cases j id) [
  | inl same ↦
      rw
        (
          same,
          count-insert id id (count_of (lookup id l.book.passes) + 1) l.book.passes,
          str_eq_refl id,
        )
        (omega (arith, h id))
  | inr other ↦
      rw (count-insert id j (count_of (lookup j l.book.passes) + 1) l.book.passes, other) (h id)
]

pub recover_one-IsHonest :
    (c : Config) (start : ℕ) (answers : String → Bool) (j : String) (l : Loop)
    → IsHonest l
    → IsHonest (recover_one c start answers j l)
unfolding recover_one note_success
recover_one-IsHonest c start answers j l h = elim (Bool-cases (is_some (lookup j c.probes))) [
  | inr unknown ↦ rw unknown h
  | inl known ↦ elim (Bool-cases (is_waiting c.backoff start (lookup j l.book.retries))) [
    | inl waits ↦ rw (known, waits) h
    | inr due ↦ elim (Bool-cases (answers j)) [
      | inr fails ↦ rw (known, due, fails) (note_failure-IsHonest c start j l h)
      | inl passes ↦ elim (Bool-cases (ltb (count_of (lookup j l.book.passes) + 1) c.passes)) [
        | inl short ↦ rw (known, due, passes, short) (noted-IsHonest j l h)
        | inr long ↦
            rw (known, due, passes, long)
              (restore-IsHonest j (noted j l) (auto_enable_upstream l.switch j)
                (noted-IsHonest j l h))
      ]
    ]
  ]
]

-- What a round about another upstream leaves alone.
abbrev pub Untouched : String → Loop → Loop → Type 0
Untouched id l m =
    (lookup id m.switch.auto_disabled ≡ lookup id l.switch.auto_disabled)
    × (streak id m.log ≡ streak id l.log)

restore-Untouched :
    (id j : String) (l : Loop)
    → str_eq j id ≡ false
    → Untouched id l (restore j l (auto_enable_upstream l.switch j))
unfolding restore auto_enable_upstream
restore-Untouched id j l other = elim (Bool-cases (is_some (lookup j l.switch.known_upstreams))) [
  | inl known ↦ rw known (lookup-delete id j l.switch.auto_disabled ∙ rw other refl, refl)
  | inr unknown ↦ rw unknown (refl, refl)
]

pub recover_one-Untouched :
    (c : Config) (start : ℕ) (answers : String → Bool) (id j : String) (l : Loop)
    → str_eq j id ≡ false
    → Untouched id l (recover_one c start answers j l)
unfolding recover_one note_success noted note_failure
recover_one-Untouched c start answers id j l other =
    elim (Bool-cases (is_some (lookup j c.probes))) [
      | inr unknown ↦ rw unknown (refl, refl)
      | inl known ↦ elim (Bool-cases (is_waiting c.backoff start (lookup j l.book.retries))) [
        | inl waits ↦ rw (known, waits) (refl, refl)
        | inr due ↦ elim (Bool-cases (answers j)) [
          | inr fails ↦ rw (known, due, fails) (refl, streak_other id j false l.log other)
          | inl passes ↦
              let seen = streak_other id j true l.log other in
              elim (Bool-cases (ltb (count_of (lookup j l.book.passes) + 1) c.passes)) [
                | inl short ↦ rw (known, due, passes, short) (refl, seen)
                | inr long ↦
                    let kept = restore-Untouched id j (noted j l) other in
                    rw (known, due, passes, long) (kept.0, kept.1 ∙ seen)
              ]
        ]
      ]
    ]
