-- ===== src/Recovery/Restored.antt =====
-- recovery.go: what takes an automatic disable back.
use breakwater.Base.{
  ℕ, ◌+◌, ◌≤◌, ◌≡◌, refl, sym, ap, ◌∙◌, Bool, true, false, not, Bool-cases, String-cases, inl, inr,
  List, [], ◌∷◌, String, str_eq, lookup, Result, ok, err, ltb, ◌&&◌, ◌||◌, ◌⊎◌, arith,
}
use breakwater.Router.Control.{
  Switch, Error, auto_enable_upstream, is_some, flag, upstream_enabled, Call, step as call,
}
use breakwater.Recovery.{
  Config, Loop, count_of, is_waiting, note_failure, restore, noted, note_success, new_book,
  recover_one, recover_each, auto_disabled_ids, recover_auto_disabled,
}
use breakwater.Recovery.Streak.{
  streak, IsHonest, streak_passed, recover_one-IsHonest, Untouched, recover_one-Untouched,
}

-- What a round about the upstream itself comes to: it is as disabled as before, or its streak is
-- long enough.
abbrev IsRestored : Config → String → Loop → Loop → Type 0
IsRestored c id l m =
    (lookup id m.switch.auto_disabled ≡ lookup id l.switch.auto_disabled)
    ⊎ ((c.passes ≤ streak id m.log) × (1 ≤ streak id m.log))

restore-same :
    (id : String) (l : Loop) (answer : Switch × Result Error (Unit {0}) × List String)
    → (restore id l answer).log ≡ l.log
unfolding restore
restore-same id l (s, ok u, fired) = refl
restore-same id l (s, err e, fired) = refl

recover_one-IsRestored :
    (c : Config) (start : ℕ) (answers : String → Bool) (id : String) (l : Loop)
    → IsHonest l
    → IsRestored c id l (recover_one c start answers id l)
unfolding recover_one note_success noted note_failure
recover_one-IsRestored c start answers id l h = elim (Bool-cases (is_some (lookup id c.probes))) [
  | inr unknown ↦ rw unknown (inl refl)
  | inl known ↦ elim (Bool-cases (is_waiting c.backoff start (lookup id l.book.retries))) [
    | inl waits ↦ rw (known, waits) (inl refl)
    | inr due ↦ elim (Bool-cases (answers id)) [
      | inr fails ↦ rw (known, due, fails) (inl refl)
      | inl passes ↦ elim (Bool-cases (ltb (count_of (lookup id l.book.passes) + 1) c.passes)) [
        | inl short ↦ rw (known, due, passes, short) (inl refl)
        | inr long ↦
            let seen = streak_passed id l.log in
            let counted = h id in
            let enough : c.passes ≤ streak id l.log + 1 = ground (arith, long, counted) in
            rw (known, due, passes, long, restore-same, seen) (inr (enough, omega arith))
      ]
    ]
  ]
]

unfoldable pub contains : String → List String → Bool
contains id [] = false
contains id (j ∷ ids) = str_eq j id || contains id ids

-- No name stands twice.
abbrev pub IsOnce : List String → Type 0
IsOnce [] = Unit {0}
IsOnce (id ∷ ids) = (contains id ids ≡ false) × IsOnce ids

recover_each-Untouched :
    (c : Config) (start : ℕ) (answers : String → Bool) (id : String) (ids : List String) (l : Loop)
    → contains id ids ≡ false
    → Untouched id l (recover_each c start answers ids l)
unfolding recover_each contains
recover_each-Untouched c start answers id [] l e = (refl, refl)
recover_each-Untouched c start answers id (j ∷ ids) l e = elim (Bool-cases (str_eq j id)) [
  | inl same ↦ let gone = rw same at e in cc
  | inr other ↦
      let first = recover_one-Untouched c start answers id j l other in
      let rest =
        recover_each-Untouched c start answers id ids (recover_one c start answers j l)
          (rw other at e) in
      (rest.0 ∙ first.0, rest.1 ∙ first.1)
]

recover_each-IsHonest :
    (c : Config) (start : ℕ) (answers : String → Bool) (ids : List String) (l : Loop)
    → IsHonest l
    → IsHonest (recover_each c start answers ids l)
unfolding recover_each
recover_each-IsHonest c start answers [] l h = h
recover_each-IsHonest c start answers (id ∷ ids) l h =
    recover_each-IsHonest c start answers ids (recover_one c start answers id l)
      (recover_one-IsHonest c start answers id l h)

recover_one-disabled :
    (c : Config) (start : ℕ) (answers : String → Bool) (id : String) (l : Loop)
    → (recover_one c start answers id l).switch.disabled_upstreams ≡ l.switch.disabled_upstreams
unfolding recover_one note_success noted note_failure restore auto_enable_upstream
recover_one-disabled c start answers id l = ground arith

recover_each-disabled :
    (c : Config) (start : ℕ) (answers : String → Bool) (ids : List String) (l : Loop)
    → (recover_each c start answers ids l).switch.disabled_upstreams ≡ l.switch.disabled_upstreams
unfolding recover_each
recover_each-disabled c start answers [] l = refl
recover_each-disabled c start answers (id ∷ ids) l =
    recover_each-disabled c start answers ids (recover_one c start answers id l)
    ∙ recover_one-disabled c start answers id l

recover_each-IsRestored :
    (c : Config) (start : ℕ) (answers : String → Bool) (id : String) (ids : List String) (l : Loop)
    → IsHonest l
    → IsOnce ids
    → IsRestored c id l (recover_each c start answers ids l)
unfolding recover_each
recover_each-IsRestored c start answers id [] l h once = inl refl
recover_each-IsRestored c start answers id (j ∷ ids) l h once =
    let m = recover_one c start answers j l in
    elim (String-cases j id) [
      | inl same ↦
          let rest =
            recover_each-Untouched c start answers id ids (recover_one c start answers id l)
              (rw same at once.0) in
          rw same (elim (recover_one-IsRestored c start answers id l h) [
            | inl kept ↦ inl (rest.0 ∙ kept)
            | inr (enough, positive) ↦ inr (rw rest.1 (enough, positive))
          ])
      | inr other ↦
          let first = recover_one-Untouched c start answers id j l other in
          elim (recover_each-IsRestored c start answers id ids m
            (recover_one-IsHonest c start answers j l h) once.1) [
              | inl kept ↦ inl (kept ∙ first.0)
              | inr found ↦ inr found
            ]
    ]

and_not_left : (a b : Bool) → (not a && not b) ≡ true → a ≡ false
and_not_left a b e = ground (arith, e)

-- What happens to the loop's state: a tick of the loop, or a call that changes the switch.
pub data Event : Type 0 where
  ticks : ℕ → (String → Bool) → Event
  switches : Call → Event

-- A loop that starts.
abbrev pub begin : Switch → Loop
begin s = record { switch = s; book = new_book; log = []; called = [] }

begin-IsHonest : (s : Switch) → IsHonest (begin s)
unfolding lookup streak
begin-IsHonest s id = omega arith

module _ (sorted : List String → List String) (c : Config) where
  unfoldable pub happen : Loop → Event → Loop
  happen l (ticks start answers) = recover_auto_disabled sorted c start answers l
  happen l (switches k) = record l { switch = call l.switch k }

  unfoldable pub run : Loop → List Event → Loop
  run l [] = l
  run l (e ∷ events) = run (happen l e) events

  happen-IsHonest : (l : Loop) (e : Event) → IsHonest l → IsHonest (happen l e)
  unfolding happen recover_auto_disabled
  happen-IsHonest l (ticks start answers) h =
      recover_each-IsHonest c start answers (sorted (auto_disabled_ids l.switch.auto_disabled)) l h
  happen-IsHonest l (switches k) h = h

  run-IsHonest : (l : Loop) (events : List Event) → IsHonest l → IsHonest (run l events)
  unfolding run
  run-IsHonest l [] h = h
  run-IsHonest l (e ∷ events) h = run-IsHonest (happen l e) events (happen-IsHonest l e h)

  -- However ticks of the loop and calls on the switch interleave, a tick brings an upstream back into
  -- rotation only when its last probes all passed, at least one and no fewer than the threshold, and
  -- when no operator has disabled it; the sorted identifiers are those that the switch lists once.
  pub restored_after_streak :
      (s : Switch) (events : List Event) (start : ℕ) (answers : String → Bool) (id : String)
      → let l = run (begin s) events in
        let m = recover_auto_disabled sorted c start answers l in
        IsOnce (sorted (auto_disabled_ids l.switch.auto_disabled))
        → upstream_enabled l.switch id ≡ false
        → upstream_enabled m.switch id ≡ true
        → (c.passes ≤ streak id m.log)
          × (1 ≤ streak id m.log)
          × (flag (lookup id l.switch.disabled_upstreams) ≡ false)
  unfolding recover_auto_disabled upstream_enabled
  restored_after_streak s events start answers id once out back =
      let l = run (begin s) events in
      let ids = sorted (auto_disabled_ids l.switch.auto_disabled) in
      let honest = run-IsHonest (begin s) events (begin-IsHonest s) in
      let manual = ap (λ d. flag (lookup id d)) (recover_each-disabled c start answers ids l) in
      elim (recover_each-IsRestored c start answers id ids l honest once) [
        | inl kept ↦
            let same = ap is_some kept in
            let clash : true ≡ false = sym back ∙ (λ i. not (manual i) && not (same i)) ∙ out in cc
        | inr (enough, positive) ↦
            let m = recover_each c start answers ids l in
            (
              enough,
              positive,
              sym manual
                  ∙ and_not_left (flag (lookup id m.switch.disabled_upstreams))
                      (is_some (lookup id m.switch.auto_disabled)) back,
            )
      ]
