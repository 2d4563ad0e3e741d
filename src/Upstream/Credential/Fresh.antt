-- ===== src/Upstream/Credential/Fresh.antt =====
-- credential.go: what `pick` hands out.
use breakwater.Base.{
  ℕ, zero, suc, ◌+◌, ◌-◌, ◌%◌, ◌^◌, ◌≤◌, ◌<◌, ◌≡◌, ◌⊎◌, refl, sym, ap, ◌∙◌, subst, inl, inr, Bool,
  true, false, List, none, some, length, ltb, ◌==◌, arith, Bool-cases, Option-cases,
}
use native.Mathlib.Nat.{mod-lt, mod-eq_of_lt, add-mod_right}
use mathlib.Core.Option.{some-injective}
use breakwater.Upstream.Credential.{
  CredentialRing, is_dead, is_alive, is_fresh, contains_index, count_alive, alive, start_of, scan,
  serves, nobody, hand_out, pick_from, pick,
}
use breakwater.Upstream.Credential.Count.{count, count-fresh, count-alive, count-witness}

-- A scan answers an index of the ring that the test allows.
scan_sound :
    (usable : ℕ → Bool) (start n k i : ℕ)
    → 0 < n
    → scan usable start n k ≡ some i
    → (i < n) × (usable i ≡ true)
unfolding scan
scan_sound usable start n zero i pos h = absurd (ground (arith, h))
scan_sound usable start n (suc k) i pos h = elim (Bool-cases (usable ((start + (n - suc k)) % n))) [
  | inl e ↦
      let found : (start + (n - suc k)) % n ≡ i = some-injective _ _ (sym (simp e refl) ∙ h) in
      (
        subst (λ x. x < n) found (mod-lt (start + (n - suc k)) pos),
        subst (λ x. usable x ≡ true) found e,
      )
  | inr e ↦ scan_sound usable start n k i pos (sym (simp e refl) ∙ h)
]

-- A full turn that answers none has tried every index.
scan_complete :
    (usable : ℕ → Bool) (start n k : ℕ)
    → scan usable start n k ≡ none
    → k ≤ n
    → (j : ℕ) → n - k ≤ j
    → j < n
    → usable ((start + j) % n) ≡ false
unfolding scan
scan_complete usable start n zero h le j low high = absurd (omega (arith, low, high))
scan_complete usable start n (suc k) h le j low high =
    elim (Bool-cases (usable ((start + (n - suc k)) % n))) [
      | inl e ↦ absurd (ground (arith, e, h))
      | inr e ↦ elim (Bool-cases (j == n - suc k)) [
        | inl now ↦ subst (λ x. usable ((start + x) % n) ≡ false) (ground (arith, now)) e
        | inr later ↦
            scan_complete usable start n k (sym (simp e refl) ∙ h) (omega (arith, le)) j
              (ground (arith, low, later, le)) high
      ]
    ]

-- Every index is met by some turn.
turn : (start n i : ℕ) → start < n → i < n → (j : ℕ) × (j < n) × ((start + j) % n ≡ i)
turn start n i low high = elim (Bool-cases (ltb i start)) [
  | inr e ↦
      let ahead : start ≤ i = ground (arith, e) in
      let at : start + (i - start) ≡ i = omega (arith, ahead) in
      (i - start, omega (arith, high), rw at (mod-eq_of_lt high))
  | inl e ↦
      let behind : i < start = ground (arith, e) in
      let at : start + (i + n - start) ≡ i + n = omega (arith, low, behind) in
      (i + n - start, omega (arith, behind, low), rw at (add-mod_right i n ∙ mod-eq_of_lt high))
]

-- A full turn that answers none leaves no index that the test allows.
scan-none :
    (usable : ℕ → Bool) (start n : ℕ)
    → start < n
    → scan usable start n n ≡ none
    → count usable n ≡ 0
scan-none usable start n low h = elim (Bool-cases (count usable n == 0)) [
  | inl e ↦ ground (arith, e)
  | inr e ↦
      let (i, high, fits) = count-witness usable n (ground (arith, e)) in
      let (j, below, at) = turn start n i low high in
      let missed : usable i ≡ false =
        subst (λ x. usable x ≡ false) at
          (scan_complete usable start n n h (omega arith) j (omega arith) below) in
      absurd (ground (arith, fits, missed))
]

-- With a dead flag for each key and the cursor in the signed range, `pick` hands out an alive index
-- of the ring and moves the cursor just past it, and answers that nobody serves only when no
-- credential is alive. When more credentials are alive than the request has burned, the index is none
-- of the burned ones.
pub pick-fresh :
    (r : CredentialRing) (excluded : List ℕ)
    → length r.dead ≡ length r.keys
    → r.cursor < 2 ^ 63
    → ((alive r ≡ 0) × ((pick r excluded).1 ≡ nobody))
      ⊎ ((i : ℕ) × ((pick r excluded).1 ≡ serves i)
          × (i < length r.keys)
          × (is_dead r.dead i ≡ false)
          × ((pick r excluded).0.cursor ≡ i + 1)
          × (length excluded < alive r → contains_index excluded i ≡ false))
unfolding pick pick_from hand_out start_of alive
pick-fresh r excluded sized range =
    let n = length r.keys in
    let start = r.cursor % n in
    let fresh = is_fresh r.dead excluded in
    let living = is_alive r.dead in
    let signed : ltb r.cursor (2 ^ 63) ≡ true = ground (arith, range) in
    let total : count_alive r.dead ≡ count living n =
      count-alive r.dead ∙ ap (λ k. count living k) sized in
    elim (Bool-cases (n == 0)) [
      | inl e ↦
          let zero_keys : n ≡ 0 = ground (arith, e) in
          inl (total ∙ ap (λ k. count living k) zero_keys, simp e refl)
      | inr e ↦
          let some_keys : 0 < n = ground (arith, e) in
          let low : start < n = mod-lt r.cursor some_keys in
          elim (Option-cases (scan fresh start n n)) [
            | inr (i, h) ↦
                let (below, fits) = scan_sound fresh start n n i some_keys h in
                inr (
                  i,
                  simp (e, signed, h) refl,
                  below,
                  ground (arith, fits),
                  simp (e, signed, h) refl,
                  λ more. ground (arith, fits),
                )
            | inl h ↦
                let all_burned : count fresh n ≡ 0 = scan-none fresh start n low h in
                let few = count-fresh r.dead excluded n in
                elim (Option-cases (scan living start n n)) [
                  | inr (i, k) ↦
                      let (below, fits) = scan_sound living start n n i some_keys k in
                      inr (
                        i,
                        simp (e, signed, h, k) refl,
                        below,
                        ground (arith, fits),
                        simp (e, signed, h, k) refl,
                        λ more. absurd (omega (arith, few, all_burned, total, more)),
                      )
                  | inl k ↦
                      inl (total ∙ scan-none living start n low k, simp (e, signed, h, k) refl)
                ]
          ]
    ]
