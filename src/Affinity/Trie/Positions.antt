-- ===== src/Affinity/Trie/Positions.antt =====
-- affinity.go: a match answers a position of a candidate.
use breakwater.Base.{
  ℕ, suc, ◌-◌, ◌≤◌, ◌≡◌, refl, ◌∙◌, ◌⊎◌, Option-cases, Bool-cases, ltb, if◌then◌else◌, inl, inr,
  List, [], ◌∷◌, Option, none, some, true, false, String, str_eq, str_eq_refl, String-cases, arith,
}
use breakwater.Affinity.Trie.{
  nth, contains, position_from, Node, children, endpoints, Trie, find_child, touch, position, lower,
  lowest_hit, deepest, match_hit, match_child, match_from, match,
}

-- What a match finds is the position of a name.
lowest_hit-position :
    (ids es : List String) (i : ℕ)
    → lowest_hit ids es ≡ some i
    → (u : String) × (position ids u ≡ some i)
unfolding lowest_hit
lowest_hit-position ids [] i e = cc
lowest_hit-position ids (e ∷ es) i hit =
    let rest = lowest_hit-position ids es in
    elim (Option-cases (position ids e)) [
      | inl absent ↦ rest i (unfold lower in rw absent at hit)
      | inr (j, placed) ↦ elim (Option-cases (lowest_hit ids es)) [
        | inl cold ↦
            let own : some j ≡ some i = unfold lower in rw (placed, cold) at hit in
            (e, placed ∙ own)
        | inr (k, other) ↦
            let least : (if ltb j k then some j else some k) ≡ some i =
              unfold lower in rw (placed, other) at hit in
            elim (Bool-cases (ltb j k)) [
              | inl below ↦ let own : some j ≡ some i = rw below at least in (e, placed ∙ own)
              | inr above ↦ let own : some k ≡ some i = rw above at least in rest i (other ∙ own)
            ]
      ]
    ]

match_from-position :
    (chunks : List ℕ) (ids : List String) (now : ℕ) (n : Node) (i : ℕ)
    → (match_from chunks ids now n).1 ≡ some i
    → (u : String) × (position ids u ≡ some i)
unfolding match_from match_child match_hit deepest
match_from-position [] ids now n i e = cc
match_from-position (h ∷ chunks) ids now n i e = elim (Option-cases (find_child h (children n))) [
  | inl miss ↦ let gone = rw miss at e in cc
  | inr (d, found) ↦ elim (Option-cases (lowest_hit ids (endpoints d))) [
    | inl cold ↦ let gone = rw (found, cold) at e in cc
    | inr (j, hit) ↦
        let deeper = (match_from chunks ids now (touch now d)).1 in
        let own : some (deepest j deeper) ≡ some i = rw (found, hit) at e in
        elim (Option-cases deeper) [
          | inl last ↦
              let here : some j ≡ some i = rw last at own in
              lowest_hit-position ids (endpoints d) i (hit ∙ here)
          | inr (k, below) ↦
              let there : some k ≡ some i = rw below at own in
              match_from-position chunks ids now (touch now d) i (below ∙ there)
        ]
  ]
]

pub match-position :
    (chunks : List ℕ) (ids : List String) (now : ℕ) (t : Trie) (i : ℕ)
    → (match chunks ids now t).1 ≡ some i
    → (u : String) × (position ids u ≡ some i)
unfolding match
match-position chunks ids now t i e = match_from-position chunks ids now t.root i e

position_from_absent :
    (i : ℕ) (id : String) (ids : List String) (found : Option ℕ)
    → contains id ids ≡ false
    → position_from i id ids found ≡ found
unfolding position_from contains
position_from_absent i id [] found e = refl
position_from_absent i id (d ∷ ids) found e = elim (Bool-cases (str_eq d id)) [
  | inl same ↦ let gone = rw same at e in cc
  | inr other ↦ rw other (
      position_from_absent (suc i) id ids found
        (let rest : contains id ids ≡ false = rw other at e in rest))
]

nth_later :
    (id d : String) (ids : List String) (i k : ℕ)
    → suc i ≤ k
    → nth ids (k - suc i) ≡ some id
    → nth (d ∷ ids) (k - i) ≡ some id
unfolding nth
nth_later id d ids i k le e = let next : k - i ≡ suc (k - suc i) = omega arith in rw next e

position_from-nth :
    (i : ℕ) (id : String) (ids : List String) (found : Option ℕ) (k : ℕ)
    → position_from i id ids found ≡ some k
    → (found ≡ some k) ⊎ ((i ≤ k) × (nth ids (k - i) ≡ some id))
unfolding position_from
position_from-nth i id [] found k e = inl e
position_from-nth i id (d ∷ ids) found k e = elim (String-cases d id) [
  | inr other ↦ elim (position_from-nth (suc i) id ids found k (rw other at e)) [
    | inl kept ↦ inl kept
    | inr (le, there) ↦ inr (omega arith, nth_later id d ids i k le there)
  ]
  | inl same ↦
      let eq : str_eq d id ≡ true = rw same (str_eq_refl id) in
      elim (position_from-nth (suc i) id ids (some i) k (rw eq at e)) [
        | inl here ↦
            let own : i ≡ k = cc in
            let first : k - i ≡ 0 = omega (arith, own) in
            inr (omega (arith, own), unfold nth in rw (first, same) refl)
        | inr (le, there) ↦ inr (omega arith, nth_later id d ids i k le there)
      ]
]

pub position-nth :
    (ids : List String) (id : String) (k : ℕ) → position ids id ≡ some k → nth ids k ≡ some id
unfolding position
position-nth ids id k e = elim (position_from-nth 0 id ids none k e) [
  | inl gone ↦ cc
  | inr (le, there) ↦ let same : k - 0 ≡ k = omega arith in rw same at there
]

-- The first name, where it is not listed again.
pub position_first :
    (id : String) (ids : List String) → contains id ids ≡ false → position (id ∷ ids) id ≡ some 0
unfolding position position_from
position_first id ids e = rw (str_eq_refl id) (position_from_absent 1 id ids (some 0) e)
