-- ===== src/Auth/Lru/Transparent.antt =====
-- lru.go: the cache answers as the system of record does, and stays within its capacity.
use breakwater.Base.{
  ℕ, zero, suc, ◌≤◌, ◌≡◌, refl, sym, ap, subst, ◌∙◌, inl, inr, List, [], ◌∷◌, Option, none, some,
  String, Assoc, map, lookup, delete, lookup-delete, size, Result, ok, err, str_eq, eq_iff, ltb,
  arith, Bool-cases,
}
use mathlib.Core.Option.{some-injective, none-ne-some}
use breakwater.Auth.Lru.{
  AuthError, unauthorized, unavailable, LruEntry, CachedStore, to_front, evict, found, lookup_key,
  place, store, keep, missed, resolve, capacity_of, new_cached_store,
}
use breakwater.Auth.Lru.Bounded.{IsBounded, keep-IsBounded, found-IsBounded, max-found, max-keep}

module _ (index : String → String) (answers : String → Result AuthError String)
    (digest : (a b : String) → index a ≡ index b → a ≡ b) where
  -- What the cache holds under the digest of a key is the answer for that key.
  abbrev pub Agrees : Assoc LruEntry → Type 0
  Agrees es =
      (k : String) (e : LruEntry)
      → lookup k es ≡ some e
      → (a : String) → index a ≡ k
      → e.answer ≡ answers a

  delete-Agrees : (k : String) (es : Assoc LruEntry) → Agrees es → Agrees (delete k es)
  delete-Agrees k es agrees j e h a at = agrees j e (ground (arith, lookup-delete j k es, h)) a at

  to_front-Agrees :
      (k : String) (e : LruEntry) (es : Assoc LruEntry)
      → Agrees es
      → ((a : String) → index a ≡ k → e.answer ≡ answers a)
      → Agrees (to_front k e es)
  unfolding to_front lookup
  to_front-Agrees k e es agrees new j f h a at = elim (Bool-cases (str_eq k j)) [
    | inl same ↦
        let held : e ≡ f = some-injective e f (sym (simp same refl) ∙ h) in
        ap (λ x. x.answer) (sym held) ∙ new a (at ∙ sym ((eq_iff k j).0 same))
    | inr other ↦ delete-Agrees k es agrees j f (sym (simp other refl) ∙ h) a at
  ]

  in_evict :
      (k : String) (e : LruEntry) (n : ℕ) (es : Assoc LruEntry)
      → lookup k (evict n es) ≡ some e
      → lookup k es ≡ some e
  unfolding evict lookup
  in_evict k e zero es h = cc
  in_evict k e (suc n) [] h = h
  in_evict k e (suc n) ((j, f) ∷ es) h = ground (arith, h, in_evict k e n es)

  found-Agrees :
      (c : CachedStore) (key : String) (now : ℕ) (o : Option LruEntry)
      → Agrees c.entries
      → lookup key c.entries ≡ o
      → Agrees (found c key now o).0.entries
  unfolding found
  found-Agrees c key now none agrees at = agrees
  found-Agrees c key now (some e) agrees at = elim (Bool-cases (ltb e.expires now)) [
    | inl late ↦ simp late (delete-Agrees key c.entries agrees)
    | inr fresh ↦ simp fresh (to_front-Agrees key e c.entries agrees (agrees key e at))
  ]

  found-answer :
      (c : CachedStore) (key : String) (now : ℕ) (o : Option LruEntry) (x : Result AuthError String)
      (a : String)
      → Agrees c.entries
      → lookup key c.entries ≡ o
      → index a ≡ key
      → (found c key now o).1 ≡ some x
      → x ≡ answers a
  unfolding found
  found-answer c key now none x a agrees at same h = absurd (none-ne-some x h)
  found-answer c key now (some e) x a agrees at same h = elim (Bool-cases (ltb e.expires now)) [
    | inl late ↦ absurd (ground (arith, late, h))
    | inr fresh ↦ ground (arith, fresh, h, agrees key e at a same)
  ]

  store-Agrees :
      (c : CachedStore) (key : String) (e : LruEntry)
      → Agrees c.entries
      → ((a : String) → index a ≡ key → e.answer ≡ answers a)
      → Agrees (store c key e).entries
  unfolding store
  store-Agrees c key e agrees new = of (lookup key c.entries)
    where
      of : (o : Option LruEntry) → Agrees (place c key e o).entries
      of none =
          unfold place in
          λ k f h. to_front-Agrees key e c.entries agrees new k f (in_evict k f c.max _ h)
      of (some held) = unfold place in to_front-Agrees key e c.entries agrees new

  keep-Agrees :
      (c : CachedStore) (now : ℕ) (a : String) (x : Result AuthError String)
      → Agrees c.entries
      → x ≡ answers a
      → Agrees (keep c (index a) now x).entries
  unfolding keep
  keep-Agrees c now a (ok tenant) agrees same =
      store-Agrees c (index a) _ agrees λ b at. same ∙ ap answers (sym (digest b a at))
  keep-Agrees c now a (err unauthorized) agrees same =
      store-Agrees c (index a) _ agrees λ b at. same ∙ ap answers (sym (digest b a at))
  keep-Agrees c now a (err unavailable) agrees same = agrees

-- A request: its API key, and the clock as the lookup and as the store read it.
pub record Request : Type 0 where
  pub api_key : String
  pub now : ℕ
  pub later : ℕ

module _ {W : Type 0} (index : String → String)
    (inner : W → String → W × Result AuthError String) where
  -- Resolves requests one after the other, with their answers.
  pub resolve_all : CachedStore → W → List Request → CachedStore × List (Result AuthError String)
  resolve_all c w [] = (c, [])
  resolve_all c w (q ∷ qs) =
      let ((c', w'), x) = resolve index inner c w q.api_key q.now q.later in
      let (last, xs) = resolve_all c' w' qs in (last, x ∷ xs)

  module _ (answers : String → Result AuthError String)
      (digest : (a b : String) → index a ≡ index b → a ≡ b)
      (steady : (w : W) (a : String) → (inner w a).1 ≡ answers a) where
    abbrev Serves : ℕ → String → (CachedStore × W) × Result AuthError String → Type 0
    Serves n a r =
        Agrees index answers digest r.0.0.entries
        × IsBounded r.0.0
        × (r.1 ≡ answers a)
        × (r.0.0.max ≡ n)

    missed-Serves :
        (a : String) (later : ℕ) (c : CachedStore) (o : Option (Result AuthError String)) (w : W)
        → Agrees index answers digest c.entries
        → IsBounded c
        → ((x : Result AuthError String) → o ≡ some x → x ≡ answers a)
        → Serves c.max a (missed index inner a later (c, o) w)
    unfolding missed
    missed-Serves a later c (some x) w agrees bounded hit = (agrees, bounded, hit x refl, refl)
    missed-Serves a later c none w agrees bounded hit = (
      keep-Agrees index answers digest c later a (inner w a).1 agrees (steady w a),
      keep-IsBounded c (index a) later (inner w a).1 bounded,
      steady w a,
      max-keep c (index a) later (inner w a).1,
    )

    resolve-Serves :
        (c : CachedStore) (w : W) (a : String) (now later : ℕ)
        → Agrees index answers digest c.entries
        → IsBounded c
        → Serves c.max a (resolve index inner c w a now later)
    unfolding resolve lookup_key
    resolve-Serves c w a now later agrees bounded =
        let o = lookup (index a) c.entries in
        subst (λ n. Serves n a (resolve index inner c w a now later)) (max-found c (index a) now o)
          (missed-Serves a later (found c (index a) now o).0 (found c (index a) now o).1 w
            (found-Agrees index answers digest c (index a) now o agrees refl)
            (found-IsBounded c (index a) now o refl bounded)
            (λ x. found-answer index answers digest c (index a) now o x a agrees refl refl))

    resolve_all-Serves :
        (c : CachedStore) (w : W) (qs : List Request)
        → Agrees index answers digest c.entries
        → IsBounded c
        → (size (resolve_all c w qs).0.entries ≤ c.max)
          × ((resolve_all c w qs).1 ≡ map (λ q. answers q.api_key) qs)
    unfolding resolve_all
    resolve_all-Serves c w [] agrees bounded = (bounded, refl)
    resolve_all-Serves c w (q ∷ qs) agrees bounded =
        let one = resolve index inner c w q.api_key q.now q.later in
        let served = resolve-Serves c w q.api_key q.now q.later agrees bounded in
        let rest = resolve_all-Serves one.0.0 one.0.1 qs served.0 served.1 in
        (omega (arith, rest.0, served.3), λ i. served.2 i ∷ rest.1 i)

    -- While the system of record answers each API key the same, and the digest tells keys apart, a new
    -- cache answers every request as the system of record would, over any sequence of requests, clocks,
    -- lifetimes and evictions, and never holds more than its capacity.
    pub resolve_all-transparent :
        (capacity : Option ℕ) (pos_ttl neg_ttl : ℕ) (w : W) (qs : List Request)
        → let r = resolve_all (new_cached_store capacity pos_ttl neg_ttl) w qs in
          (size r.0.entries ≤ capacity_of capacity) × (r.1 ≡ map (λ q. answers q.api_key) qs)
    resolve_all-transparent capacity pos_ttl neg_ttl w qs =
        let c = new_cached_store capacity pos_ttl neg_ttl in
        let empty : Agrees index answers digest c.entries =
          λ k e h. absurd (none-ne-some e (unfold new_cached_store lookup in h)) in
        let room : size c.entries ≤ c.max = unfold new_cached_store size in omega arith in
        let limit : c.max ≡ capacity_of capacity = unfold new_cached_store in refl in
        let served = resolve_all-Serves c w qs empty room in
        (omega (arith, served.0, limit), served.1)
