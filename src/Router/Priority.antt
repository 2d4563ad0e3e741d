-- ===== src/Router/Priority.antt =====
-- internal/router/priority.go: the selection of the upstreams that may serve a model. An upstream is
-- its identifier. A score is a number in a unit as fine as the tracker's float64 needs, and the
-- tenth that candidates may lie apart is exact.
pub mod Eligible
mod Tests
use breakwater.Base.{
  ℕ, zero, suc, ◌+◌, ◌*◌, ◌≡◌, Bool, true, false, not, ◌&&◌, ◌||◌, List, [], ◌∷◌, Option, none,
  some, String, Assoc, lookup, Result, ok, err, ltb, leb, if◌then◌else◌, map,
}
use breakwater.Circuit.Types.{opened, state_eq}
use breakwater.Circuit.Port.{Port}
use breakwater.Router.Control.{Switch, model_enabled, upstream_enabled, is_some}

pub data Strategy : Type 0 where
  static_order latency_order : Strategy

-- What the selection asks of a circuit breaker. A read of an upstream's state reads the clock and may
-- move the breaker on, so `B` holds the breaker with what the clock is going to show.
pub record Breaker : Type 1 where
  pub B : Type 0
  pub is_open : B → String → B × Bool

-- A breaker of the program behind its port; `clock n` is what the clock shows at the read of number n.
abbrev pub behind_port : {R : Type 0} → Port R → (ℕ → ℕ) → Breaker
behind_port {R} port clock = record {
  B = R × ℕ;
  is_open = λ b id.
      let (r, state) = port.state_of b.0 id (clock b.1) in ((r, b.1 + 1), state_eq state opened);
}

pub record Entry : Type 0 where
  pub models : Assoc (Unit {0})
  pub upstream : String

-- `breaks` says whether a breaker is installed, `tracked` whether a tracker is.
pub record Priority : Type 0 where
  pub entries : List Entry
  pub control : Option Switch
  pub breaks : Bool
  pub strategy : Strategy
  pub tracked : Bool

pub data RouteError : Type 0 where
  disabled unavailable : RouteError
  no_binding : String → RouteError

-- `"*"` serves every model.
unfoldable pub serves : String → Entry → Bool
serves model e = is_some (lookup model e.models) || is_some (lookup "*" e.models)

unfoldable pub allows_model : Option Switch → String → Bool
allows_model none model = true
allows_model (some s) model = model_enabled s model

unfoldable pub allows_upstream : Option Switch → String → Bool
allows_upstream none id = true
allows_upstream (some s) id = upstream_enabled s id

-- The scored candidates, sorted by score; equal scores keep their order.
insert_scored : (String → ℕ) → String → List String → List String
insert_scored score c [] = c ∷ []
insert_scored score c (d ∷ ds) =
    let rest = insert_scored score c ds in if leb (score c) (score d) then c ∷ d ∷ ds else d ∷ rest

unfoldable pub sort_scored : (String → ℕ) → List String → List String
unfolding insert_scored
sort_scored score [] = []
sort_scored score (c ∷ cs) = insert_scored score c (sort_scored score cs)

-- The candidates behind the best one that lie within a tenth of its score.
tied_behind : (String → ℕ) → ℕ → List String → ℕ
tied_behind score best [] = 0
tied_behind score best (c ∷ cs) =
    let rest = tied_behind score best cs in if leb (10 * score c) (11 * best) then suc rest else 0

-- `tieCut`.
unfoldable pub tie_cut : (String → ℕ) → List String → ℕ
unfolding tied_behind
tie_cut score [] = 0
tie_cut score (c ∷ cs) = suc (tied_behind score (score c) cs)

-- The candidate at an index, and the list with another one put in its place.
at : String → ℕ → List String → String
at d n [] = d
at d zero (c ∷ cs) = c
at d (suc n) (c ∷ cs) = at d n cs

put : ℕ → String → List String → List String
put n x [] = []
put zero x (c ∷ cs) = x ∷ cs
put (suc n) x (c ∷ cs) = c ∷ put n x cs

-- The first candidate changes places with the drawn one.
unfoldable pub lead : ℕ → List String → List String
unfolding at put
lead zero cs = cs
lead (suc n) [] = []
lead (suc n) (c ∷ cs) = at c n cs ∷ put n c cs

-- The order of the eligible candidates; `draw` is `pickTied`.
pub order_candidates : Strategy → Bool → (String → ℕ) → (ℕ → ℕ) → List String → List String
order_candidates static_order tracked score draw cs = cs
order_candidates latency_order false score draw cs = cs
order_candidates latency_order true score draw cs =
    let sorted = sort_scored score cs in
    let cut = tie_cut score sorted in if ltb 1 cut then lead (draw cut) sorted else sorted

-- What a selection without candidates reports.
refusal : String → ℕ → RouteError
refusal model bound = if ltb 0 bound then unavailable else no_binding model

module _ (breaker : Breaker) where
  -- The breaker's answer on an upstream; an absent breaker is never open.
  pub ask : Bool → breaker.B → String → breaker.B × Bool
  ask true b id = breaker.is_open b id
  ask false b id = (b, false)

  -- The loop over the bindings: the candidates, and how many bindings serve the model.
  pub gather : Option Switch → Bool → String → List Entry → breaker.B → breaker.B × List String × ℕ
  unfolding ask
  gather control breaks model [] b = (b, [], 0)
  gather control breaks model (e ∷ entries) b =
      let (asked, tripped) = ask breaks b e.upstream in
      let skip = gather control breaks model entries b in
      let go_on = gather control breaks model entries asked in
      if serves model e
      then (if allows_upstream control e.upstream
          then (go_on.0, if tripped then go_on.1 else e.upstream ∷ go_on.1, suc go_on.2)
          else (skip.0, skip.1, suc skip.2))
      else skip

  conclude :
      Priority → (String → ℕ) → (ℕ → ℕ) → String → List String → ℕ → Result RouteError (List String)
  unfolding refusal
  conclude p score draw model [] bound = err (refusal model bound)
  conclude p score draw model (c ∷ cs) bound =
      ok (order_candidates p.strategy p.tracked score draw (c ∷ cs))

  -- `Candidates`.
  pub candidates :
      Priority
      → (String → ℕ)
      → (ℕ → ℕ)
      → String
      → breaker.B
      → breaker.B × Result RouteError (List String)
  unfolding conclude
  candidates p score draw model b =
      if allows_model p.control model
      then (let (t, found, bound) = gather p.control p.breaks model p.entries b in
          (t, conclude p score draw model found bound))
      else (b, err disabled)
