-- ===== src/Router/Control/View.antt =====
-- control.go: the snapshot that the admin surface shows.
use breakwater.Base.{
  Bool, false, not, ◌&&◌, [], ◌∷◌, Option, none, some, String, Assoc, lookup, insert, lookup-insert,
  if◌then◌else◌, ◌≡◌, refl, ◌∙◌, ap, str_eq, eq_iff, arith,
}
use breakwater.Router.Control.{Switch, AutoDisable, is_some, flag, model_enabled, upstream_enabled}

pub record SwitchView : Type 0 where
  pub models : Assoc Bool
  pub upstreams : Assoc Bool
  pub auto : Assoc AutoDisable

known_models_of : Switch → Assoc (Unit {0}) → Assoc Bool → Assoc Bool
known_models_of s [] models = models
known_models_of s ((m, u) ∷ rest) models =
    known_models_of s rest (insert m (not (flag (lookup m s.disabled_models))) models)

disabled_models_of : Switch → Assoc Bool → Assoc Bool → Assoc Bool
disabled_models_of s [] models = models
disabled_models_of s ((m, b) ∷ rest) models =
    disabled_models_of s rest
      (if is_some (lookup m s.known_models) then models else insert m false models)

add_auto : String → Option AutoDisable → SwitchView → SwitchView
add_auto u none v = v
add_auto u (some a) v = record v {
  upstreams = insert u false v.upstreams;
  auto = insert u a v.auto;
}

upstreams_of : Switch → Assoc (Unit {0}) → SwitchView → SwitchView
unfolding add_auto
upstreams_of s [] v = v
upstreams_of s ((u, x) ∷ rest) v = upstreams_of s rest (
    add_auto u (lookup u s.auto_disabled)
      (record v { upstreams = insert u (not (flag (lookup u s.disabled_upstreams))) v.upstreams }))

-- `View`, the maps ranged over in the order of their lists.
pub view : Switch → SwitchView
unfolding known_models_of disabled_models_of upstreams_of
view s = upstreams_of s s.known_upstreams (record {
  models = disabled_models_of s s.disabled_models (known_models_of s s.known_models []);
  upstreams = [];
  auto = [];
})

auto_turn :
    (s : Switch) (u id : String) (o : Option AutoDisable) (v : SwitchView)
    → lookup id
        (add_auto u o (record v {
          upstreams = insert u (not (flag (lookup u s.disabled_upstreams))) v.upstreams;
        })).upstreams
      ≡ (if str_eq u id
          then some (not (flag (lookup u s.disabled_upstreams)) && not (is_some o))
          else lookup id v.upstreams)
unfolding add_auto
auto_turn s u id none v =
    ground (arith, lookup-insert id u (not (flag (lookup u s.disabled_upstreams))) v.upstreams)
auto_turn s u id (some a) v =
    let shown = insert u (not (flag (lookup u s.disabled_upstreams))) v.upstreams in
    ground (
      arith,
      lookup-insert id u (not (flag (lookup u s.disabled_upstreams))) v.upstreams,
      lookup-insert id u false shown,
    )

upstreams_of-lookup :
    (s : Switch) (known : Assoc (Unit {0})) (v : SwitchView) (id : String)
    → lookup id (upstreams_of s known v).upstreams
      ≡ (if is_some (lookup id known) then some (upstream_enabled s id) else lookup id v.upstreams)
unfolding upstreams_of lookup upstream_enabled
upstreams_of-lookup s [] v id = refl
upstreams_of-lookup s ((u, x) ∷ rest) v id =
    let shown = record v {
      upstreams = insert u (not (flag (lookup u s.disabled_upstreams))) v.upstreams;
    } in
    upstreams_of-lookup s rest (add_auto u (lookup u s.auto_disabled) shown) id
    ∙ ground (arith, eq_iff u id, auto_turn s u id (lookup u s.auto_disabled) v)

auto_models :
    (u : String) (o : Option AutoDisable) (v : SwitchView) → (add_auto u o v).models ≡ v.models
unfolding add_auto
auto_models u none v = refl
auto_models u (some a) v = refl

upstreams_of-models :
    (s : Switch) (known : Assoc (Unit {0})) (v : SwitchView)
    → (upstreams_of s known v).models ≡ v.models
unfolding upstreams_of
upstreams_of-models s [] v = refl
upstreams_of-models s ((u, x) ∷ rest) v =
    let shown = record v {
      upstreams = insert u (not (flag (lookup u s.disabled_upstreams))) v.upstreams;
    } in
    upstreams_of-models s rest (add_auto u (lookup u s.auto_disabled) shown)
    ∙ auto_models u (lookup u s.auto_disabled) shown

known_models_of-lookup :
    (s : Switch) (known : Assoc (Unit {0})) (models : Assoc Bool) (id : String)
    → lookup id (known_models_of s known models)
      ≡ (if is_some (lookup id known) then some (model_enabled s id) else lookup id models)
unfolding known_models_of lookup model_enabled
known_models_of-lookup s [] models id = refl
known_models_of-lookup s ((m, x) ∷ rest) models id =
    let shown = insert m (not (flag (lookup m s.disabled_models))) models in
    known_models_of-lookup s rest shown id
    ∙ ground
        (arith, eq_iff m id, lookup-insert id m (not (flag (lookup m s.disabled_models))) models)

disabled_models_of-lookup :
    (s : Switch) (disabled models : Assoc Bool) (id : String)
    → lookup id (disabled_models_of s disabled models) ≡ (
        if is_some (lookup id disabled) && not (is_some (lookup id s.known_models))
        then some false
        else lookup id models)
unfolding disabled_models_of lookup
disabled_models_of-lookup s [] models id = refl
disabled_models_of-lookup s ((m, b) ∷ rest) models id =
    let next = if is_some (lookup m s.known_models) then models else insert m false models in
    disabled_models_of-lookup s rest next id
    ∙ ground (arith, eq_iff m id, lookup-insert id m false models)

-- The snapshot shows each configured upstream and model with the answer that the candidate
-- selection gets for it, shows as disabled a model that was switched off without being configured,
-- and shows no other name.
pub view-enabled :
    (s : Switch) (id : String)
    → (lookup id (view s).upstreams
        ≡ (if is_some (lookup id s.known_upstreams) then some (upstream_enabled s id) else none))
      × (lookup id (view s).models ≡ (
          if is_some (lookup id s.known_models)
          then some (model_enabled s id)
          else (if is_some (lookup id s.disabled_models) then some false else none)))
unfolding view lookup
view-enabled s id =
    let known = known_models_of s s.known_models [] in
    let models = disabled_models_of s s.disabled_models known in
    let start : SwitchView = record { models = models; upstreams = []; auto = [] } in
    (
      upstreams_of-lookup s s.known_upstreams start id,
      ap (lookup id) (upstreams_of-models s s.known_upstreams start)
          ∙ ground (
            arith,
            disabled_models_of-lookup s s.disabled_models known id,
            known_models_of-lookup s s.known_models [] id,
          ),
    )
