-- ===== src/Auth/Lru/Tests.antt =====
-- Two keys through a cache of one.
use breakwater.Base.{ℕ, ◌≤◌, ◌≡◌, refl, List, [], ◌∷◌, some, String, Result, ok, size}
use breakwater.Auth.Lru.{AuthError, new_cached_store}
use breakwater.Auth.Lru.Transparent.{Request, resolve_all, resolve_all-transparent}

abbrev requests : List Request
requests =
    record { api_key = "k1"; now = 0; later = 1 }
    ∷ record { api_key = "k2"; now = 2; later = 2 }
    ∷ record { api_key = "k1"; now = 900; later = 901 }
    ∷ []

abbrev answers : String → Result AuthError String
answers a = ok a

abbrev inner : ℕ → String → ℕ × Result AuthError String
inner w a = (w, ok a)

resolve_all-transparent_example :
    let r = resolve_all (λ a. a) inner (new_cached_store (some 1) 500 50) 0 requests in
    (size r.0.entries ≤ 1) × (r.1 ≡ ok "k1" ∷ ok "k2" ∷ ok "k1" ∷ [])
resolve_all-transparent_example =
    resolve_all-transparent (λ a. a) inner answers (λ a b h. h) (λ w a. refl) (some 1) 500 50 0
      requests
