-- ===== src/Net/Web/Routes.antt =====
-- Which handler answers a request.
use esp32emu.Base.{
  ℕ, ◌≡◌, refl, ap, ◌∙◌, ◌⊎◌, true, false, none, some, List, [], ◌∷◌, ◌++◌, arith, All, str_eq_iff,
}
use esp32emu.Base.Strings.{codes}
use esp32emu.Net.Web.{WebServer, Route, send}
use esp32emu.Net.Web.Request.{fits, first_route, dispatch}

-- A route is for its URI, and for its method or for every method.
abbrev pub Serves : WebServer → Route → Type 0
Serves s r = (r.uri ≡ s.current_uri) × ((r.method ≡ 0) ⊎ (r.method ≡ s.current_method))

fits-Serves : (s : WebServer) (r : Route) → Serves s r → fits s r ≡ true
unfolding fits
fits-Serves s r h = ground (arith, str_eq_iff r.uri s.current_uri)

fits-not_Serves : (s : WebServer) (r : Route) → ¬ Serves s r → fits s r ≡ false
unfolding fits
fits-not_Serves s r h = ground (arith, str_eq_iff r.uri s.current_uri)

first_route-append :
    (s : WebServer) (before after : List Route) (r : Route)
    → All (λ q. ¬ Serves s q) before
    → Serves s r
    → first_route s (before ++ r ∷ after) ≡ some r.handler
unfolding first_route
first_route-append s [] after r h serves = rw (fits-Serves s r serves)
first_route-append s (q ∷ before) after r h serves =
    rw (fits-not_Serves s q h.0) (first_route-append s before after r h.1 serves)

first_route-none :
    (s : WebServer) (rs : List Route) → All (λ q. ¬ Serves s q) rs → first_route s rs ≡ none
unfolding first_route
first_route-none s [] h = refl
first_route-none s (q ∷ rs) h = rw (fits-not_Serves s q h.0) (first_route-none s rs h.1)

-- The first of the routes, in the order of their registration, that is for the request's URI and for
-- its method or any handles the request. If none is, the handler for that case does, or else the
-- client is sent the answer 404.
pub dispatch_lem :
    (run : ℕ → WebServer → WebServer) (s : WebServer)
    → ((before after : List Route) (r : Route)
        → s.routes ≡ before ++ r ∷ after
        → All (λ q. ¬ Serves s q) before
        → Serves s r
        → dispatch run s ≡ run r.handler s)
      × (All (λ q. ¬ Serves s q) s.routes
          → ((k : ℕ) → s.not_found_handler ≡ some k → dispatch run s ≡ run k s)
            × (s.not_found_handler ≡ none
                → dispatch run s ≡ send 404 (codes "text/plain") (codes "Not Found") s))
unfolding dispatch
dispatch_lem run s = (
  λ before after r e h serves.
      let first = ap (first_route s) e ∙ first_route-append s before after r h serves in
      rw (dispatch, first),
  λ h.
      let first = first_route-none s s.routes h in
      (λ k n. rw (dispatch, first) (simp n), λ n. rw (dispatch, first) (simp n)),
)
