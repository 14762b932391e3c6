-- ===== src/Server/Guards.antt =====
-- main.go: what `authAPI` asks for each route.
use tor_country_manager.Shared.{
  Bool, true, false, ◌&&◌, ◌||◌, ◌⊎◌, List, [], ◌∷◌, Option, none, some, ◌≡◌, refl, sym, ap, ◌∙◌,
  All, Bool-cases, Option-cases, inl, inr,
}
use tor_country_manager.Shared.Text.{Text, text, same, same_iff, has_prefix}
use tor_country_manager.Server.Routing.{
  Method, Route, Segment, word, hole, Entry, route_table, takes_method, fills_hole, match_pattern,
  first_match, find_route, path_of, Guard, open_to_all, administrator, client_key, guard_of,
  public_api_path,
}
use tor_country_manager.Auth.Store.{configured, valid_session}
use tor_country_manager.Settings.Store.{valid_bearer_token}
use tor_country_manager.Server.State.{Server, Request, Response, Libraries, World}
use tor_country_manager.Server.Serve.{
  only, is_get, same_origin_request, refusal, refuse_or, handle, dispatch, serve,
}

-- Who may use a route: the report and what is needed to log in are open, the routes of the clients need
-- their key, and all the others a session of the administrator.
abbrev pub route_guard : Route → Guard
route_guard Route.healthz = open_to_all
route_guard Route.session = open_to_all
route_guard Route.setup_password = open_to_all
route_guard Route.login = open_to_all
route_guard Route.client_countries = client_key
route_guard Route.create_route = client_key
route_guard Route.get_route = client_key
route_guard Route.delete_route = client_key
route_guard _ = administrator

abbrev others : List Text → List Text
others [] = []
others (t ∷ ts) = ts

-- The path of a pattern whose wildcards are these.
fill : List Segment → List Text → List Text
fill [] holes = []
fill (word w ∷ ps) holes = w ∷ fill ps holes
fill (hole ∷ ps) holes = only holes ∷ fill ps (others holes)

match-fill :
    (ps : List Segment) (segments holes : List Text)
    → match_pattern ps segments ≡ some holes
    → segments ≡ fill ps holes
unfolding match_pattern fill
match-fill [] [] holes h = refl
match-fill [] (s ∷ ss) holes h = cc
match-fill (word w ∷ ps) [] holes h = cc
match-fill (hole ∷ ps) [] holes h = cc
match-fill (word w ∷ ps) (s ∷ ss) holes h = elim (Bool-cases (same w s)) [
  | inl e ↦
      let rest = match-fill ps ss holes (rw e at h) in
      let name : s ≡ w = sym ((same_iff w s).0 e) in cc
  | inr e ↦ let k : none ≡ some holes = rw e at h in cc
]
match-fill (hole ∷ ps) (s ∷ ss) holes h = elim (Bool-cases (fills_hole s)) [
  | inl e ↦ elim (Option-cases (match_pattern ps ss)) [
    | inl f ↦ let k : none ≡ some holes = rw (e, f) at h in cc
    | inr (later, f) ↦
        let k : some (s ∷ later) ≡ some holes = rw (e, f) at h in
        let found : s ∷ later ≡ holes = cc in
        ap (λ t. s ∷ t) (match-fill ps ss later f) ∙ ap (λ hs. only hs ∷ fill ps (others hs)) found
  ]
  | inr e ↦ let k : none ≡ some holes = rw e at h in cc
]

abbrev Guarded : Entry → Type 0
Guarded e = (holes : List Text) → guard_of (path_of (fill e.pattern holes)) ≡ route_guard e.route

first_match-guard :
    (e : Entry) (segments : List Text) (o : Option (List Text)) (rest : Option (Route × List Text))
    (route : Route) (holes : List Text)
    → Guarded e
    → match_pattern e.pattern segments ≡ o
    → (rest ≡ some (route, holes) → guard_of (path_of segments) ≡ route_guard route)
    → first_match e o rest ≡ some (route, holes)
    → guard_of (path_of segments) ≡ route_guard route
unfolding first_match
first_match-guard e segments none rest route holes g m later h = later h
first_match-guard e segments (some found) rest route holes g m later h =
    let name : e.route ≡ route = cc in
    ap (λ t. guard_of (path_of t)) (match-fill e.pattern segments found m)
    ∙ g found
    ∙ ap route_guard name

find_route-guard :
    (es : List Entry) (method : Method) (segments : List Text) (route : Route) (holes : List Text)
    → All Guarded es
    → find_route es method segments ≡ some (route, holes)
    → guard_of (path_of segments) ≡ route_guard route
unfolding find_route
find_route-guard [] method segments route holes a h = cc
find_route-guard (e ∷ es) method segments route holes a h =
    elim (Bool-cases (takes_method e.method method)) [
      | inl y ↦
          first_match-guard e segments _ _ route holes a.0 refl
            (find_route-guard es method segments route holes a.1) (rw y at h)
      | inr n ↦ find_route-guard es method segments route holes a.1 (rw n at h)
    ]

table-Guarded : All Guarded route_table
unfolding guard_of path_of fill text has_prefix public_api_path same
table-Guarded = (
  (λ h. refl),
  (
    (λ h. refl),
    (
      (λ h. refl),
      (
        (λ h. refl),
        (
          (λ h. refl),
          (
            (λ h. refl),
            (
              (λ h. refl),
              (
                (λ h. refl),
                (
                  (λ h. refl),
                  (
                    (λ h. refl),
                    (
                      (λ h. refl),
                      (
                        (λ h. refl),
                        (
                          (λ h. refl),
                          (
                            (λ h. refl),
                            (
                              (λ h. refl),
                              (
                                (λ h. refl),
                                (
                                  (λ h. refl),
                                  (
                                    (λ h. refl),
                                    (
                                      (λ h. refl),
                                      (
                                        (λ h. refl),
                                        (
                                          (λ h. refl),
                                          (
                                            (λ h. refl),
                                            (
                                              (λ h. refl),
                                              ((λ h. refl), ((λ h. refl), ((λ h. refl), tt))),
                                            ),
                                          ),
                                        ),
                                      ),
                                    ),
                                  ),
                                ),
                              ),
                            ),
                          ),
                        ),
                      ),
                    ),
                  ),
                ),
              ),
            ),
          ),
        ),
      ),
    ),
  ),
)

-- The check in front of a route is that of the route, whatever its path and its wildcards are.
pub find_route-guarded :
    (method : Method) (segments : List Text) (route : Route) (holes : List Text)
    → find_route route_table method segments ≡ some (route, holes)
    → guard_of (path_of segments) ≡ route_guard route
find_route-guarded method segments route holes h =
    find_route-guard route_table method segments route holes table-Guarded h

-- The request has the key of the clients; and it comes from the administrator: a password is configured,
-- the session is valid, and what is not a read comes from the same origin.
abbrev has_key : Server → Request → Bool
has_key s r = valid_bearer_token (some s.key) r.authorization

abbrev is_administrator : Libraries → Server → Request → World → Bool
is_administrator lib s r w =
    configured s.auth
    && (valid_session s.auth r.cookie w.now && (is_get r.method || same_origin_request lib r))

-- The request is answered by the handler if it may, and else refused without an effect.
abbrev Decided : Server → (may : Bool) → (handled served : Server × Response) → Type 0
Decided s true handled served = served ≡ handled
Decided s false handled served =
    (served.0 ≡ s) × ((served.1.status ≡ 401) ⊎ ((served.1.status ≡ 403) ⊎ (served.1.status ≡ 428)))

abbrev may_use : Libraries → Server → Request → World → Guard → Bool
may_use lib s r w open_to_all = true
may_use lib s r w client_key = has_key s r
may_use lib s r w administrator = is_administrator lib s r w

refuse_or-Decided :
    (lib : Libraries) (s : Server) (r : Request) (w : World) (g : Guard)
    (handled : Server × Response)
    → Decided s (may_use lib s r w g) handled (refuse_or s (refusal lib s r w g) handled)
unfolding refuse_or refusal
refuse_or-Decided lib s r w open_to_all handled = refl
refuse_or-Decided lib s r w client_key handled = elim (Bool-cases (has_key s r)) [
  | inl e ↦ rw e refl
  | inr e ↦ rw e (refl, inl refl)
]
refuse_or-Decided lib s r w administrator handled = elim (Bool-cases (configured s.auth)) [
  | inr e ↦ rw e (refl, inr (inr refl))
  | inl e ↦ elim (Bool-cases (valid_session s.auth r.cookie w.now)) [
    | inr f ↦ rw (e, f) (refl, inl refl)
    | inl f ↦ elim (Bool-cases (same_origin_request lib r)) [
      | inl o ↦ elim (Bool-cases (is_get r.method)) [
        | inl k ↦ rw (e, f, o, k) refl
        | inr k ↦ rw (e, f, o, k) refl
      ]
      | inr o ↦ elim (Bool-cases (is_get r.method)) [
        | inl k ↦ rw (e, f, o, k) refl
        | inr k ↦ rw (e, f, o, k) (refl, inr (inl refl))
      ]
    ]
  ]
]

-- A request to a route meets the check of the route, whatever the path and its wildcards are: for the
-- routes of the clients the key, for all others but the report, the state of the session, the first
-- password and the login a configured password, a valid session and, unless it is a GET, the
-- same origin. What passes is answered by the handler of the route; anything else is refused, with 401,
-- 403 or 428, and changes nothing.
pub routes_are_guarded :
    (lib : Libraries) (s : Server) (r : Request) (w : World) (route : Route) (holes : List Text)
    → find_route route_table r.method r.segments ≡ some (route, holes)
    → Decided s
        (may_use lib s r w (route_guard route))
        (handle lib s r w route holes)
        (serve lib s r w)
unfolding serve dispatch
routes_are_guarded lib s r w route holes h =
    let own = find_route-guarded r.method r.segments route holes h in
    rw (own, h) (refuse_or-Decided lib s r w (route_guard route) (handle lib s r w route holes))
