-- ===== src/Routes/Dispatch.antt =====
-- core/network/https_server/route/route_controller.cpp: which route answers a request.
use order_book_server_cpp.Prelude.{
  ℕ, ◌≡◌, refl, ap, ◌∙◌, Option, none, some, ◌>>=◌, Bool, true, false, List, [], ◌∷◌, if◌then◌else◌,
  Option-cases, inl, inr,
}
use order_book_server_cpp.HttpRequest.{HttpRequest}
use order_book_server_cpp.HttpRequest.Lookups.{RequestMethod, contains}
use order_book_server_cpp.HttpResponse.{
  HttpResponse, get_response_in_string, append_lines, status_line, response_status_code_map,
  custom_lines,
}
use order_book_server_cpp.Routes.{
  Handled, responds, throws, Route, RouteMap, RouteController, Answer, answers, terminates, broken,
  find_route, answer_text, handled_answer, run_handler, groups_loop, check_handle_by_route_group,
  check_handle_by_route, check_handle, Site, file_or_not_found, handle_request_base_on_route,
}

-- The first group whose path is a part of the URL and that has a route for the method.
unfoldable pub group_route : RouteMap → RequestMethod → List ℕ → Option Route
group_route [] m url = none
group_route ((path, set) ∷ groups) m url =
    let rest = group_route groups m url in
    if contains url path then elim (set m) [ none ↦ rest | some route ↦ some route ] else rest

unfoldable pub exact_route : RouteMap → RequestMethod → List ℕ → Option Route
exact_route routes m url = find_route url routes >>= λ set. set m

-- The route of a request: a group's, or else the one of the URL itself.
unfoldable pub route_of : RouteController → RequestMethod → List ℕ → Option Route
unfolding group_route exact_route
route_of c m url = elim (group_route c.route_group_map m url) [
  | some route ↦ some route
  | none ↦ exact_route c.route_map m url
]

answer_text-empty :
    (double_text : ℕ → List ℕ) (s : Option (List ℕ))
    → answer_text double_text s ≡ answers []
    → s ≡ some []
unfolding answer_text
answer_text-empty double_text none h = cc
answer_text-empty double_text (some s) h = cc

module _ (double_text : ℕ → List ℕ) (site : Site) where
  -- The text of a response is not empty, so an empty text is no response.
  get_response_in_string-not_empty :
      (r : HttpResponse) → ¬ (get_response_in_string double_text r ≡ some [])
  unfolding get_response_in_string append_lines status_line
  get_response_in_string-not_empty r h =
      elim (Option-cases (response_status_code_map r.response_code)) [
        | inl e ↦ cc (rw (get_response_in_string, e) at h)
        | inr (reason, e) ↦ elim (Option-cases (custom_lines double_text r.custom_header)) [
          | inl f ↦ cc (rw (get_response_in_string, e, f) at h)
          | inr (custom, f) ↦ elim (Option-cases r.content) [
            | inl g ↦ cc (rw (get_response_in_string, e, f, g) at h)
            | inr (s, g) ↦ cc (rw (get_response_in_string, e, f, g) at h)
          ]
        ]
      ]

  handled_answer-not_empty : (h : Handled) → ¬ (handled_answer double_text h ≡ answers [])
  unfolding handled_answer
  handled_answer-not_empty (responds r) e =
      get_response_in_string-not_empty r (answer_text-empty double_text _ e)
  handled_answer-not_empty throws e = cc

  run_handler-not_empty :
      (route : Route) (m : RequestMethod) (r : HttpRequest)
      → ¬ (run_handler double_text route m r ≡ answers [])
  unfolding run_handler
  run_handler-not_empty none m r e = cc
  run_handler-not_empty (some h) m r e = handled_answer-not_empty (h m r) e

  -- The answer of a route, if there is one.
  run_route : Option Route → RequestMethod → HttpRequest → Answer
  run_route none m r = answers []
  run_route (some route) m r = run_handler double_text route m r

  groups_step :
      (b : Bool) (o found : Option Route) (rest : Answer) (m : RequestMethod) (r : HttpRequest)
      → rest ≡ run_route found m r
      → (if b
          then elim o [ none ↦ rest | some route ↦ run_handler double_text route m r ]
          else rest)
        ≡ run_route (if b then elim o [ none ↦ found | some route ↦ some route ] else found) m r
  unfolding run_route
  groups_step false o found rest m r h = h
  groups_step true none found rest m r h = h
  groups_step true (some route) found rest m r h = refl

  groups_loop-run_route :
      (groups : RouteMap) (m : RequestMethod) (r : HttpRequest)
      → groups_loop double_text groups m r ≡ run_route (group_route groups m r.url) m r
  unfolding groups_loop run_route group_route
  groups_loop-run_route [] m r = refl
  groups_loop-run_route ((path, set) ∷ groups) m r =
      groups_step (contains r.url path) (set m) (group_route groups m r.url) _ m r
        (groups_loop-run_route groups m r)

  check_handle_by_route-run_route :
      (c : RouteController) (m : RequestMethod) (r : HttpRequest)
      → check_handle_by_route double_text c m r ≡ run_route (exact_route c.route_map m r.url) m r
  unfolding check_handle_by_route run_route exact_route
  check_handle_by_route-run_route c m r = elim (Option-cases (find_route r.url c.route_map)) [
    | inl e ↦ rw (check_handle_by_route, exact_route, e) refl
    | inr (set, e) ↦ elim (Option-cases (set m)) [
      | inl f ↦ rw (check_handle_by_route, exact_route, e, f) refl
      | inr (route, f) ↦ rw (check_handle_by_route, exact_route, e, f) refl
    ]
  ]

  -- An answer that is not an empty text ends the search.
  first_answer :
      (a : Answer) (c : RouteController) (m : RequestMethod) (r : HttpRequest)
      → check_handle_by_route_group double_text c m r ≡ a
      → ¬ (a ≡ answers [])
      → check_handle double_text c m r ≡ a
  unfolding check_handle
  first_answer (answers []) c m r e h = absurd (h refl)
  first_answer (answers (x ∷ s)) c m r e h = rw (check_handle, e) refl
  first_answer terminates c m r e h = rw (check_handle, e) refl
  first_answer broken c m r e h = rw (check_handle, e) refl

  check_handle-run_route :
      (c : RouteController) (m : RequestMethod) (r : HttpRequest)
      → check_handle double_text c m r ≡ run_route (route_of c m r.url) m r
  unfolding check_handle_by_route_group run_route route_of check_handle
  check_handle-run_route c m r =
      let grouped = groups_loop-run_route c.route_group_map m r in
      elim (Option-cases (group_route c.route_group_map m r.url)) [
        | inl e ↦
            let none_found = grouped ∙ ap (λ o. run_route o m r) e in
            rw (check_handle, check_handle_by_route_group, none_found, route_of, e)
              (check_handle_by_route-run_route c m r)
        | inr (route, e) ↦
            let found = grouped ∙ ap (λ o. run_route o m r) e in
            first_answer (run_handler double_text route m r) c m r found
              (run_handler-not_empty route m r)
            ∙ rw (route_of, e) refl
      ]

  kept_answer :
      (a : Answer) (c : RouteController) (m : RequestMethod) (r : HttpRequest)
      → check_handle double_text c m r ≡ a
      → ¬ (a ≡ answers [])
      → handle_request_base_on_route double_text site c m r ≡ a
  unfolding handle_request_base_on_route
  kept_answer (answers []) c m r e h = absurd (h refl)
  kept_answer (answers (x ∷ s)) c m r e h = rw (handle_request_base_on_route, e) refl
  kept_answer terminates c m r e h = rw (handle_request_base_on_route, e) refl
  kept_answer broken c m r e h = rw (handle_request_base_on_route, e) refl

  -- What comes of a request: the text of the response of its route's handler, the end of the program when
  -- the handler throws or is empty, and a file or the page for 404 when there is no route.
  unfoldable pub dispatch : Option Route → RouteController → RequestMethod → HttpRequest → Answer
  unfolding answer_text
  dispatch none c m r = answer_text double_text (file_or_not_found double_text site c r)
  dispatch (some none) c m r = terminates
  dispatch (some (some h)) c m r = elim (h m r) [
    | throws ↦ terminates
    | responds response ↦ answer_text double_text (get_response_in_string double_text response)
  ]

  dispatch-run_handler :
      (route : Route) (c : RouteController) (m : RequestMethod) (r : HttpRequest)
      → run_handler double_text route m r ≡ dispatch (some route) c m r
  unfolding dispatch run_handler handled_answer
  dispatch-run_handler none c m r = refl
  dispatch-run_handler (some h) c m r =
      elim (h m r)
        as (λ k. handled_answer double_text k ≡ elim k [
          | throws ↦ terminates
          | responds response ↦
              answer_text double_text (get_response_in_string double_text response)
        ]) [ throws ↦ refl | responds response ↦ refl ]

  -- The controller sends the response of the first route for the request, and a file or the page for 404
  -- when there is no route: the empty text that stands for `no route` in the code is never the text of a
  -- response. A handler that throws ends the program, and no page for 400 or 500 is sent.
  pub handle_request_base_on_route-dispatch :
      (c : RouteController) (m : RequestMethod) (r : HttpRequest)
      → handle_request_base_on_route double_text site c m r ≡ dispatch (route_of c m r.url) c m r
  unfolding dispatch handle_request_base_on_route run_route
  handle_request_base_on_route-dispatch c m r = elim (Option-cases (route_of c m r.url)) [
    | inl e ↦
        let answer = check_handle-run_route c m r ∙ ap (λ o. run_route o m r) e in
        rw (handle_request_base_on_route, answer, e) refl
    | inr (route, e) ↦
        let answer = check_handle-run_route c m r ∙ ap (λ o. run_route o m r) e in
        kept_answer (run_handler double_text route m r) c m r answer
          (run_handler-not_empty route m r)
        ∙ rw e (dispatch-run_handler route c m r)
  ]
