-- ===== src/Worker/Status.antt =====
-- Every request is answered, and with which status.
use vpn_register_kit.Prelude.{
  ℕ, ◌≡◌, refl, Bool, true, false, List, [], ◌∷◌, Option, none, some, Text, ◌⊎◌, inl, inr, any,
  ◌==◌, if◌then◌else◌,
}
use vpn_register_kit.Js.Value.{Value}
use vpn_register_kit.Js.Result.{Thrown, Result, ok, err}
use vpn_register_kit.Runtime.{Runtime}
use vpn_register_kit.Http.{Request, Response, json, text}
use vpn_register_kit.Act.{World, Act, pure, ◌>>=◌, try_catch, print}
use vpn_register_kit.Act.Answers.{Answers, Answers-pure, Answers-bind}
use vpn_register_kit.Logs.{Meta}
use vpn_register_kit.Renderers.{Rendered}
use vpn_register_kit.Db.Rows.{Node}
use vpn_register_kit.Db.Tables.{TokenRow}
use vpn_register_kit.Worker.Reply.{with_admin}
use vpn_register_kit.Worker.Register
use vpn_register_kit.Worker.Register.{handle_register, register, check, accept, refuse}
use vpn_register_kit.Worker.Subscription
use vpn_register_kit.Worker.Subscription.{handle_sub, subscribe, deliver}
use vpn_register_kit.Worker.Nodes.{
  list_summaries, report_deleted, delete_valid, delete_node_from_path, admit,
  with_register_or_admin, handle_api_nodes, handle_admin_nodes, handle_api_node, handle_admin_node,
}
use vpn_register_kit.Worker.Admin.{
  create_token, create_kind, create_from_body, handle_admin_token_create, list_all,
  handle_admin_tokens,
}
use vpn_register_kit.Worker.Route.{route, fetch, internal_error}
use vpn_register_kit.Worker.Route.Cases.{route_elim, create_kind_elim}

-- A status of the list.
abbrev pub HasStatus : List ℕ → Response → Type 0
HasStatus codes_ r = any (λ c. r.status == c) codes_ ≡ true

abbrev pub served : List ℕ
served = 200 ∷ 400 ∷ 401 ∷ 404 ∷ 405 ∷ []

abbrev Served : Act Response → Type 0
Served m = Answers (HasStatus served) m

Served-pure : (r : Response) → HasStatus served r → Served (pure r)
Served-pure r h = Answers-pure (HasStatus served) r h

Served-after :
    {A : Type 0} (m : Act A) (f : A → Act Response) → ((a : A) → Served (f a)) → Served (m >>= f)
Served-after m f h = Answers-bind (HasStatus served) m f h

Served-if : (b : Bool) (m n : Act Response) → Served m → Served n → Served (if b then m else n)
Served-if true m n hm hn = hm
Served-if false m n hm hn = hn

module _ (rt : Runtime) (request : Request) where
  deny-Served : (meta : Meta) (token : Text) → Served (Register.deny rt request meta token)
  unfolding Register.deny text
  deny-Served meta token = Served-after _ _ λ _. Served-after _ _ λ _. Served-pure _ refl

  accept-Served :
      (meta : Meta) (row : TokenRow) (body : Value) → Served (accept rt request meta row body)
  unfolding accept json
  accept-Served meta row body = Served-after _ _ λ _. Served-after _ _ λ _. Served-after _ _ λ _.
      Served-after _ _
        λ _. Served-after _ _ λ _. Served-after _ _ λ _. Served-after _ _ λ _. Served-pure _ refl

  check-Served :
      (meta : Meta) (row : TokenRow) (body : Value) (verdict : Result (Unit {0}))
      → Served (check rt request meta row body verdict)
  unfolding check refuse text
  check-Served meta row body (ok done) = accept-Served meta row body
  check-Served meta row body (err e) =
      Served-after _ _ λ _. Served-after _ _ λ _. Served-pure _ refl

  register-Served :
      (meta : Meta) (token : Text) (row : Option TokenRow)
      → Served (register rt request meta token row)
  unfolding register
  register-Served meta token none = deny-Served meta token
  register-Served meta token (some row) = Served-after _ _ λ body. check-Served meta row body _

  handle_register-Served : Served (handle_register rt request)
  unfolding handle_register text
  handle_register-Served =
      Served-if _ _ _ (Served-pure _ refl) (Served-after _ _ (register-Served _ _))

  deliver-Served :
      (meta : Meta) (row : TokenRow) (nodes : List Node) (r : Result Rendered)
      → Served (deliver rt request meta row nodes r)
  unfolding deliver text
  deliver-Served meta row nodes (err e) = Served-pure _ refl
  deliver-Served meta row nodes (ok rendered) =
      Served-after _ _ λ _. Served-after _ _ λ _. Served-pure _ refl

  subscribe-Served :
      (meta : Meta) (token : Text) (row : Option TokenRow)
      → Served (subscribe rt request meta token row)
  unfolding subscribe Subscription.deny text
  subscribe-Served meta token none = Served-after _ _ λ _. Served-after _ _ λ _. Served-pure _ refl
  subscribe-Served meta token (some row) = Served-after _ _ λ nodes. deliver-Served meta row nodes _

  handle_sub-Served : Served (handle_sub rt request)
  unfolding handle_sub text
  handle_sub-Served = Served-if _ _ _ (Served-pure _ refl) (Served-after _ _ (subscribe-Served _ _))

  list_summaries-Served : Served (list_summaries rt request)
  unfolding list_summaries json
  list_summaries-Served = Served-after _ _ λ _. Served-after _ _ λ _. Served-pure _ refl

  report_deleted-Served :
      (node_id : Text) (deleted : Bool) → Served (report_deleted rt request node_id deleted)
  unfolding report_deleted text json
  report_deleted-Served node_id false = Served-after _ _ λ _. Served-pure _ refl
  report_deleted-Served node_id true =
      Served-after _ _ λ _. Served-after _ _ λ _. Served-pure _ refl

  delete_node_from_path-Served : (prefix : Text) → Served (delete_node_from_path rt request prefix)
  unfolding delete_node_from_path delete_valid text
  delete_node_from_path-Served prefix = Served-after _ _ λ node_id.
      Served-if _ _ _ (Served-pure _ refl) (Served-after _ _ (report_deleted-Served node_id))

  create_token-Served : (kind : Text) → Served (create_token rt request kind)
  unfolding create_token json
  create_token-Served kind =
      Served-after _ _
        λ _. Served-after _ _ λ _. Served-after _ _ λ _. Served-after _ _ λ _. Served-pure _ refl

  create_kind-Served : (kind : Value) → Served (create_kind rt request kind)
  unfolding text
  create_kind-Served kind =
      create_kind_elim rt request kind Served (create_token-Served _) (create_token-Served _)
        (Served-pure _ refl)

module _ (rt : Runtime) (request : Request) (admin_token : Option Text) where
  with_admin-Served :
      (act : Act Response) → Served act → Served (with_admin request admin_token act)
  unfolding with_admin text
  with_admin-Served act h = Served-if _ _ _ (Served-pure _ refl) h

  admit-Served :
      (act : Act Response) (row : Option TokenRow)
      → Served act
      → Served (admit rt request admin_token act row)
  unfolding admit text
  admit-Served act none h = Served-if _ _ _ h (Served-pure _ refl)
  admit-Served act (some row) h = h

  with_register_or_admin-Served :
      (act : Act Response) → Served act → Served (with_register_or_admin rt request admin_token act)
  unfolding with_register_or_admin
  with_register_or_admin-Served act h = Served-after _ _ λ row. admit-Served act row h

  handle_api_nodes-Served : Served (handle_api_nodes rt request admin_token)
  unfolding handle_api_nodes text
  handle_api_nodes-Served =
      Served-if _ _ _ (Served-pure _ refl)
        (with_register_or_admin-Served _ (list_summaries-Served rt request))

  handle_api_node-Served : Served (handle_api_node rt request admin_token)
  unfolding handle_api_node text
  handle_api_node-Served =
      Served-if _ _ _ (Served-pure _ refl)
        (with_register_or_admin-Served _ (delete_node_from_path-Served rt request _))

  handle_admin_nodes-Served : Served (handle_admin_nodes rt request admin_token)
  unfolding handle_admin_nodes text
  handle_admin_nodes-Served =
      Served-if _ _ _ (Served-pure _ refl) (with_admin-Served _ (list_summaries-Served rt request))

  handle_admin_node-Served : Served (handle_admin_node rt request admin_token)
  unfolding handle_admin_node text
  handle_admin_node-Served =
      Served-if _ _ _ (Served-pure _ refl)
        (with_admin-Served _ (delete_node_from_path-Served rt request _))

  handle_admin_tokens-Served : Served (handle_admin_tokens rt request admin_token)
  unfolding handle_admin_tokens list_all text json
  handle_admin_tokens-Served =
      Served-if _ _ _ (Served-pure _ refl)
        (with_admin-Served _ (Served-after _ _ λ _. Served-pure _ refl))

  handle_admin_token_create-Served : Served (handle_admin_token_create rt request admin_token)
  unfolding handle_admin_token_create create_from_body text
  handle_admin_token_create-Served =
      Served-if _ _ _ (Served-pure _ refl)
        (with_admin-Served _ (Served-after _ _ λ given. create_kind-Served rt request _))

  -- A route that returns has one of the five statuses of the handlers.
  route-Served : Answers (HasStatus served) (route rt admin_token request)
  unfolding text json
  route-Served =
      route_elim rt admin_token request Served (λ _. Served-pure _ refl)
        (λ _. handle_register-Served rt request) (λ _. handle_sub-Served rt request)
        (λ _. handle_api_nodes-Served) (λ _. handle_api_node-Served)
        (λ _. handle_admin_token_create-Served) (λ _. handle_admin_tokens-Served)
        (λ _. handle_admin_nodes-Served) (λ _. handle_admin_node-Served) (Served-pure _ refl)

-- A response, which `fetch` returns: the route's own, or the 500 of a route that threw.
abbrev pub Answered : Runtime → Request → Option Text → World → Type 0
Answered rt request admin_token w =
    (r : Response) × ((fetch rt admin_token request w).0 ≡ ok r)
    × ((((route rt admin_token request w).0 ≡ ok r) × HasStatus served r)
        ⊎ ((e : Thrown) × ((route rt admin_token request w).0 ≡ err e) × (r.status ≡ 500)))

-- `fetch` never throws: it returns a response, with one of the five statuses of the handlers where
-- the route returned, and with 500 exactly where the route threw.
pub fetch_answers :
    (rt : Runtime) (request : Request) (admin_token : Option Text) (w : World)
    → Answered rt request admin_token w
unfolding fetch try_catch ◌>>=◌ print json
fetch_answers rt request admin_token w = go (route rt admin_token request w).0 refl
  where
    go :
        (r : Result Response)
        → (route rt admin_token request w).0 ≡ r
        → Answered rt request admin_token w
    go (ok r) e = (r, rw e, inl (e, (route-Served rt request admin_token).at w r e))
    go (err t) e = (internal_error rt admin_token request, rw e, inr (t, e, refl))
