-- ===== src/Worker/Gate.antt =====
-- Nothing under /admin/ is done without the admin secret.
use vpn_register_kit.Prelude.{
  ℕ, ◌≡◌, refl, sym, ap, ◌∙◌, true, false, not, List, [], ◌∷◌, Option, Text, codes, text_eq,
  text_eq_iff, starts_with, any, ◌==◌, arith, if_elim, if◌then◌else◌,
}
use vpn_register_kit.Js.Result.{ok}
use vpn_register_kit.Auth.{require_admin}
use vpn_register_kit.Runtime.{Runtime}
use vpn_register_kit.Http.{Request, Response, text}
use vpn_register_kit.Act.{World, Act, pure, try_catch}
use vpn_register_kit.Worker.Reply.{with_admin, method_is, method_not_allowed, unauthorized}
use vpn_register_kit.Worker.Nodes.{handle_admin_nodes, handle_admin_node}
use vpn_register_kit.Worker.Admin.{handle_admin_token_create, handle_admin_tokens}
use vpn_register_kit.Worker.Route.{route, fetch, path_is}
use vpn_register_kit.Worker.Route.Cases.{route_elim}

-- A text that begins with /admin/ does not begin with /api/nodes/.
admin_api :
    (s : Text)
    → starts_with s (codes "/admin/") ≡ true
    → starts_with s (codes "/api/nodes/") ≡ true
    → ⊥
unfolding starts_with codes
admin_api [] h k = cc
admin_api (a ∷ []) h k = ground arith
admin_api (a ∷ b ∷ []) h k = ground arith
admin_api (a ∷ b ∷ c ∷ s) h k = ground arith

-- A path that is one text and begins with another.
path_prefix : (s t p : Text) → text_eq s t ≡ true → starts_with s p ≡ true → starts_with t p ≡ true
path_prefix s t p same begins = ap (λ x. starts_with x p) (sym ((text_eq_iff s t).0 same)) ∙ begins

abbrev pub refusals : List ℕ
refusals = 401 ∷ 404 ∷ 405 ∷ []

-- The run from w answers with a refusal, and leaves the world as it is.
pub record Refuses (w : World) (m : Act Response) : Type 0 where
  pub answer : Response
  pub answered : m w ≡ (ok answer, w)
  pub refused : any (λ c. answer.status == c) refusals ≡ true

module _ (w : World) where
  Refuses-pure : (r : Response) → any (λ c. r.status == c) refusals ≡ true → Refuses w (pure r)
  Refuses-pure r h = record { answer = r; answered = refl; refused = h }

  Refuses-method :
      (request : Request) (method : Text) (m : Act Response)
      → Refuses w m
      → Refuses w (if not (method_is request method) then pure method_not_allowed else m)
  unfolding text
  Refuses-method request method m h =
      if_elim (Refuses w) (not (method_is request method)) _ m (λ _. Refuses-pure _ refl) (λ _. h)

module _ (rt : Runtime) (admin_token : Option Text) (request : Request) (w : World) where
  Refuses-admin :
      (act : Act Response)
      → require_admin request admin_token ≡ false
      → Refuses w (with_admin request admin_token act)
  unfolding with_admin text
  Refuses-admin act nobody = rw nobody (Refuses-pure w unauthorized refl)

  -- The other routes are not under /admin/.
  elsewhere :
      (t : Text)
      → starts_with t (codes "/admin/") ≡ false
      → starts_with request.pathname (codes "/admin/") ≡ true
      → path_is rt admin_token request t ≡ true
      → ⊥
  elsewhere t other under same =
      let begins = path_prefix request.pathname t (codes "/admin/") same under in ground arith

  route-Refuses :
      starts_with request.pathname (codes "/admin/") ≡ true
      → require_admin request admin_token ≡ false
      → Refuses w (route rt admin_token request)
  unfolding handle_admin_nodes handle_admin_node handle_admin_token_create handle_admin_tokens text
      starts_with codes
  route-Refuses under nobody =
      route_elim rt admin_token request (Refuses w)
        (λ at. absurd (elsewhere (codes "/health") refl under at))
        (λ at. absurd (elsewhere (codes "/register") refl under at))
        (λ at. absurd (elsewhere (codes "/sub") refl under at))
        (λ at. absurd (elsewhere (codes "/api/nodes") refl under at))
        (λ begins. absurd (admin_api request.pathname under begins))
        (λ _. Refuses-method w request _ _ (Refuses-admin _ nobody))
        (λ _. Refuses-method w request _ _ (Refuses-admin _ nobody))
        (λ _. Refuses-method w request _ _ (Refuses-admin _ nobody))
        (λ _. Refuses-method w request _ _ (Refuses-admin _ nobody)) (Refuses-pure w _ refl)

-- A request under /admin/ that does not bear the admin secret is answered with 401, 404 or 405, and
-- changes nothing: no table, no log and no console.
pub admin_gate :
    (rt : Runtime) (admin_token : Option Text) (request : Request) (w : World)
    → starts_with request.pathname (codes "/admin/") ≡ true
    → require_admin request admin_token ≡ false
    → Refuses w (fetch rt admin_token request)
unfolding fetch try_catch
admin_gate rt admin_token request w under nobody =
    let r = route-Refuses rt admin_token request w under nobody in
    record { answer = r.answer; answered = rw r.answered; refused = r.refused }
