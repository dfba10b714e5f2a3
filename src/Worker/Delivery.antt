-- ===== src/Worker/Delivery.antt =====
-- What a subscriber gets: the stored nodes, ordered by their ids, in the format asked for.
use mathlib.Core.Path.{subst}
use vpn_register_kit.Prelude.{
  ◌≡◌, refl, sym, ap, ◌∙◌, ◌⊎◌, inl, inr, true, false, List, [], ◌∷◌, ◌++◌, some, Text, codes,
  is_empty, Bool-cases,
}
use vpn_register_kit.Js.Result.{Thrown, Result, ok, err}
use vpn_register_kit.Js.Lower.{to_lower_case}
use vpn_register_kit.Auth.{hash_token}
use vpn_register_kit.Runtime.{Runtime}
use vpn_register_kit.Http.{Request, Response, text, search_param}
use vpn_register_kit.Act.{World, continue, ◌>>=◌}
use vpn_register_kit.Act.Returns.{Returns, IsHealthy, Returns-pure, Returns-after, bind_run}
use vpn_register_kit.Logs.{Meta, request_meta}
use vpn_register_kit.Renderers.{Rendered, render_subscription}
use vpn_register_kit.Renderers.Formats.{
  Format, OneOf, names, media_type, IsDocument, Fails, RenderRun, render_subscription_run,
}
use vpn_register_kit.Db.Tables.{TokenRow, NodeRow, select_token}
use vpn_register_kit.Db.Rows.{Node, message}
use vpn_register_kit.Db.Reading.{IsListing, IsUnreadable, ListingRun, list_nodes_lists}
use vpn_register_kit.Db.{find_enabled_token, list_nodes}
use vpn_register_kit.Db.Frames.{find_enabled_token-Steps}
use vpn_register_kit.Db.Success.{write_audit-Returns, find_enabled_token-run}
use vpn_register_kit.Worker.Effects.{SameNodes-quiet}
use vpn_register_kit.Worker.Reply.{method_is}
use vpn_register_kit.Worker.Success.{log_info-Returns}
use vpn_register_kit.Worker.Subscription.{requested_format, deliver, subscribe, handle_sub}

-- The reply to a rendering: its text with 200, or the message of its error with 400.
abbrev pub rendering_reply : Runtime → Result Rendered → Response
rendering_reply rt (ok rendered) = record {
  status = 200;
  content_type = rendered.content_type;
  body = rendered.body;
}
rendering_reply rt (err e) = text (message rt e) 400

-- The format that the query names, or `shadowrocket` where it names none.
abbrev pub Asks : Request → Text → Type 0
Asks request format =
    let given = search_param request (codes "format") in
    ((given ≡ []) × (format ≡ codes "shadowrocket")) ⊎ ((is_empty given ≡ false) × (format ≡ given))

-- A reply with 200, the media type of the format of that name, and its document of the nodes; or
-- with 400 and the message of the error for which there is no document; or with 400 where no format
-- has the name.
abbrev pub IsReply : Runtime → Text → Text → List Node → Response → Type 0
IsReply rt format lowered nodes r =
    ((f : Format) × OneOf lowered (names f)
      × (((r.status ≡ 200) × (r.content_type ≡ media_type f) × IsDocument f nodes r.body)
          ⊎ ((e : Thrown) × Fails f nodes e × (r ≡ text (message rt e) 400))))
    ⊎ (((f : Format) → OneOf lowered (names f) → ⊥)
        × (r ≡ text (codes "unsupported format " ++ format) 400))

-- A reply with all rows of the table as nodes in the order of their ids; or the error of a row whose
-- JSON does not parse.
abbrev pub SubRun : Runtime → Request → List NodeRow → Result Response → Type 0
SubRun rt request rows (ok r) =
    (nodes : List Node) × IsListing rt rows nodes
    × (format : Text) × Asks request format
    × IsReply rt format (to_lower_case rt.lower_wide format) nodes r
SubRun rt request rows (err e) = IsUnreadable rt rows e

rendering-IsReply :
    (rt : Runtime) (format lowered : Text) (nodes : List Node) (r : Result Rendered)
    → RenderRun format lowered nodes r
    → IsReply rt format lowered nodes (rendering_reply rt r)
unfolding message
rendering-IsReply rt format lowered nodes (ok r) (f, one, media, document) =
    inl (f, one, inl (refl, media, document))
rendering-IsReply rt format lowered nodes (err e) (inl (f, one, fails)) =
    inl (f, one, inr (e, fails, refl))
rendering-IsReply rt format lowered nodes (err e) (inr (unknown, is_error)) =
    inr (unknown, ap (λ x. text (message rt x) 400) is_error)

empty_text : (t : Text) → is_empty t ≡ true → t ≡ []
empty_text [] h = refl
empty_text (c ∷ t) h = absurd (cc)

module _ (rt : Runtime) (request : Request) where
  deliver-Returns :
      (meta : Meta) (row : TokenRow) (nodes : List Node) (r : Result Rendered)
      → Returns (λ a. a ≡ rendering_reply rt r) (deliver rt request meta row nodes r)
  unfolding deliver
  deliver-Returns meta row nodes (err e) = Returns-pure _ _ refl
  deliver-Returns meta row nodes (ok rendered) =
      Returns-after _ _ _ (write_audit-Returns rt _)
        λ _. Returns-after _ _ _ (log_info-Returns _ _) λ _. Returns-pure _ _ refl

  requested_format-Asks :
      Asks request (requested_format rt request) × (is_empty (requested_format rt request) ≡ false)
  unfolding requested_format codes
  requested_format-Asks =
      let given = search_param request (codes "format") in
      elim (Bool-cases (is_empty given)) [
        | inl h ↦ (inl (empty_text given h, rw h refl), rw h refl)
        | inr h ↦ (inr (h, rw h refl), rw h h)
      ]

  listed_run :
      (meta : Meta) (row : TokenRow) (rows : List NodeRow) (a : Result (List Node)) (w : World)
      → ListingRun rt rows a
      → SubRun rt request rows
          (continue
            (λ nodes.
              deliver rt request meta row nodes
                (render_subscription rt (requested_format rt request) nodes))
            a
            w).0
  listed_run meta row rows (err e) w h = h
  listed_run meta row rows (ok nodes) w h =
      let format = requested_format rt request in
      let rendered = render_subscription rt format nodes in
      let (asks, given) = requested_format-Asks in
      let (answer, answered, is_reply) = (deliver-Returns meta row nodes rendered).at w in
      subst (SubRun rt request rows) (sym (answered ∙ ap ok is_reply)) (
        nodes,
        h,
        format,
        asks,
        rendering-IsReply rt format _ nodes rendered
            (render_subscription_run rt format nodes given),
      )

  subscribe_run :
      (meta : Meta) (token : Text) (row : TokenRow) (w : World)
      → IsHealthy rt
      → SubRun rt request w.db.nodes (subscribe rt request meta token (some row) w).0
  unfolding subscribe ◌>>=◌
  subscribe_run meta token row w healthy =
      listed_run meta row w.db.nodes (list_nodes rt w).0 (list_nodes rt w).1
        (list_nodes_lists rt w healthy)

-- While D1 is in reach, a GET with an enabled subscribe token is answered with all stored nodes in
-- the order of their ids: with 200, the media type and the document of the format that the query
-- names, `shadowrocket` where it names none; with 400 and the error's message where the format's
-- renderer throws, or where no format has that name. It throws only where the JSON of a stored row
-- does not parse.
pub handle_sub_delivers :
    (rt : Runtime) (request : Request) (w : World) (row : TokenRow)
    → IsHealthy rt
    → method_is request (codes "GET") ≡ true
    → is_empty (search_param request (codes "token")) ≡ false
    → select_token
        (hash_token rt (search_param request (codes "token")))
        (codes "subscribe")
        w.db.tokens
      ≡ some row
    → SubRun rt request w.db.nodes (handle_sub rt request w).0
unfolding handle_sub
handle_sub_delivers rt request w row healthy got given selected =
    let token = search_param request (codes "token") in
    let find = find_enabled_token rt (codes "subscribe") token in
    let found = find_enabled_token-run rt (codes "subscribe") token row w healthy given selected in
    let same = (find_enabled_token-Steps rt SameNodes-quiet (codes "subscribe") token).at w in
    let ran = subscribe_run rt request (request_meta request) token row (find w).1 healthy in
    let run =
      ap (λ x. x.0)
        (bind_run find (subscribe rt request (request_meta request) token) w (some row) found) in
    rw got (
      subst (SubRun rt request w.db.nodes) (sym run) (
        subst
          (λ rows.
            SubRun rt request rows
              (subscribe rt request (request_meta request) token (some row) (find w).1).0)
          same ran))
