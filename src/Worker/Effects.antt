-- ===== src/Worker/Effects.antt =====
-- What the answers of `handleRegister` say of the node table.
use vpn_register_kit.Prelude.{
  ◌≡◌, refl, ap, ◌∙◌, ◌≢◌, ◌⊎◌, inl, inr, List, Option, none, some, Text, arith,
}
use mathlib.Core.Option
use vpn_register_kit.Js.Value.{Value}
use vpn_register_kit.Js.Result.{Result, ok, err}
use vpn_register_kit.Validators.{validate_node}
use vpn_register_kit.Runtime.{Runtime}
use vpn_register_kit.Http.{Request, Response, json, text}
use vpn_register_kit.Act.{World, pure}
use vpn_register_kit.Act.Steps.{IsPreorder, Steps-lift}
use vpn_register_kit.Act.Performs.{
  SameNodes, Performs, Performs-pure, Performs-if, Performs-statement, Performs-after,
  Performs-lift, Performs-bind,
}
use vpn_register_kit.Logs.{Meta}
use vpn_register_kit.Db.Tables.{Db, TokenRow, NodeRow, upsert_row}
use vpn_register_kit.Db.Frames.{
  IsQuiet, IsAccepted, now_iso-Steps, find_enabled_token-Steps, write_audit-Steps,
}
use vpn_register_kit.Db.{upsert_node}
use vpn_register_kit.Worker.Frames.{log_info-Steps, log_warn-Steps}
use vpn_register_kit.Worker.Reply.{max_register_bytes, read_limited_json}
use vpn_register_kit.Worker.Register.{handle_register, register, check, accept, refuse, deny}

pub SameNodes-quiet : IsQuiet SameNodes
SameNodes-quiet = record {
  order = record { same = λ d. refl; chain = λ e f. f ∙ e };
  touched = λ at token_hash kind d. refl;
  audited = λ row d rows h. refl;
}

pub SameNodes-order : IsPreorder SameNodes
SameNodes-order = SameNodes-quiet.order

-- The table has the row of a body that the validator accepts.
abbrev pub Written : Runtime → Value → List NodeRow → List NodeRow → Type 0
Written rt body rows rows' =
    (row : NodeRow) × (accepted : IsAccepted rt row) × (accepted.body ≡ body)
    × (rows' ≡ upsert_row row rows)

map_run :
    {A : Type 0} (put : A → Db) (o : Option A) (d' : Db) (t : Unit {0})
    → Option.map {B = Unit {0} × Db} (λ a. (tt, put a)) o ≡ some (t, d')
    → (a : A) × (o ≡ some a) × (d' ≡ put a)
map_run put none d' t e = absurd (cc)
map_run put (some a) d' t e = (a, refl, ground arith)

module _ (rt : Runtime) (request : Request) where
  upsert_node-Performs :
      (body : Value)
      → validate_node rt.number_of body ≡ ok tt
      → Performs (λ t. Written rt body) (upsert_node rt body)
  unfolding upsert_node
  upsert_node-Performs body valid = Performs-after _ _ _ (now_iso-Steps rt SameNodes-quiet) λ at.
      Performs-lift _ _ _ λ node_id is_id. Performs-lift _ _ _ λ name is_name.
        Performs-lift _ _ _ λ region is_region. Performs-lift _ _ _ λ host is_host.
          Performs-lift _ _ _ λ ip is_ip. Performs-lift _ _ _ λ protocols is_protocols.
            Performs-lift _ _ _ λ version is_version. Performs-statement _ rt _ λ d d' t e.
              let (row, bound, same) =
                map_run (λ row. record d { nodes = upsert_row row d.nodes }) _ d' t e in
              (
                row,
                record {
                  body = body;
                  valid = valid;
                  at = at;
                  node_id = node_id;
                  name = name;
                  region = region;
                  host = host;
                  ip = ip;
                  protocols = protocols;
                  version = version;
                  is_node_id = is_id;
                  is_name = is_name;
                  is_region = is_region;
                  is_ip = is_ip;
                  is_host = is_host;
                  is_protocols = is_protocols;
                  is_version = is_version;
                  bound = bound;
                },
                refl,
                ap (λ (x : Db). x.nodes) same,
              )

  -- 200 exactly where the row has been written; otherwise the nodes are as they were.
  abbrev pub RegisterOutcome : Response → List NodeRow → List NodeRow → Type 0
  RegisterOutcome r rows rows' =
      ((r.status ≡ 200)
        × (body : Value) × (read_limited_json rt request max_register_bytes ≡ ok body)
        × Written rt body rows rows')
      ⊎ ((r.status ≢ 200) × (rows' ≡ rows))

  not_registered : (r : Response) → r.status ≢ 200 → Performs RegisterOutcome (pure r)
  not_registered r h = Performs-pure _ r (λ rows. inr (h, refl))

  accept-Performs :
      (meta : Meta) (row : TokenRow) (body : Value)
      → validate_node rt.number_of body ≡ ok tt
      → read_limited_json rt request max_register_bytes ≡ ok body
      → Performs RegisterOutcome (accept rt request meta row body)
  unfolding accept json
  accept-Performs meta row body valid read =
      Performs-bind _ (λ t. Written rt body) _ _ (upsert_node-Performs body valid)
        λ t. Performs-after _ _ _ (Steps-lift _ SameNodes-order) λ _.
          Performs-after _ _ _ (write_audit-Steps rt SameNodes-quiet _) λ _.
            Performs-after _ _ _ (Steps-lift _ SameNodes-order) λ _.
              Performs-after _ _ _ (Steps-lift _ SameNodes-order) λ _.
                Performs-after _ _ _ (Steps-lift _ SameNodes-order) λ _.
                  Performs-after _ _ _ (log_info-Steps SameNodes-order _ _)
                    λ _. Performs-pure _ _ (λ rows ns written. inl (refl, body, read, written))

  check-Performs :
      (meta : Meta) (row : TokenRow) (body : Value) (verdict : Result (Unit {0}))
      → validate_node rt.number_of body ≡ verdict
      → read_limited_json rt request max_register_bytes ≡ ok body
      → Performs RegisterOutcome (check rt request meta row body verdict)
  unfolding check refuse text
  check-Performs meta row body (ok done) valid read = accept-Performs meta row body valid read
  check-Performs meta row body (err e) valid read =
      Performs-after _ _ _ (Steps-lift _ SameNodes-order) λ _.
        Performs-after _ _ _ (write_audit-Steps rt SameNodes-quiet _)
          λ _. not_registered _ (ground arith)

  register-Performs :
      (meta : Meta) (token : Text) (row : Option TokenRow)
      → Performs RegisterOutcome (register rt request meta token row)
  unfolding register deny text
  register-Performs meta token none = Performs-after _ _ _ (log_warn-Steps SameNodes-order _ _) λ _.
      Performs-after _ _ _ (write_audit-Steps rt SameNodes-quiet _)
        λ _. not_registered _ (ground arith)
  register-Performs meta token (some row) =
      Performs-lift _ _ _ λ body read. check-Performs meta row body _ refl read

  handle_register-Performs : Performs RegisterOutcome (handle_register rt request)
  unfolding handle_register text
  handle_register-Performs = Performs-if _ _ _ _ (not_registered _ (ground arith)) (
      Performs-after _ _ _ (find_enabled_token-Steps rt SameNodes-quiet _ _)
        (register-Performs _ _))

-- An answer of `handleRegister` is 200 exactly where the row has been written.
pub handle_register_returned :
    (rt : Runtime) (request : Request) (w : World) (r : Response)
    → (handle_register rt request w).0 ≡ ok r
    → RegisterOutcome rt request r w.db.nodes (handle_register rt request w).1.db.nodes
handle_register_returned rt request w r = (handle_register-Performs rt request).at w r
