-- ===== src/Scripts/Paths.antt =====
-- The path that delete-node.js asks for, and the node id that the Worker slices from it.
use vpn_register_kit.Prelude.{
  ℕ, ◌≡◌, refl, ap, ◌∙◌, ◌⊎◌, inl, inr, true, false, List, [], ◌∷◌, ◌++◌, Option, none, some, Text,
  codes, all, is_empty, includes_unit, arith,
}
use vpn_register_kit.Js.Json.{is_high, is_low}
use vpn_register_kit.Js.Uri.{is_unreserved, is_word_unit, encode_uri_component}
use vpn_register_kit.Js.Value.{Value}
use vpn_register_kit.Js.Result.{Thrown, Result, ok}
use vpn_register_kit.Validators.{is_digit, is_alnum, is_id_unit}
use vpn_register_kit.Validators.Patterns.{IsNodeId}
use vpn_register_kit.Scripts.{
  Environment, Call, Reply, Outcome, arg_value, node_path, report, delete_call, delete_node_script,
}
use vpn_register_kit.Scripts.Requests.{Answers, given_value, thrown_error, admin_request_run}

-- A unit of an id is left alone by encodeURIComponent.
id_unit_kept :
    (c : ℕ)
    → is_id_unit c ≡ true
    → (is_unreserved c ≡ true) × (is_high c ≡ false) × (is_low c ≡ false)
unfolding is_id_unit is_alnum is_digit is_unreserved is_word_unit is_high is_low includes_unit codes
id_unit_kept c h = (ground arith, ground arith, ground arith)

kept : (s : Text) → all is_id_unit s ≡ true → encode_uri_component s ≡ some s
unfolding encode_uri_component
kept [] h = refl
kept (c ∷ []) h = let (plain, high, low) = id_unit_kept c (ground arith) in rw (high, low, plain)
kept (c ∷ d ∷ s) h =
    let (plain, high, low) = id_unit_kept c (ground arith) in
    let rest = kept (d ∷ s) (ground arith) in rw (high, low, rest, plain)

alnum_id : (c : ℕ) → is_alnum c ≡ true → is_id_unit c ≡ true
unfolding is_id_unit
alnum_id c h = ground arith

node_path-IsNodeId : (id : Text) → IsNodeId id → node_path id ≡ ok (codes "/admin/nodes/" ++ id)
unfolding node_path
node_path-IsNodeId id n =
    let head = alnum_id n.head n.head_alnum in
    let units : all is_id_unit (n.head ∷ n.rest) ≡ true = (let r = n.rest_units in ground arith) in
    rw (kept id (ap (all is_id_unit) n.parts ∙ units))

-- Success of delete-node.js: both variables are set, and DELETE of /admin/nodes/ with the id as it
-- is, at the URL without its trailing slashes, was answered with a status from 200 to 299. Then the
-- script reports the id and exits with 0; otherwise it prints one error and exits with 1.
abbrev pub DeleteRun : (Call → Result Reply) → Environment → Text → Outcome → Type 0
DeleteRun server env id o =
    let Answered = Answers server env (codes "/admin/nodes/" ++ id) (codes "DELETE") none in
    ((reply : Reply) × Answered reply
      × (o ≡ record { lines = (codes "Deleted node: " ++ id) ∷ []; exit_code = 0 }))
    ⊎ (((reply : Reply) → Answered reply → ⊥)
        × (m : Text) × (o ≡ record { lines = (codes "error: " ++ m) ∷ []; exit_code = 1 }))

-- delete-node.js, given a valid node id, reports success and exits with 0 exactly where both
-- variables of the environment are set and the server answers DELETE of /admin/nodes/ with the id as
-- it is with a status from 200 to 299; in every other case it prints an error and exits with 1.
pub delete_node_script_lem :
    (parse : Text → Option Value) (server : Call → Result Reply) (message : Thrown → Text)
    (env : Environment) (args : List Text) (id : Text)
    → arg_value (codes "--id") [] args ≡ id
    → IsNodeId id
    → DeleteRun server env id (delete_node_script parse server message env args)
unfolding delete_node_script delete_call report
delete_node_script_lem parse server message env args id named n =
    let given_id : is_empty id ≡ false = ap is_empty n.parts in
    let path = codes "/admin/nodes/" ++ id in
    elim (admin_request_run parse server env path (codes "DELETE") none) [
      | inl (reply, a, gives) ↦
          let (v, done) = given_value _ gives in
          inl (reply, a, rw (named, given_id, node_path-IsNodeId id n, done) refl)
      | inr (unanswered, throws) ↦
          let (e, thrown) = thrown_error _ throws in
          inr (unanswered, message e, rw (named, given_id, node_path-IsNodeId id n, thrown) refl)
    ]
