-- ===== src/Db/Registry.antt =====
-- The registry as its users know it: a row for each node id, and a token for each hash and kind.
-- The order of the rows is forgotten, and so is the audit log.
use vpn_register_kit.Prelude.{
  ◌≡◌, refl, sym, ap, true, ◌&&◌, List, [], ◌∷◌, Option, none, some, Text, text_eq, text_eq_iff,
  arith, if◌then◌else◌,
}
use mathlib.Core.Path.{subst, fun_ext}
use vpn_register_kit.Runtime.{Runtime}
use vpn_register_kit.Db.Tables.{
  Db, TokenRow, NodeRow, is_usable, is_kind, select_token, touch_row, touch_tokens,
  insert_token_row, upsert_row, select_node, delete_rows,
}
use vpn_register_kit.Db.Frames.{IsAccepted, IsFrame}
use vpn_register_kit.Db.Integrity.{insert_token_row-IsFresh}
use vpn_register_kit.Db.NodeTable.{merge, select_node-upsert_row, select_node-delete_rows}
use vpn_register_kit.Db.TokenTable.{select_token-insert, select_token-unknown}

pub record Registry : Type 0 where
  pub node_of : Text → Option NodeRow
  pub token_of : Text → Text → Option TokenRow

pub view : Db → Registry
view d = record {
  node_of = λ id. select_node id d.nodes;
  token_of = λ token_hash kind. select_token token_hash kind d.tokens;
}

abbrev pub with_stamp : Text → Option TokenRow → Option TokenRow
with_stamp at none = none
with_stamp at (some row) = some (record row { last_used_at = some at })

-- What may happen to the registry, each as a function on it.
abbrev pub stamped : Text → Text → Text → Registry → Registry
stamped at token_hash kind r = record r {
  token_of = λ h k.
      if text_eq token_hash h && text_eq kind k
      then with_stamp at (r.token_of h k)
      else r.token_of h k;
}

abbrev pub issued : TokenRow → Registry → Registry
issued row r = record r {
  token_of = λ h k.
      if text_eq row.token_hash h
      then (if text_eq row.kind k then some row else none)
      else r.token_of h k;
}

abbrev pub registered : NodeRow → Registry → Registry
registered row r = record r {
  node_of = λ id.
      if text_eq row.node_id id then some (merge row (r.node_of row.node_id)) else r.node_of id;
}

abbrev pub removed : Text → Registry → Registry
removed node_id r = record r { node_of = λ id. if text_eq node_id id then none else r.node_of id }

-- A registry changes by the stamp of a token, a new token of a known kind under an unknown hash, an
-- accepted registration, and a removal.
pub data Change (rt : Runtime) : Registry → Registry → Type 0 where
  stamp : {r : Registry} (at token_hash kind : Text) → Change rt r (stamped at token_hash kind r)
  issue :
      {r : Registry} (row : TokenRow)
      → row.enabled ≡ 1
      → is_kind row.kind ≡ true
      → ((kind : Text) → r.token_of row.token_hash kind ≡ none)
      → Change rt r (issued row r)
  register : {r : Registry} (row : NodeRow) → IsAccepted rt row → Change rt r (registered row r)
  remove : {r : Registry} (node_id : Text) → Change rt r (removed node_id r)

pub data Changes (rt : Runtime) : Registry → Registry → Type 0 where
  unchanged : {r : Registry} → Changes rt r r
  change : {r s t : Registry} → Change rt r s → Changes rt s t → Changes rt r t

pub Changes-trans :
    {rt : Runtime} {r s t : Registry} → Changes rt r s → Changes rt s t → Changes rt r t
Changes-trans unchanged d = d
Changes-trans (change c cs) d = change c (Changes-trans cs d)

select_token-touch :
    (at token_hash kind h k : Text) (rows : List TokenRow)
    → select_token h k (touch_tokens at token_hash kind rows) ≡ (
        if text_eq token_hash h && text_eq kind k
        then with_stamp at (select_token h k rows)
        else select_token h k rows)
unfolding select_token touch_tokens touch_row is_usable
select_token-touch at token_hash kind h k [] = ground arith
select_token-touch at token_hash kind h k (r ∷ rows) = ground (
  arith,
  select_token-touch at token_hash kind h k rows,
  text_eq_iff r.token_hash token_hash,
  text_eq_iff r.kind kind,
  text_eq_iff r.token_hash h,
  text_eq_iff r.kind k,
  text_eq_iff token_hash h,
  text_eq_iff kind k,
)

-- One change of the tables that the view follows.
follows : {rt : Runtime} (a : Registry) (b c : Registry) → Change rt a b → c ≡ b → Changes rt a c
follows {rt} a b c step same = subst (Changes rt a) (sym same) (change step unchanged)

module _ (rt : Runtime) where
  stamp-view :
      (at token_hash kind : Text) (d : Db)
      → view (record d { tokens = touch_tokens at token_hash kind d.tokens })
        ≡ stamped at token_hash kind (view d)
  unfolding view
  stamp-view at token_hash kind d =
      ap (λ f. record { node_of = λ id. select_node id d.nodes; token_of = f })
        (fun_ext (λ h. fun_ext (λ k. select_token-touch at token_hash kind h k d.tokens)))

  issue-view :
      (row : TokenRow) (d : Db) (tokens : List TokenRow)
      → row.enabled ≡ 1
      → insert_token_row row d.tokens ≡ some tokens
      → view (record d { tokens = tokens }) ≡ issued row (view d)
  unfolding view
  issue-view row d tokens enabled h =
      ap (λ f. record { node_of = λ id. select_node id d.nodes; token_of = f })
        (fun_ext (λ x. fun_ext (λ k. select_token-insert row d.tokens tokens x k enabled h)))

  nodes-view :
      (d : Db) (rows : List NodeRow) (f : Text → Option NodeRow)
      → ((id : Text) → select_node id rows ≡ f id)
      → view (record d { nodes = rows }) ≡ record (view d) { node_of = f }
  unfolding view
  nodes-view d rows f h =
      ap
        (λ g. record {
          node_of = g;
          token_of = λ token_hash kind. select_token token_hash kind d.tokens;
        })
        (fun_ext h)

  pub Changes-frame : IsFrame rt (λ a b. Changes rt (view a) (view b))
  unfolding view
  Changes-frame = record {
    quiet = record {
      order = record { same = λ d. unchanged; chain = λ f g. Changes-trans f g };
      touched = λ at token_hash kind d.
          follows _ _ _ (stamp at token_hash kind) (stamp-view at token_hash kind d);
      audited = λ row d rows h. unchanged;
    };
    inserted = λ id kind token at d tokens h.
        let f = insert_token_row-IsFresh _ d.tokens tokens h in
        follows _ _ _ (issue _ refl f.known (λ k. select_token-unknown _ k d.tokens f.new_hash))
          (issue-view _ d tokens refl h);
    upserted = λ row ok d.
        follows _ _ _ (register row ok)
          (nodes-view d (upsert_row row d.nodes) _ (λ id. select_node-upsert_row row id d.nodes));
    deleted = λ node_id d. follows _ _ _ (remove node_id) (
        nodes-view d (delete_rows node_id d.nodes) _
          (λ id. select_node-delete_rows node_id id d.nodes));
  }
