-- ===== src/Db/Integrity.antt =====
-- The integrity of the tables of migrations/0001_init.sql, which every write keeps.
use vpn_register_kit.Prelude.{
  ◌≡◌, refl, ap, true, false, List, [], ◌∷◌, ◌++◌, some, Text, text_eq, text_eq_iff, any, map,
  arith, if_elim, All, All-append,
}
use vpn_register_kit.Runtime.{Runtime}
use vpn_register_kit.Db.Tables.{
  Db, TokenRow, NodeRow, AuditRow, touch_row, touch_tokens, is_kind, insert_token_row, has_node,
  update_row, upsert_row, delete_rows, insert_audit_row,
}
use vpn_register_kit.Db.Keys.{Distinct, Distinct-select, Distinct-insert, map_key-map}
use vpn_register_kit.Db.Frames.{IsFrame}

abbrev pub node_ids : Db → List Text
node_ids d = map (λ (r : NodeRow). r.node_id) d.nodes

abbrev pub token_ids : Db → List Text
token_ids d = map (λ (r : TokenRow). r.id) d.tokens

abbrev pub token_hashes : Db → List Text
token_hashes d = map (λ (r : TokenRow). r.token_hash) d.tokens

abbrev pub token_kinds : Db → List Text
token_kinds d = map (λ (r : TokenRow). r.kind) d.tokens

abbrev pub audit_ids : Db → List Text
audit_ids d = map (λ (r : AuditRow). r.id) d.audit_logs

-- The primary keys, the unique column and the check of the schema.
pub record IsSound (d : Db) : Type 0 where
  pub nodes_keyed : Distinct (node_ids d)
  pub tokens_keyed : Distinct (token_ids d)
  pub hashes_unique : Distinct (token_hashes d)
  pub kinds_known : All (λ k. is_kind k ≡ true) (token_kinds d)
  pub audit_keyed : Distinct (audit_ids d)

module _ (at token_hash kind : Text) where
  touch_row-id : (r : TokenRow) → (touch_row at token_hash kind r).id ≡ r.id
  unfolding touch_row
  touch_row-id r = ground arith

  touch_row-hash : (r : TokenRow) → (touch_row at token_hash kind r).token_hash ≡ r.token_hash
  unfolding touch_row
  touch_row-hash r = ground arith

  touch_row-kind : (r : TokenRow) → (touch_row at token_hash kind r).kind ≡ r.kind
  unfolding touch_row
  touch_row-kind r = ground arith

  touched-IsSound :
      (d : Db)
      → IsSound d
      → IsSound (record d { tokens = touch_tokens at token_hash kind d.tokens })
  unfolding touch_tokens
  touched-IsSound d s = record {
    nodes_keyed = s.nodes_keyed;
    tokens_keyed =
        rw
          (map_key-map (λ (r : TokenRow). r.id) (touch_row at token_hash kind) touch_row-id
            d.tokens)
          s.tokens_keyed;
    hashes_unique =
        rw
          (map_key-map (λ (r : TokenRow). r.token_hash) (touch_row at token_hash kind)
            touch_row-hash d.tokens)
          s.hashes_unique;
    kinds_known =
        rw
          (map_key-map (λ (r : TokenRow). r.kind) (touch_row at token_hash kind) touch_row-kind
            d.tokens)
          s.kinds_known;
    audit_keyed = s.audit_keyed;
  }

update_row-node_id : (new r : NodeRow) → (update_row new r).node_id ≡ r.node_id
unfolding update_row
update_row-node_id new r = ground (arith, text_eq_iff r.node_id new.node_id)

upsert_row-Distinct :
    (new : NodeRow) (rows : List NodeRow)
    → Distinct (map (λ (r : NodeRow). r.node_id) rows)
    → Distinct (map (λ (r : NodeRow). r.node_id) (upsert_row new rows))
unfolding upsert_row has_node
upsert_row-Distinct new rows d =
    if_elim (λ (l : List NodeRow). Distinct (map (λ (r : NodeRow). r.node_id) l))
      (any (λ (r : NodeRow). text_eq r.node_id new.node_id) rows) (map (update_row new) rows)
      (rows ++ new ∷ [])
      (λ _.
        rw (map_key-map (λ (r : NodeRow). r.node_id) (update_row new) (update_row-node_id new) rows)
          d)
      (λ fresh. Distinct-insert (λ (r : NodeRow). r.node_id) rows new d fresh)

pub map-append_one {ℓ κ} :
    {A : Type ℓ} {B : Type κ} (f : A → B) (xs : List A) (x : A)
    → map f (xs ++ x ∷ []) ≡ map f xs ++ f x ∷ []
map-append_one f [] x = refl
map-append_one f (y ∷ xs) x = ap (λ l. f y ∷ l) (map-append_one f xs x)

-- What an accepted insertion of a token says.
pub record IsFresh (row : TokenRow) (rows tokens : List TokenRow) : Type 0 where
  pub known : is_kind row.kind ≡ true
  pub new_id : any (λ (r : TokenRow). text_eq r.id row.id) rows ≡ false
  pub new_hash : any (λ (r : TokenRow). text_eq r.token_hash row.token_hash) rows ≡ false
  pub appended : tokens ≡ rows ++ row ∷ []

pub insert_token_row-IsFresh :
    (row : TokenRow) (rows tokens : List TokenRow)
    → insert_token_row row rows ≡ some tokens
    → IsFresh row rows tokens
unfolding insert_token_row
insert_token_row-IsFresh row rows tokens h = ground arith

inserted-IsSound :
    (row : TokenRow) (d : Db) (tokens : List TokenRow)
    → insert_token_row row d.tokens ≡ some tokens
    → IsSound d
    → IsSound (record d { tokens = tokens })
inserted-IsSound row d tokens h s =
    let f = insert_token_row-IsFresh row d.tokens tokens h in
    rw f.appended (record {
      nodes_keyed = s.nodes_keyed;
      tokens_keyed = Distinct-insert (λ (r : TokenRow). r.id) d.tokens row s.tokens_keyed f.new_id;
      hashes_unique =
          Distinct-insert (λ (r : TokenRow). r.token_hash) d.tokens row s.hashes_unique f.new_hash;
      kinds_known =
          rw map-append_one
            (All-append (λ k. is_kind k ≡ true) (token_kinds d) _ s.kinds_known (f.known, tt));
      audit_keyed = s.audit_keyed;
    })

pub insert_audit_row-appended :
    (row : AuditRow) (rows rows' : List AuditRow)
    → insert_audit_row row rows ≡ some rows'
    → (any (λ (r : AuditRow). text_eq r.id row.id) rows ≡ false) × (rows' ≡ rows ++ row ∷ [])
unfolding insert_audit_row
insert_audit_row-appended row rows rows' h = ground arith

audited-IsSound :
    (row : AuditRow) (d : Db) (rows : List AuditRow)
    → insert_audit_row row d.audit_logs ≡ some rows
    → IsSound d
    → IsSound (record d { audit_logs = rows })
audited-IsSound row d rows h s =
    let (fresh, appended) = insert_audit_row-appended row d.audit_logs rows h in
    rw appended (record {
      nodes_keyed = s.nodes_keyed;
      tokens_keyed = s.tokens_keyed;
      hashes_unique = s.hashes_unique;
      kinds_known = s.kinds_known;
      audit_keyed = Distinct-insert (λ (r : AuditRow). r.id) d.audit_logs row s.audit_keyed fresh;
    })

pub IsSound-frame : (rt : Runtime) → IsFrame rt (λ a b. IsSound a → IsSound b)
unfolding delete_rows
IsSound-frame rt = record {
  quiet = record {
    order = record { same = λ d s. s; chain = λ f g s. g (f s) };
    touched = touched-IsSound;
    audited = audited-IsSound;
  };
  inserted = λ id kind token at d tokens h. inserted-IsSound _ d tokens h;
  upserted = λ row ok d s. record {
    nodes_keyed = upsert_row-Distinct row d.nodes s.nodes_keyed;
    tokens_keyed = s.tokens_keyed;
    hashes_unique = s.hashes_unique;
    kinds_known = s.kinds_known;
    audit_keyed = s.audit_keyed;
  };
  deleted = λ node_id d s. record {
    nodes_keyed = Distinct-select (λ (r : NodeRow). r.node_id) _ d.nodes s.nodes_keyed;
    tokens_keyed = s.tokens_keyed;
    hashes_unique = s.hashes_unique;
    kinds_known = s.kinds_known;
    audit_keyed = s.audit_keyed;
  };
}
