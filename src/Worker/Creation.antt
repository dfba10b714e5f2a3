-- ===== src/Worker/Creation.antt =====
-- What `handleAdminTokenCreate` answers of the token that it has made.
use mathlib.Core.Option
use vpn_register_kit.Prelude.{
  ◌+◌, ◌≡◌, refl, sym, ap, ◌∙◌, Bool, true, false, List, Option, none, some, Text, text_eq,
  if◌then◌else◌,
}
use vpn_register_kit.Js.Result.{Result, ok, err, fault, database}
use vpn_register_kit.Auth.{hash_token, random_token}
use vpn_register_kit.Runtime.{Runtime}
use vpn_register_kit.Http.{Request, Response, json}
use vpn_register_kit.Act.{World, Act, pure, ◌>>=◌, statement, next_call, finish}
use vpn_register_kit.Act.Returns.{bind_done}
use vpn_register_kit.Db.Tables.{Db, TokenRow, insert_token_row, select_token}
use vpn_register_kit.Db.TokenTable.{select_token-insert}
use vpn_register_kit.Db.Frames.{logging-Steps}
use vpn_register_kit.Db.Rows.{AuditEvent}
use vpn_register_kit.Db.{now_iso, insert_token, new_token, write_audit}
use vpn_register_kit.Worker.Admin.{create_payload, create_token}

insertion_done :
    (fails : Bool) (o : Option (List TokenRow)) (d : Db) (v : World) (t : Unit {0})
    → (if fails
        then (err (fault database), v)
        else finish
            (Option.map {B = Unit {0} × Db} (λ tokens. (tt, record d { tokens = tokens })) o)
            v).0
      ≡ ok t
    → o
      ≡ some
          (if fails
            then (err (fault database), v)
            else finish
                (Option.map {B = Unit {0} × Db} (λ tokens. (tt, record d { tokens = tokens })) o)
                v).1.db.tokens
insertion_done true o d v t h = absurd (cc)
insertion_done false none d v t h = absurd (cc)
insertion_done false (some tokens) d v t h = refl

-- A run of `insertToken` that returned has inserted its row.
inserted_row :
    (rt : Runtime) (id kind token : Text) (w : World) (t : Unit {0})
    → (insert_token rt id kind token w).0 ≡ ok t
    → insert_token_row (new_token rt id kind token (rt.now_iso w.calls)) w.db.tokens
      ≡ some (insert_token rt id kind token w).1.db.tokens
unfolding insert_token now_iso ◌>>=◌ next_call statement
inserted_row rt id kind token w t h = insertion_done (rt.d1_fails (w.calls + 1)) _ w.db _ t h

SameTokens : Db → Db → Type 0
SameTokens a b = b.tokens ≡ a.tokens

write_audit-SameTokens :
    (rt : Runtime) (event : AuditEvent) (w : World)
    → (write_audit rt event w).1.db.tokens ≡ w.db.tokens
unfolding SameTokens
write_audit-SameTokens rt event w =
    (logging-Steps rt {R = SameTokens} (record { same = λ d. refl; chain = λ e f. f ∙ e })
        (λ row d rows h. refl) event).at
      w

-- What a run of `handleAdminTokenCreate` that made a token of a kind answers: the token, drawn from
-- the runtime, which is from then on the one usable token of its hash, for its kind alone; other
-- hashes select what they selected.
pub record Created (rt : Runtime) (request : Request) (kind : Text) (r : Response) (w w' : World)
    : Type 0 where
  pub shown :
      r
      ≡ json
          (create_payload rt request (rt.random_uuid (w.calls + 1)) kind (random_token rt w.calls))
          200
  pub row : TokenRow
  pub row_hash : row.token_hash ≡ hash_token rt (random_token rt w.calls)
  pub row_kind : row.kind ≡ kind
  pub selected :
      (token_hash k : Text)
      → select_token token_hash k w'.db.tokens ≡ (
          if text_eq (hash_token rt (random_token rt w.calls)) token_hash
          then (if text_eq kind k then some row else none)
          else select_token token_hash k w.db.tokens)

ok_same : {A : Type 0} (a b : A) → ◌≡◌ {A = Result A} (ok a) (ok b) → a ≡ b
ok_same a b h = cc

module _ (rt : Runtime) (id kind token : Text) (event : AuditEvent) (reply : Response) where
  abbrev finish_creation : Act Response
  finish_creation = write_audit rt event >>= λ _. pure reply

  created_run :
      (w : World) (r : Response)
      → ((insert_token rt id kind token >>= λ _. finish_creation) w).0 ≡ ok r
      → (r ≡ reply)
        × (insert_token_row (new_token rt id kind token (rt.now_iso w.calls)) w.db.tokens
            ≡ some ((insert_token rt id kind token >>= λ _. finish_creation) w).1.db.tokens)
  created_run w r h =
      let (t, done, run) = bind_done (insert_token rt id kind token) (λ _. finish_creation) w r h in
      let w' = (insert_token rt id kind token w).1 in
      let (u, logged, run') =
        bind_done (write_audit rt event) (λ _. pure reply) w' r (ap (λ x. x.0) (sym run) ∙ h) in
      (
        ok_same r reply (sym h ∙ ap (λ x. x.0) (run ∙ run')),
        inserted_row rt id kind token w t done
            ∙ ap some
                (sym (ap (λ x. x.1.db.tokens) (run ∙ run') ∙ write_audit-SameTokens rt event w')),
      )

-- An answer of `createToken` says the token that has been stored: from then on the token can be used
-- for its own kind alone, and every other hash selects what it selected.
pub create_token_outcome :
    (rt : Runtime) (request : Request) (kind : Text) (w : World) (r : Response)
    → (create_token rt request kind w).0 ≡ ok r
    → Created rt request kind r w (create_token rt request kind w).1
unfolding create_token next_call ◌>>=◌
create_token_outcome rt request kind w r h =
    let id = rt.random_uuid (w.calls + 1) in
    let token = random_token rt w.calls in
    let drawn = record w { calls = w.calls + 1 + 1 } in
    let (is_reply, inserted) = created_run rt id kind token _ _ drawn r h in
    record {
      shown = is_reply;
      row = new_token rt id kind token (rt.now_iso drawn.calls);
      row_hash = refl;
      row_kind = refl;
      selected = λ token_hash k. select_token-insert _ w.db.tokens _ token_hash k refl inserted;
    }
