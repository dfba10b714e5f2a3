-- ===== src/Db/TokenTable.antt =====
-- The token table: a created token can be used, for its own kind alone.
use vpn_register_kit.Prelude.{
  ◌≡◌, refl, false, List, [], ◌∷◌, ◌++◌, Option, none, some, Text, text_eq, text_eq_iff, any, arith,
  if◌then◌else◌,
}
use vpn_register_kit.Db.Tables.{TokenRow, is_usable, select_token, insert_token_row}
use vpn_register_kit.Db.Integrity.{insert_token_row-IsFresh}

abbrev or_else_token : Option TokenRow → Option TokenRow → Option TokenRow
or_else_token none b = b
or_else_token (some r) b = some r

select_token-append_one :
    (token_hash kind : Text) (rows : List TokenRow) (row : TokenRow)
    → select_token token_hash kind (rows ++ row ∷ [])
      ≡ or_else_token
          (select_token token_hash kind rows)
          (if is_usable token_hash kind row then some row else none)
unfolding select_token
select_token-append_one token_hash kind [] row = ground arith
select_token-append_one token_hash kind (r ∷ rows) row =
    ground (arith, select_token-append_one token_hash kind rows row)

-- A hash that the table lacks selects nothing.
pub select_token-unknown :
    (token_hash kind : Text) (rows : List TokenRow)
    → any (λ (r : TokenRow). text_eq r.token_hash token_hash) rows ≡ false
    → select_token token_hash kind rows ≡ none
unfolding select_token is_usable
select_token-unknown token_hash kind [] h = refl
select_token-unknown token_hash kind (r ∷ rows) h =
    ground (arith, select_token-unknown token_hash kind rows)

-- After an insertion the new hash selects the new row for its own kind and nothing for another
-- kind; every other hash selects what it selected.
pub select_token-insert :
    (row : TokenRow) (rows tokens : List TokenRow) (token_hash kind : Text)
    → row.enabled ≡ 1
    → insert_token_row row rows ≡ some tokens
    → select_token token_hash kind tokens ≡ (
        if text_eq row.token_hash token_hash
        then (if text_eq row.kind kind then some row else none)
        else select_token token_hash kind rows)
unfolding is_usable
select_token-insert row rows tokens token_hash kind enabled h =
    let f = insert_token_row-IsFresh row rows tokens h in
    rw f.appended (
      ground (
        arith,
        f.new_hash,
        select_token-append_one token_hash kind rows row,
        select_token-unknown row.token_hash kind rows,
        text_eq_iff row.token_hash token_hash,
      ))
