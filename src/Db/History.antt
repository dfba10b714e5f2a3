-- ===== src/Db/History.antt =====
-- What the tables remember: rows of the audit log and the identities of tokens are never lost.
use vpn_register_kit.Prelude.{◌≡◌, refl, sym, ap, ◌∙◌, List, [], ◌∷◌, ◌++◌, none, Text, map, arith}
use mathlib.Core.List.{append-nil, append_assoc}
use vpn_register_kit.Runtime.{Runtime}
use vpn_register_kit.Db.Tables.{Db, TokenRow, touch_row, touch_tokens}
use vpn_register_kit.Db.Integrity.{
  map-append_one, insert_token_row-IsFresh, insert_audit_row-appended,
}
use vpn_register_kit.Db.Frames.{IsQuiet, IsFrame}

-- A token row without the stamp of its last use.
abbrev pub identity : TokenRow → TokenRow
identity r = record r { last_used_at = none }

abbrev pub identities : Db → List TokenRow
identities d = map identity d.tokens

-- The first list is where the second begins.
abbrev pub Extends {ℓ} : {A : Type ℓ} → List A → List A → Type ℓ
Extends xs ys = (more : _) × (ys ≡ xs ++ more)

Extends-refl {ℓ} : {A : Type ℓ} (xs : List A) → Extends xs xs
Extends-refl xs = ([], sym (append-nil xs))

Extends-trans {ℓ} : {A : Type ℓ} (xs ys zs : List A) → Extends xs ys → Extends ys zs → Extends xs zs
Extends-trans xs ys zs (m, e) (n, f) = (m ++ n, f ∙ ap (λ l. l ++ n) e ∙ append_assoc xs m n)

-- The later tables hold every audit row and every token that the earlier ones hold.
pub record Remembers (a b : Db) : Type 0 where
  pub audits : Extends a.audit_logs b.audit_logs
  pub tokens : Extends (identities a) (identities b)

-- Nor has a node or a token been added or changed.
pub record Unchanged (a b : Db) : Type 0 where
  pub audits : Extends a.audit_logs b.audit_logs
  pub tokens : identities b ≡ identities a
  pub nodes : b.nodes ≡ a.nodes

identities-touch :
    (at token_hash kind : Text) (rows : List TokenRow)
    → map identity (touch_tokens at token_hash kind rows) ≡ map identity rows
unfolding touch_tokens touch_row
identities-touch at token_hash kind [] = refl
identities-touch at token_hash kind (r ∷ rows) =
    ground (arith, identities-touch at token_hash kind rows)

pub Unchanged-quiet : IsQuiet Unchanged
Unchanged-quiet = record {
  order = record {
    same = λ d. record { audits = Extends-refl _; tokens = refl; nodes = refl };
    chain = λ f g. record {
      audits = Extends-trans _ _ _ f.audits g.audits;
      tokens = g.tokens ∙ f.tokens;
      nodes = g.nodes ∙ f.nodes;
    };
  };
  touched = λ at token_hash kind d. record {
    audits = Extends-refl _;
    tokens = identities-touch at token_hash kind d.tokens;
    nodes = refl;
  };
  audited = λ row d rows h. record {
    audits = (row ∷ [], (insert_audit_row-appended row d.audit_logs rows h).1);
    tokens = refl;
    nodes = refl;
  };
}

pub Remembers-frame : (rt : Runtime) → IsFrame rt Remembers
Remembers-frame rt = record {
  quiet = record {
    order = record {
      same = λ d. record { audits = Extends-refl _; tokens = Extends-refl _ };
      chain = λ f g. record {
        audits = Extends-trans _ _ _ f.audits g.audits;
        tokens = Extends-trans _ _ _ f.tokens g.tokens;
      };
    };
    touched = λ at token_hash kind d. record {
      audits = Extends-refl _;
      tokens = ([], identities-touch at token_hash kind d.tokens ∙ sym (append-nil _));
    };
    audited = λ row d rows h. record {
      audits = (row ∷ [], (insert_audit_row-appended row d.audit_logs rows h).1);
      tokens = Extends-refl _;
    };
  };
  inserted = λ id kind token at d tokens h. record {
    audits = Extends-refl _;
    tokens = (
      _ ∷ [],
      ap (map identity) (insert_token_row-IsFresh _ d.tokens tokens h).appended
          ∙ map-append_one identity d.tokens _,
    );
  };
  upserted = λ row accepted d. record { audits = Extends-refl _; tokens = Extends-refl _ };
  deleted = λ node_id d. record { audits = Extends-refl _; tokens = Extends-refl _ };
}
