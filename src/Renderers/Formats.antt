-- ===== src/Renderers/Formats.antt =====
-- `renderSubscription`: the names of the formats, and what each of them is served as.
use vpn_register_kit.Prelude.{
  ◌≡◌, refl, ◌⊎◌, inl, inr, Bool, true, false, List, [], ◌∷◌, ◌++◌, Text, codes, text_eq,
  text_eq_iff, is_empty, any, if◌then◌else◌, Bool-cases,
}
use vpn_register_kit.Js.Value.{Value}
use vpn_register_kit.Js.Lower.{to_lower_case}
use vpn_register_kit.Js.Pretty.{stringify_pretty}
use vpn_register_kit.Js.Result.{Thrown, Result, ok, err, error, ◌>>=◌}
use vpn_register_kit.Runtime.{Runtime}
use vpn_register_kit.Db.Rows.{Node}
use vpn_register_kit.Renderers.Common.{base64_encode}
use vpn_register_kit.Renderers.Links.{render_links}
use vpn_register_kit.Renderers.Clash.{render_clash}
use vpn_register_kit.Renderers.Shadowrocket.{render_shadowrocket_config}
use vpn_register_kit.Renderers.SingBox.{render_sing_box}
use vpn_register_kit.Renderers.{Rendered, render_base64, render_normalized, render_subscription}

pub data Format : Type 0 where
  links : Format
  base64 : Format
  clash : Format
  shadowrocket : Format
  sing_box : Format

abbrev pub names : Format → List Text
names links = codes "shadowrocket" ∷ codes "links" ∷ codes "plain" ∷ []
names base64 = codes "base64" ∷ []
names clash = codes "clash" ∷ codes "mihomo" ∷ []
names shadowrocket =
    codes "shadowrocket-conf"
    ∷ codes "shadowrocket-config"
    ∷ codes "sr-conf"
    ∷ codes "srconfig"
    ∷ []
names sing_box = codes "sing-box" ∷ codes "singbox" ∷ []

abbrev pub media_type : Format → Text
media_type links = codes "text/plain; charset=utf-8"
media_type base64 = codes "text/plain; charset=utf-8"
media_type clash = codes "text/yaml; charset=utf-8"
media_type shadowrocket = codes "text/plain; charset=utf-8"
media_type sing_box = codes "application/json; charset=utf-8"

-- The text is one of the names.
abbrev pub OneOf : Text → List Text → Type 0
OneOf t [] = ⊥
OneOf t (name ∷ names) = (t ≡ name) ⊎ OneOf t names

-- The document of the nodes in a format.
abbrev pub IsDocument : Format → List Node → Text → Type 0
IsDocument links nodes body = render_links nodes ≡ ok body
IsDocument base64 nodes body =
    (plain : Text) × (render_links nodes ≡ ok plain) × (base64_encode plain ≡ ok body)
IsDocument clash nodes body = render_clash nodes ≡ ok body
IsDocument shadowrocket nodes body = render_shadowrocket_config nodes ≡ ok body
IsDocument sing_box nodes body =
    (config : Value) × (render_sing_box nodes ≡ ok config)
    × (body ≡ stringify_pretty config 0 ++ codes "\n")

-- The nodes have no document in the format, for this error.
abbrev pub Fails : Format → List Node → Thrown → Type 0
Fails links nodes e = render_links nodes ≡ err e
Fails base64 nodes e =
    (render_links nodes ≡ err e)
    ⊎ ((plain : Text) × (render_links nodes ≡ ok plain) × (base64_encode plain ≡ err e))
Fails clash nodes e = render_clash nodes ≡ err e
Fails shadowrocket nodes e = render_shadowrocket_config nodes ≡ err e
Fails sing_box nodes e = render_sing_box nodes ≡ err e

-- The format of that name, in any case of letters, has a document or fails; or no format has it.
abbrev pub RenderRun : Text → Text → List Node → Result Rendered → Type 0
RenderRun format lowered nodes (ok r) =
    (f : Format) × OneOf lowered (names f)
    × (r.content_type ≡ media_type f)
    × IsDocument f nodes r.body
RenderRun format lowered nodes (err e) =
    ((f : Format) × OneOf lowered (names f) × Fails f nodes e)
    ⊎ (((f : Format) → OneOf lowered (names f) → ⊥)
        × (e ≡ error (codes "unsupported format " ++ format)))

any_yes : (names : List Text) (t : Text) → any (text_eq t) names ≡ true → OneOf t names
any_yes [] t h = absurd (cc)
any_yes (name ∷ names) t h = elim (Bool-cases (text_eq t name)) [
  | inl same ↦ inl ((text_eq_iff t name).0 same)
  | inr other ↦ inr (any_yes names t (rw other at h))
]

any_no : (names : List Text) (t : Text) → any (text_eq t) names ≡ false → OneOf t names → ⊥
any_no [] t h one = one
any_no (name ∷ names) t h (inl same) =
    let e = (text_eq_iff t name).1 same in let h' : ◌≡◌ {A = Bool} true false = rw e at h in cc
any_no (name ∷ names) t h (inr one) = elim (Bool-cases (text_eq t name)) [
  | inl same ↦ let h' : ◌≡◌ {A = Bool} true false = rw same at h in cc
  | inr other ↦ any_no names t (rw other at h) one
]

module _ (format lowered : Text) (nodes : List Node) where
  abbrev Run : Result Rendered → Type 0
  Run = RenderRun format lowered nodes

  then-Run :
      {A : Type 0} (p : Result A) (k : A → Result Rendered)
      → ((a : A) → p ≡ ok a → Run (k a))
      → ((e : Thrown) → p ≡ err e → Run (err e))
      → Run (p >>= k)
  then-Run (ok a) k done thrown = done a refl
  then-Run (err e) k done thrown = thrown e refl

  base64-Run : OneOf lowered (names base64) → Run (render_base64 nodes)
  unfolding render_base64
  base64-Run one =
      then-Run (render_links nodes) _
        (λ plain h.
          then-Run (base64_encode plain) _ (λ body h'. (base64, one, refl, (plain, h, h')))
            (λ e h'. inl (base64, one, inr (plain, h, h'))))
        (λ e h. inl (base64, one, inl h))

  branch :
      (names : List Text) (a b : Result Rendered)
      → (OneOf lowered names → Run a)
      → ((OneOf lowered names → ⊥) → Run b)
      → Run (if any (text_eq lowered) names then a else b)
  branch names a b yes_ no_ = elim (Bool-cases (any (text_eq lowered) names)) [
    | inl h ↦ rw h (yes_ (any_yes names lowered h))
    | inr h ↦ rw h (no_ (any_no names lowered h))
  ]

  branch_one :
      (name : Text) (a b : Result Rendered)
      → (OneOf lowered (name ∷ []) → Run a)
      → ((OneOf lowered (name ∷ []) → ⊥) → Run b)
      → Run (if text_eq lowered name then a else b)
  branch_one name a b yes_ no_ = elim (Bool-cases (text_eq lowered name)) [
    | inl h ↦ rw h (yes_ (inl ((text_eq_iff lowered name).0 h)))
    | inr h ↦ rw h (no_ (any_no (name ∷ []) lowered (rw h refl)))
  ]

  unknown :
      ((f : Format) → OneOf lowered (names f) → ⊥)
      → Run (err (error (codes "unsupported format " ++ format)))
  unknown none_of = inr (none_of, refl)

  render_normalized-Run : Run (render_normalized format lowered nodes)
  unfolding render_normalized
  render_normalized-Run =
      branch (names links) _ _
        (λ one. then-Run _ _ (λ body h. (links, one, refl, h)) (λ e h. inl (links, one, h)))
        λ no_links. branch_one (codes "base64") _ _ base64-Run λ no_base64.
          branch (names clash) _ _
            (λ one. then-Run _ _ (λ body h. (clash, one, refl, h)) (λ e h. inl (clash, one, h)))
            λ no_clash.
              branch (names shadowrocket) _ _
                (λ one.
                  then-Run _ _ (λ body h. (shadowrocket, one, refl, h))
                    (λ e h. inl (shadowrocket, one, h)))
                λ no_shadowrocket.
                  branch (names sing_box) _ _
                    (λ one.
                      then-Run _ _ (λ config h. (sing_box, one, refl, (config, h, refl)))
                        (λ e h. inl (sing_box, one, h)))
                    λ no_sing_box. unknown (λ f. elim f as (λ k. OneOf lowered (names k) → ⊥) [
                      | links ↦ no_links
                      | base64 ↦ no_base64
                      | clash ↦ no_clash
                      | shadowrocket ↦ no_shadowrocket
                      | sing_box ↦ no_sing_box
                    ])

-- A format that is not empty is rendered, whatever the case of its letters.
pub render_subscription_run :
    (rt : Runtime) (format : Text) (nodes : List Node)
    → is_empty format ≡ false
    → RenderRun format
        (to_lower_case rt.lower_wide format)
        nodes
        (render_subscription rt format nodes)
unfolding render_subscription
render_subscription_run rt format nodes h =
    rw h (render_normalized-Run format (to_lower_case rt.lower_wide format) nodes)
