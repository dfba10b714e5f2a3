-- ===== src/Renderers/Lines.antt =====
-- The lines of a Shadowrocket configuration: no text of a node can add a field or a line.
use mathlib.Core.List.{reverse}
use vpn_register_kit.Prelude.{
  ℕ, ◌+◌, ◌≡◌, refl, sym, ap, ◌∙◌, true, false, [], ◌∷◌, ◌++◌, Text, codes, all, trim, trim_start,
  replace_all, ◌==◌, arith, if◌then◌else◌, if_elim, all-append, all-reverse, ◌<◌,
}
use vpn_register_kit.Js.Number.{natural, decimal, number_text, is_zero}
use vpn_register_kit.Js.Number.Decimal.{all-decimal}
use vpn_register_kit.Js.Value.{Value, num, get, to_string}
use vpn_register_kit.Js.Result.{Result, ok, >>=-eq-ok}
use vpn_register_kit.Db.Rows.{Node}
use vpn_register_kit.Renderers.Common.{
  shadowrocket_name, shadowrocket_text, shadowrocket_value, trojan_name, shadowsocks_name,
  server_name,
}
use vpn_register_kit.Renderers.Escape.{is_plain_unit, shadowrocket_text_plain}
use vpn_register_kit.Renderers.Shadowrocket.{Entry, trojan_entry, shadowsocks_entry}

-- How often a unit stands in a text.
abbrev pub count : ℕ → Text → ℕ
count c [] = 0
count c (a ∷ t) = (if a == c then 1 else 0) + count c t

count-append : (c : ℕ) (s t : Text) → count c (s ++ t) ≡ count c s + count c t
count-append c [] t = omega arith
count-append c (a ∷ s) t = omega (arith, count-append c s t)

abbrev IsPlain : Text → Type 0
IsPlain t = all is_plain_unit t ≡ true

count-IsPlain : (c : ℕ) (t : Text) → is_plain_unit c ≡ false → IsPlain t → count c t ≡ 0
count-IsPlain c [] h p = refl
count-IsPlain c (a ∷ t) h p = ground (arith, count-IsPlain c t h)

trim_start-IsPlain : (t : Text) → IsPlain t → IsPlain (trim_start t)
unfolding trim_start
trim_start-IsPlain [] h = refl
trim_start-IsPlain (c ∷ t) h = ground (arith, trim_start-IsPlain t)

trim-IsPlain : (t : Text) → IsPlain t → IsPlain (trim t)
unfolding trim
trim-IsPlain t h =
    let begun = all-reverse is_plain_unit (trim_start t) (trim_start-IsPlain t h) in
    all-reverse is_plain_unit (trim_start (reverse (trim_start t)))
      (trim_start-IsPlain (reverse (trim_start t)) begun)

digit_plain : (d : ℕ) → d < 10 → is_plain_unit (d + b'0') ≡ true
digit_plain d h = ground arith

ok_value : {a b : Value} → ◌≡◌ {A = Result Value} (ok a) (ok b) → a ≡ b
ok_value h = cc

-- The text of a port.
port_plain : (k : ℕ) (t : Text) → to_string (num (natural k)) ≡ ok t → IsPlain t
unfolding to_string number_text is_zero
port_plain k t h =
    let same : decimal k ++ [] ≡ t = cc in
    rw (← same)
      (all-append is_plain_unit (decimal k) [] (all-decimal is_plain_unit digit_plain k) refl)

-- Separators as spaces.
abbrev spaced : Text → Text
spaced t = replace_all b'\r' (32 ∷ []) (replace_all b'\n' (32 ∷ []) (replace_all b',' (32 ∷ []) t))

spaced-cons : (c : ℕ) (t : Text) → spaced (c ∷ t) ≡ (if is_plain_unit c then c else 32) ∷ spaced t
unfolding replace_all
spaced-cons c t = ground arith

spaced-IsPlain : (t : Text) → IsPlain (spaced t)
unfolding replace_all
spaced-IsPlain [] = refl
spaced-IsPlain (c ∷ t) =
    let rest = spaced-IsPlain t in
    ap (all is_plain_unit) (spaced-cons c t)
    ∙ both (if is_plain_unit c then c else 32) (unit_plain c) rest
  where
    unit_plain : (c : ℕ) → is_plain_unit (if is_plain_unit c then c else 32) ≡ true
    unit_plain c = if_elim (λ u. is_plain_unit u ≡ true) (is_plain_unit c) c 32 (λ h. h) (λ h. refl)

    both : (u : ℕ) → is_plain_unit u ≡ true → IsPlain (spaced t) → IsPlain (u ∷ spaced t)
    both u h rest = ground arith

shadowrocket_name-IsPlain : (t : Text) → IsPlain (shadowrocket_name t)
unfolding shadowrocket_name
shadowrocket_name-IsPlain t = trim-IsPlain (spaced t) (spaced-IsPlain t)

shadowrocket_value-IsPlain : (v : Value) (t : Text) → shadowrocket_value v ≡ ok t → IsPlain t
unfolding shadowrocket_value
shadowrocket_value-IsPlain v t h =
    let (s, _, h') = >>=-eq-ok (to_string _) (λ s. ok (shadowrocket_text s)) h in
    let same : shadowrocket_text s ≡ t = cc in rw (← same) (shadowrocket_text_plain s)

-- The parts of a line, and how often a separator stands in them.
abbrev line_of : Text → Text → Text → Text → Text → Text → Text → Text → Text → Text
line_of a x b y c z d u e = a ++ (x ++ (b ++ (y ++ (c ++ (z ++ (d ++ (u ++ e)))))))

count-line_of :
    (s : ℕ) (a x b y c z d u e : Text)
    → is_plain_unit s ≡ false
    → IsPlain a
    → IsPlain b
    → IsPlain c
    → IsPlain d
    → IsPlain e
    → count s (line_of a x b y c z d u e) ≡ count s x + (count s y + (count s z + count s u))
count-line_of s a x b y c z d u e sep pa pb pc pd pe =
    let ca = count-IsPlain s a sep pa in
    let cb = count-IsPlain s b sep pb in
    let ce = count-IsPlain s c sep pc in
    let cd = count-IsPlain s d sep pd in
    let cf = count-IsPlain s e sep pe in simp (count-append s, ca, cb, ce, cd, cf) (omega arith)

-- A line with so many fields behind the first.
pub record IsLine (fields : ℕ) (entry : Entry) : Type 0 where
  pub plain_name : all is_plain_unit entry.name ≡ true
  pub commas : count b',' entry.line ≡ fields
  pub feeds : count b'\n' entry.line ≡ 0
  pub returns : count b'\r' entry.line ≡ 0

abbrev separators : ℕ → Text → Text → Text → Text → ℕ
separators s x y z u = count s x + (count s y + (count s z + count s u))

IsLine-line_of :
    (fields : ℕ) (a x b y c z d u e : Text)
    → IsPlain a
    → IsPlain b
    → IsPlain c
    → IsPlain d
    → IsPlain e
    → separators b',' x y z u ≡ fields
    → separators b'\n' x y z u ≡ 0
    → separators b'\r' x y z u ≡ 0
    → IsLine fields (record { name = a; line = line_of a x b y c z d u e })
IsLine-line_of fields a x b y c z d u e pa pb pc pd pe commas feeds returns = record {
  plain_name = pa;
  commas = count-line_of b',' a x b y c z d u e refl pa pb pc pd pe ∙ commas;
  feeds = count-line_of b'\n' a x b y c z d u e refl pa pb pc pd pe ∙ feeds;
  returns = count-line_of b'\r' a x b y c z d u e refl pa pb pc pd pe ∙ returns;
}

IsLine-same :
    (fields : ℕ) (a b : Entry)
    → ◌≡◌ {A = Result Entry} (ok a) (ok b)
    → IsLine fields a
    → IsLine fields b
IsLine-same fields a b h line = let same : a ≡ b = cc in rw (← same) line

-- The line of a Trojan protocol whose port is a number has the seven fields of its kind, and the
-- line of a Shadowsocks protocol five, whatever the texts of the node and the protocol are: both are
-- one line, and the name has no separator either.
pub entry_lines_lem :
    (node : Node) (protocol : Value) (entry : Entry) (k : ℕ)
    → get protocol (codes "port") ≡ ok (num (natural k))
    → ((trojan_entry node protocol ≡ ok entry) → IsLine 6 entry)
      × ((shadowsocks_entry node protocol ≡ ok entry) → IsLine 4 entry)
unfolding trojan_entry shadowsocks_entry codes
entry_lines_lem node protocol entry k is_port = (
  λ h.
      let (number, got, h1) = >>=-eq-ok (get protocol (codes "port")) _ h in
      let (port, ported, h2) = >>=-eq-ok (to_string number) _ h1 in
      let (secret, _, h3) = >>=-eq-ok (get protocol (codes "password")) _ h2 in
      let (password, shown, h4) = >>=-eq-ok (shadowrocket_value secret) _ h3 in
      let (given, _, h5) = >>=-eq-ok (get protocol (codes "sni")) _ h4 in
      let (sni, named, h6) = >>=-eq-ok (shadowrocket_value (server_name node given)) _ h5 in
      IsLine-same 6 _ entry h6 (
        IsLine-line_of 6 (shadowrocket_name (trojan_name node)) (codes " = trojan, ")
          (shadowrocket_text node.host) (codes ", ") port (codes ", password=") password
          (codes ", over-tls=true, tls-verification=true, sni=") sni
          (shadowrocket_name-IsPlain (trojan_name node)) (shadowrocket_text_plain node.host)
          (read_port number port got ported) (shadowrocket_value-IsPlain secret password shown)
          (shadowrocket_value-IsPlain (server_name node given) sni named) refl refl refl),
  λ h.
      let (number, got, h1) = >>=-eq-ok (get protocol (codes "port")) _ h in
      let (port, ported, h2) = >>=-eq-ok (to_string number) _ h1 in
      let (cipher, _, h3) = >>=-eq-ok (get protocol (codes "method")) _ h2 in
      let (method, chosen, h4) = >>=-eq-ok (shadowrocket_value cipher) _ h3 in
      let (secret, _, h5) = >>=-eq-ok (get protocol (codes "password")) _ h4 in
      let (password, shown, h6) = >>=-eq-ok (shadowrocket_value secret) _ h5 in
      IsLine-same 4 _ entry h6 (
        IsLine-line_of 4 (shadowrocket_name (shadowsocks_name node)) (codes " = ss, ")
          (shadowrocket_text node.host) (codes ", ") port (codes ", encrypt-method=") method
          (codes ", password=") password (shadowrocket_name-IsPlain (shadowsocks_name node))
          (shadowrocket_text_plain node.host) (read_port number port got ported)
          (shadowrocket_value-IsPlain cipher method chosen)
          (shadowrocket_value-IsPlain secret password shown) refl refl refl),
)
  where
    read_port :
        (number : Value) (port : Text)
        → get protocol (codes "port") ≡ ok number
        → to_string number ≡ ok port
        → IsPlain port
    read_port number port got ported =
        let same : number ≡ num (natural k) = ok_value (sym got ∙ is_port) in
        port_plain k port (ap to_string (sym same) ∙ ported)
