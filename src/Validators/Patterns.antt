-- ===== src/Validators/Patterns.antt =====
-- The regular expressions of validators.js, in words.
use vpn_register_kit.Prelude.{
  ℕ, zero, suc, ◌≤◌, ◌≡◌, refl, sym, ap, ◌∙◌, ◌↔◌, Bool, true, [], ◌∷◌, ◌++◌, Text, all, length,
  arith, ◌==◌, ==_iff,
}
use mathlib.Core.List.{append-nil}
use vpn_register_kit.Js.Regex.{unit, seq, repeat, test}
use vpn_register_kit.Js.Regex.Language.{Power, Matched, test_iff}
use vpn_register_kit.Validators.{
  is_digit, is_alnum, is_id_unit, is_host_unit, node_id_pattern, host_pattern, ip_pattern,
}

-- n repetitions of a class are n units of the class.
Power-sound :
    (p : ℕ → Bool) (n : ℕ) (w : Text)
    → Power (Matched (unit p)) n w
    → (all p w ≡ true) × (length w ≡ n)
Power-sound p zero w e = rw e (refl, refl)
Power-sound p (suc n) w (u, v, e, (c, eu, pc), rest) =
    let (ps, len) = Power-sound p n v rest in
    let whole : w ≡ c ∷ v = e ∙ ap (λ t. t ++ v) eu in rw whole (ground arith, omega arith)

Power-complete : (p : ℕ → Bool) (w : Text) → all p w ≡ true → Power (Matched (unit p)) (length w) w
Power-complete p [] h = refl
Power-complete p (c ∷ w) h =
    (c ∷ [], w, refl, (c, refl, ground arith), Power-complete p w (ground arith))

repeat_iff :
    (lo hi : ℕ) (p : ℕ → Bool) (w : Text)
    → Matched (repeat lo hi (unit p)) w ↔ ((all p w ≡ true) × (lo ≤ length w) × (length w ≤ hi))
repeat_iff lo hi p w = (
  λ (n, low, high, power).
      let (ps, len) = Power-sound p n w power in (ps, omega arith, omega arith),
  λ (ps, low, high). (length w, low, high, Power-complete p w ps),
)

-- A letter or digit, then 1 to 63 letters, digits, dots, underscores or dashes.
pub record IsNodeId (s : Text) : Type 0 where
  pub head : ℕ
  pub rest : Text
  pub parts : s ≡ head ∷ rest
  pub head_alnum : is_alnum head ≡ true
  pub rest_units : all is_id_unit rest ≡ true
  pub at_least : 1 ≤ length rest
  pub at_most : length rest ≤ 63

-- A letter or digit at each end, and at most 252 letters, digits, dots or dashes between.
pub record IsHostName (s : Text) : Type 0 where
  pub head : ℕ
  pub middle : Text
  pub last : ℕ
  pub parts : s ≡ head ∷ (middle ++ last ∷ [])
  pub head_alnum : is_alnum head ≡ true
  pub middle_units : all is_host_unit middle ≡ true
  pub last_alnum : is_alnum last ≡ true
  pub at_most : length middle ≤ 252

-- The pattern of node ids accepts exactly the node ids.
pub node_id_pattern_iff : (s : Text) → (test node_id_pattern s ≡ true) ↔ IsNodeId s
unfolding node_id_pattern
node_id_pattern_iff s = (
  λ h.
      let (u, v, e, (c, eu, pc), reps) = (test_iff node_id_pattern s).0 h in
      let (units, low, high) = (repeat_iff 1 63 is_id_unit v).0 reps in
      record {
        head = c;
        rest = v;
        parts = e ∙ ap (λ t. t ++ v) eu;
        head_alnum = pc;
        rest_units = units;
        at_least = low;
        at_most = high;
      },
  λ i. (test_iff node_id_pattern s).1 (
    i.head ∷ [],
    i.rest,
    i.parts,
    (i.head, refl, i.head_alnum),
    (repeat_iff 1 63 is_id_unit i.rest).1 (i.rest_units, i.at_least, i.at_most),
  ),
)

-- The pattern of hosts accepts exactly the host names.
pub host_pattern_iff : (s : Text) → (test host_pattern s ≡ true) ↔ IsHostName s
unfolding host_pattern
host_pattern_iff s = (
  λ h.
      let (u, v, e, (c, eu, pc), (m, w, em, reps, (d, ew, pd))) = (test_iff host_pattern s).0 h in
      let (units, low, high) = (repeat_iff 0 252 is_host_unit m).0 reps in
      record {
        head = c;
        middle = m;
        last = d;
        parts = e ∙ ap (λ t. t ++ v) eu ∙ ap (λ t. c ∷ t) (em ∙ ap (λ t. m ++ t) ew);
        head_alnum = pc;
        middle_units = units;
        last_alnum = pd;
        at_most = high;
      },
  λ i. (test_iff host_pattern s).1 (
    i.head ∷ [],
    i.middle ++ i.last ∷ [],
    i.parts,
    (i.head, refl, i.head_alnum),
    (
      i.middle,
      i.last ∷ [],
      refl,
      (repeat_iff 0 252 is_host_unit i.middle).1 (i.middle_units, omega arith, i.at_most),
      (i.last, refl, i.last_alnum),
    ),
  ),
)

-- One to three digits.
abbrev pub IsGroup : Text → Type 0
IsGroup g = (all is_digit g ≡ true) × (1 ≤ length g) × (length g ≤ 3)

-- Four groups with dots between them.
pub record IsDotted (s : Text) : Type 0 where
  pub a : Text
  pub b : Text
  pub c : Text
  pub d : Text
  pub parts : s ≡ a ++ (b'.' ∷ (b ++ (b'.' ∷ (c ++ (b'.' ∷ d)))))
  pub a_group : IsGroup a
  pub b_group : IsGroup b
  pub c_group : IsGroup c
  pub d_group : IsGroup d

abbrev DotGroup : Text → Type 0
DotGroup = Matched (seq (unit (λ c. c == b'.')) (repeat 1 3 (unit is_digit)))

dot_group : (w : Text) → DotGroup w → (g : Text) × (w ≡ b'.' ∷ g) × IsGroup g
dot_group w (u, v, e, (c, eu, dot), reps) =
    let is_dot : c ≡ b'.' = (==_iff c b'.').0 dot in
    (v, e ∙ ap (λ t. t ++ v) eu ∙ ap (λ x. x ∷ v) is_dot, (repeat_iff 1 3 is_digit v).0 reps)

group_dot : (g : Text) → IsGroup g → DotGroup (b'.' ∷ g)
group_dot g h = (b'.' ∷ [], g, refl, (b'.', refl, refl), (repeat_iff 1 3 is_digit g).1 h)

three_groups :
    (n : ℕ) (w : Text)
    → n ≡ 3
    → Power DotGroup n w
    → (b : Text) × (c : Text) × (d : Text) × (w ≡ b'.' ∷ (b ++ (b'.' ∷ (c ++ (b'.' ∷ d)))))
      × IsGroup b
      × IsGroup c
      × IsGroup d
three_groups (suc (suc (suc zero))) w e (u1, w1, e1, g1, (u2, w2, e2, g2, (u3, w3, e3, g3, e4))) =
    let (b, eb, hb) = dot_group u1 g1 in
    let (c, ec, hc) = dot_group u2 g2 in
    let (d, ed, hd) = dot_group u3 g3 in
    (b, c, d, simp (e1, e2, e3, e4, eb, ec, ed, append-nil), hb, hc, hd)
three_groups zero w e p = absurd (omega arith)
three_groups (suc zero) w e p = absurd (omega arith)
three_groups (suc (suc zero)) w e p = absurd (omega arith)
three_groups (suc (suc (suc (suc n)))) w e p = absurd (omega arith)

-- The pattern of addresses accepts exactly four groups of one to three digits with dots between.
pub ip_pattern_iff : (s : Text) → (test ip_pattern s ≡ true) ↔ IsDotted s
unfolding ip_pattern
ip_pattern_iff s = (
  λ h.
      let (a, v, e, first, (n, low, high, power)) = (test_iff ip_pattern s).0 h in
      let (b, c, d, ev, hb, hc, hd) = three_groups n v (omega arith) power in
      record {
        a = a;
        b = b;
        c = c;
        d = d;
        parts = e ∙ ap (λ t. a ++ t) ev;
        a_group = (repeat_iff 1 3 is_digit a).0 first;
        b_group = hb;
        c_group = hc;
        d_group = hd;
      },
  λ i. (test_iff ip_pattern s).1 (
    i.a,
    b'.' ∷ (i.b ++ (b'.' ∷ (i.c ++ (b'.' ∷ i.d)))),
    i.parts,
    (repeat_iff 1 3 is_digit i.a).1 i.a_group,
    (
      3,
      omega arith,
      omega arith,
      (
        b'.' ∷ i.b,
        b'.' ∷ (i.c ++ (b'.' ∷ i.d)),
        refl,
        group_dot i.b i.b_group,
        (
          b'.' ∷ i.c,
          b'.' ∷ i.d,
          refl,
          group_dot i.c i.c_group,
          (b'.' ∷ i.d, [], sym (append-nil _), group_dot i.d i.d_group, refl),
        ),
      ),
    ),
  ),
)
