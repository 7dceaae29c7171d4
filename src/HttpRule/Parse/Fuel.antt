-- ===== src/HttpRule/Parse/Fuel.antt =====
-- internal/httprule/parse.go: the parser ends on every text, within the fuel of the model.
use trpc_go.Common.{
  ℕ, zero, suc, ◌+◌, ◌<◌, ◌≤◌, ◌≡◌, ◌≢◌, refl, Bool, true, false, List, [], ◌∷◌, length, arith,
  ◌==◌, if◌then◌else◌, Bool-cases, inl, inr,
}
use trpc_go.Wire.BigEndian.{Bytes}
use trpc_go.HttpRule.Template.{
  Segment, wildcard, deep_wildcard, literal, variable, Segments, nil, cons, join,
}
use trpc_go.HttpRule.Chars.{is_literal_char, is_pct_encoded}
use trpc_go.HttpRule.Parse.{
  ParseError, out_of_fuel, not_consumed, Result, ok, fail, ◌>>=◌, consume, literal_loop,
  parse_literal, ident_loop, parse_ident, parse_field_path, parse_variable_segment, parse_segment,
  more_segments, parse_segments, parse_verb, with_verb, validate_nested, is_nil, validate, finish,
  parse,
}

-- An error that the code has.
abbrev IsReal : ParseError → Type 0
IsReal out_of_fuel = ⊥
IsReal _ = Unit

-- A result that leaves less than n bytes, or an error that the code has.
abbrev Leaves {ℓ} : {A : Type ℓ} → ℕ → Result (A × Bytes) → Type 0
Leaves n (ok (_, rest)) = length rest < n
Leaves n (fail e) = IsReal e

length-literal_loop : (s : Bytes) → length (literal_loop s).0 + length (literal_loop s).1 ≡ length s
unfolding literal_loop
length-literal_loop [] = refl
length-literal_loop (c ∷ []) = ground arith
length-literal_loop (c ∷ a ∷ []) = ground (arith, length-literal_loop (a ∷ []))
length-literal_loop (c ∷ a ∷ b ∷ s) = elim (Bool-cases (is_literal_char c)) [
  | inl e ↦ rw e (omega (arith, length-literal_loop (a ∷ b ∷ s)))
  | inr e ↦ elim (Bool-cases (is_pct_encoded c a b)) [
    | inl e' ↦ rw (e, e') (omega (arith, length-literal_loop s))
    | inr e' ↦ rw (e, e') (omega arith)
  ]
]

parse_literal-Leaves : (s : Bytes) → Leaves (length s) (parse_literal s)
unfolding parse_literal
parse_literal-Leaves s = ground (arith, length-literal_loop s)

length-ident_loop : (s : Bytes) → length (ident_loop s).1 ≤ length s
unfolding ident_loop
length-ident_loop [] = omega arith
length-ident_loop (c ∷ s) = ground (arith, length-ident_loop s)

parse_ident-Leaves : (s : Bytes) → Leaves (length s) (parse_ident s)
unfolding parse_ident
parse_ident-Leaves [] = tt
parse_ident-Leaves (c ∷ s) = ground (arith, length-ident_loop s)

consume-Leaves :
    (c : ℕ) (s : Bytes) → 0 < c → (t : Bytes) → consume c s ≡ ok t → length s ≡ suc (length t)
unfolding consume
consume-Leaves c [] h t e = ground arith
consume-Leaves c (d ∷ s) h t e = ground arith

Leaves-bind {ℓ κ} :
    {A : Type ℓ} {B : Type κ} (m n : ℕ) (r : Result (A × Bytes))
    (f : A × Bytes → Result (B × Bytes))
    → Leaves m r
    → ((a : A) (rest : Bytes) → length rest < m → Leaves n (f (a, rest)))
    → Leaves n (r >>= f)
Leaves-bind m n (ok (a, rest)) f h k = k a rest h
Leaves-bind m n (fail e) f h k = h

Leaves-weaken {ℓ} :
    {A : Type ℓ} (r : Result (A × Bytes)) (m n : ℕ) → Leaves m r → m ≤ n → Leaves n r
Leaves-weaken (ok (a, rest)) m n h k = omega arith
Leaves-weaken (fail e) m n h k = h

if_Leaves {ℓ} :
    {A : Type ℓ} (b : Bool) (n : ℕ) (x y : Result (A × Bytes))
    → Leaves n x
    → Leaves n y
    → Leaves n (if b then x else y)
if_Leaves true n x y hx hy = hx
if_Leaves false n x y hx hy = hy

-- One byte is consumed, or there is another way on.
consume_cases {ℓ} :
    {A : Type ℓ} (n c : ℕ) (s : Bytes) (on : Bytes → Result (A × Bytes))
    (off : ParseError → Result (A × Bytes))
    → 0 < c
    → ((t : Bytes) → length s ≡ suc (length t) → Leaves n (on t))
    → ((e : ParseError) → IsReal e → Leaves n (off e))
    → Leaves n (elim (consume c s) [ ok t ↦ on t | fail e ↦ off e ])
unfolding consume
consume_cases n c [] on off h k l = ground (arith, l (not_consumed c))
consume_cases n c (d ∷ s) on off h k l = elim (Bool-cases (d == c)) [
  | inl e ↦ rw e (k s refl)
  | inr e ↦ rw e (l (not_consumed c) tt)
]

consume_bind {ℓ} :
    {A : Type ℓ} (n c : ℕ) (s : Bytes) (f : Bytes → Result (A × Bytes))
    → 0 < c
    → ((t : Bytes) → length s ≡ suc (length t) → Leaves n (f t))
    → Leaves n (consume c s >>= f)
unfolding consume
consume_bind n c [] f h k = ground arith
consume_bind n c (d ∷ s) f h k = elim (Bool-cases (d == c)) [
  | inl e ↦ rw e (k s refl)
  | inr e ↦ rw e tt
]

parse_field_path-Leaves :
    (f : ℕ) (s : Bytes) → length s < f → Leaves (length s) (parse_field_path f s)
unfolding parse_field_path
parse_field_path-Leaves zero s h = omega arith
parse_field_path-Leaves (suc f) s h =
    Leaves-bind (length s) (length s) (parse_ident s) _ (parse_ident-Leaves s) λ ident s1 h1.
      consume_cases (length s) b'.' s1 _ _ (omega arith)
        (λ s2 h2.
          Leaves-bind (length s2) (length s) (parse_field_path f s2) _
            (parse_field_path-Leaves f s2 (omega arith)) λ more s3 h3. omega arith)
        (λ e he. h1)

parse_variable_segment-Leaves :
    (f : ℕ) (segs : Bytes → Result (Segments × Bytes)) (s : Bytes)
    → length s ≤ f
    → ((t : Bytes) → length t < f → Leaves (length t) (segs t))
    → Leaves (length s) (parse_variable_segment f segs s)
unfolding parse_variable_segment
parse_variable_segment-Leaves f segs s h k = consume_bind (length s) b'{' s _ (omega arith) λ s1 h1.
    Leaves-bind (length s1) (length s) (parse_field_path f s1) _
      (parse_field_path-Leaves f s1 (omega arith))
      λ path s2 h2.
        Leaves-bind (length s) (length s) _ _
          (consume_cases (length s) b'=' s2 _ _ (omega arith)
            (λ s3 h3. Leaves-weaken _ (length s3) (length s) (k s3 (omega arith)) (omega arith))
            (λ e he. omega arith))
          λ inner s4 h4. consume_bind (length s) b'}' s4 _ (omega arith) λ s5 h5. omega arith

parse_segment-Leaves :
    (f : ℕ) (segs : Bytes → Result (Segments × Bytes)) (s : Bytes)
    → length s ≤ f
    → ((t : Bytes) → length t < f → Leaves (length t) (segs t))
    → Leaves (length s) (parse_segment f segs s)
unfolding parse_segment
parse_segment-Leaves f segs [] h k = tt
parse_segment-Leaves f segs (c ∷ s) h k = if_Leaves (c == 0) _ _ _ tt (
    if_Leaves (c == b'*') _ _ _
      (consume_cases (length (c ∷ s)) b'*' s _ _ (omega arith) (λ t e. omega arith)
        (λ e he. omega arith))
      (if_Leaves (c == b'{') _ _ _ (parse_variable_segment-Leaves f segs (c ∷ s) h k) (
        Leaves-bind (length (c ∷ s)) (length (c ∷ s)) (parse_literal (c ∷ s)) _
          (parse_literal-Leaves (c ∷ s)) λ lit rest h1. h1)))

more_segments-Leaves :
    (f n : ℕ) (seg : Segment) (s : Bytes)
    → Leaves (length s) (parse_segments f s)
    → length s < n
    → Leaves n (more_segments (parse_segments f) seg s)
unfolding more_segments
more_segments-Leaves f n seg [] h k = tt
more_segments-Leaves f n seg (c ∷ s) h k =
    Leaves-bind (length (c ∷ s)) n (parse_segments f (c ∷ s)) _ h λ segs rest h1. omega arith

parse_segments-Leaves : (f : ℕ) (s : Bytes) → length s < f → Leaves (length s) (parse_segments f s)
unfolding parse_segments
parse_segments-Leaves zero s h = omega arith
parse_segments-Leaves (suc f) s h =
    Leaves-bind (length s) (length s) _ _
      (parse_segment-Leaves f (parse_segments f) s (omega arith) (parse_segments-Leaves f))
      λ seg s1 h1.
        consume_cases (length s) b'/' s1 _ _ (omega arith)
          (λ s2 h2.
            more_segments-Leaves f (length s) seg s2 (parse_segments-Leaves f s2 (omega arith))
              (omega arith))
          (λ e he. h1)

-- A result of the parser, and no sign that the fuel ran out.
abbrev IsDone {ℓ} : {A : Type ℓ} → Result A → Type 0
IsDone (ok a) = Unit
IsDone (fail e) = IsReal e

IsDone-bind {ℓ κ} :
    {A : Type ℓ} {B : Type κ} (r : Result A) (f : A → Result B)
    → IsDone r
    → ((a : A) → IsDone (f a))
    → IsDone (r >>= f)
IsDone-bind (ok a) f h k = k a
IsDone-bind (fail e) f h k = h

Leaves-IsDone {ℓ} : {A : Type ℓ} (n : ℕ) (r : Result (A × Bytes)) → Leaves n r → IsDone r
Leaves-IsDone n (ok a) h = tt
Leaves-IsDone n (fail e) h = h

parse_verb-IsDone : (s : Bytes) → IsDone (parse_verb s)
unfolding parse_verb consume
parse_verb-IsDone [] = tt
parse_verb-IsDone (c ∷ s) =
    ground (arith, Leaves-IsDone (length s) (parse_literal s) (parse_literal-Leaves s))

with_verb-IsDone : (segs : Segments) (s : Bytes) → IsDone (with_verb segs s)
unfolding with_verb
with_verb-IsDone nil s = tt
with_verb-IsDone (cons (literal l) nil) s = tt
with_verb-IsDone (cons wildcard nil) s = IsDone-bind (parse_verb s) _ (parse_verb-IsDone s) λ v. tt
with_verb-IsDone (cons deep_wildcard nil) s =
    IsDone-bind (parse_verb s) _ (parse_verb-IsDone s) λ v. tt
with_verb-IsDone (cons (variable fp ss) nil) s =
    IsDone-bind (parse_verb s) _ (parse_verb-IsDone s) λ v. tt
with_verb-IsDone (cons seg (cons next segs)) s =
    IsDone-bind (with_verb (cons next segs) s) _ (with_verb-IsDone (cons next segs) s) λ r. tt

validate_nested-IsDone : (last : Bool) (segs : Segments) → IsDone (validate_nested last segs)
unfolding validate_nested
validate_nested-IsDone last nil = tt
validate_nested-IsDone last (cons (variable fp ss) segs) = tt
validate_nested-IsDone last (cons deep_wildcard nil) = ground arith
validate_nested-IsDone last (cons deep_wildcard (cons s segs)) = tt
validate_nested-IsDone last (cons wildcard segs) = validate_nested-IsDone last segs
validate_nested-IsDone last (cons (literal l) segs) = validate_nested-IsDone last segs

validate-IsDone : (seen : List Bytes) (segs : Segments) → IsDone (validate seen segs)
unfolding validate
validate-IsDone seen nil = tt
validate-IsDone seen (cons (variable fp ss) segs) = ground (
  arith,
  validate-IsDone (join (b'.' ∷ []) fp ∷ seen) segs,
  validate_nested-IsDone (is_nil segs) ss,
)
validate-IsDone seen (cons deep_wildcard segs) = ground (arith, validate-IsDone seen segs)
validate-IsDone seen (cons wildcard segs) = validate-IsDone seen segs
validate-IsDone seen (cons (literal l) segs) = validate-IsDone seen segs

finish-IsDone : (segs : Segments) (s : Bytes) → IsDone (finish segs s)
unfolding finish
finish-IsDone segs s =
    IsDone-bind (with_verb segs s) _ (with_verb-IsDone segs s)
      λ r. ground (arith, validate-IsDone [] (r.0))

parse-IsDone : (url_path : Bytes) → IsDone (parse url_path)
unfolding parse consume
parse-IsDone [] = tt
parse-IsDone (c ∷ s) = elim (Bool-cases (c == b'/')) [
  | inl e ↦ rw e (
      IsDone-bind (parse_segments (suc (suc (length s))) s) _
        (Leaves-IsDone (length s) _ (parse_segments-Leaves _ s (omega arith)))
        λ r. finish-IsDone (r.0) (r.1))
  | inr e ↦ rw e tt
]

-- Parse ends on every text with a template or with one of the errors of the package: the recursion
-- of the model never runs out of fuel.
pub parse_ends : (url_path : Bytes) → parse url_path ≢ fail out_of_fuel
parse_ends url_path e = rw e at (parse-IsDone url_path)
