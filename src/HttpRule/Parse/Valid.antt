-- ===== src/HttpRule/Parse/Valid.antt =====
-- internal/httprule/parse.go: what every template that Parse returns satisfies.
use trpc_go.Common.{
  suc, ◌≡◌, ◌≢◌, refl, sym, Bool, true, false, List, [], ◌∷◌, ◌++◌, map, length, arith, Bool-cases,
  inl, inr, All, str_eq, str_eq_iff, if◌then◌else◌, not, ◌⊎◌,
}
use mathlib.Core.List.{append-nil}
use trpc_go.Wire.BigEndian.{Bytes}
use trpc_go.HttpRule.Template.{
  Segment, wildcard, deep_wildcard, literal, variable, Segments, nil, cons, PathTemplate, join,
  field_paths,
}
use trpc_go.HttpRule.Parse.{
  parser_internal, ParseError, Result, ok, fail, ◌>>=◌, consume, validate_nested, is_nil, is_seen,
  validate, finish, parse, with_verb, parse_segments, done,
}

-- The segments of a template with those of its variables in their place.
abbrev pub to_list : Segments → List Segment
to_list nil = []
to_list (cons s ss) = s ∷ to_list ss

abbrev pub flatten : Segments → List Segment
flatten nil = []
flatten (cons (variable fp inner) ss) = to_list inner ++ flatten ss
flatten (cons wildcard ss) = wildcard ∷ flatten ss
flatten (cons deep_wildcard ss) = deep_wildcard ∷ flatten ss
flatten (cons (literal l) ss) = literal l ∷ flatten ss

abbrev pub IsSimple : Segment → Type 0
IsSimple (variable fp inner) = ⊥
IsSimple _ = Unit

abbrev pub IsShallow : Segment → Type 0
IsShallow deep_wildcard = ⊥
IsShallow _ = Unit

-- Only the last segment may be `**`.
abbrev pub DeepLast : List Segment → Type 0
DeepLast [] = Unit
DeepLast (s ∷ []) = Unit
DeepLast (s ∷ t ∷ ss) = IsShallow s × DeepLast (t ∷ ss)

abbrev pub Distinct : List Bytes → Type 0
Distinct [] = Unit
Distinct (n ∷ ns) = All (λ m. n ≢ m) ns × Distinct ns

-- The names of the variables.
abbrev pub names : Segments → List Bytes
names segs = map (join (b'.' ∷ [])) (field_paths segs)

-- No variable inside a variable, `**` only at the very end, and no name twice.
pub record IsValid (segs : Segments) : Type 0 where
  pub simple : All IsSimple (flatten segs)
  pub deep_last : DeepLast (flatten segs)
  pub distinct : Distinct (names segs)

All-append {ℓ κ} :
    {A : Type ℓ} (P : A → Type κ) (xs ys : List A) → All P xs → All P ys → All P (xs ++ ys)
All-append P [] ys h k = k
All-append P (x ∷ xs) ys h k = (h.0, All-append P xs ys h.1 k)

DeepLast-cons : (s : Segment) (ss : List Segment) → IsShallow s → DeepLast ss → DeepLast (s ∷ ss)
DeepLast-cons s [] h k = tt
DeepLast-cons s (t ∷ ss) h k = (h, k)

DeepLast-append : (xs ys : List Segment) → All IsShallow xs → DeepLast ys → DeepLast (xs ++ ys)
DeepLast-append [] ys h k = k
DeepLast-append (x ∷ xs) ys h k = DeepLast-cons x (xs ++ ys) h.0 (DeepLast-append xs ys h.1 k)

append-nil_DeepLast : (xs : List Segment) → DeepLast xs → DeepLast (xs ++ [])
append-nil_DeepLast xs h = rw append-nil h

validate_nested-IsSimple :
    (last : Bool) (ss : Segments) → validate_nested last ss ≡ ok tt → All IsSimple (to_list ss)
unfolding validate_nested
validate_nested-IsSimple last nil e = tt
validate_nested-IsSimple last (cons (variable fp inner) ss) e = cc
validate_nested-IsSimple last (cons deep_wildcard nil) e = (tt, tt)
validate_nested-IsSimple last (cons deep_wildcard (cons s ss)) e = cc
validate_nested-IsSimple last (cons wildcard ss) e = (tt, validate_nested-IsSimple last ss e)
validate_nested-IsSimple last (cons (literal l) ss) e = (tt, validate_nested-IsSimple last ss e)

validate_nested_last :
    (last : Bool) (ss : Segments) → validate_nested last ss ≡ ok tt → DeepLast (to_list ss)
unfolding validate_nested
validate_nested_last last nil e = tt
validate_nested_last last (cons (variable fp inner) ss) e = cc
validate_nested_last last (cons deep_wildcard nil) e = tt
validate_nested_last last (cons deep_wildcard (cons s ss)) e = cc
validate_nested_last last (cons wildcard ss) e =
    DeepLast-cons wildcard (to_list ss) tt (validate_nested_last last ss e)
validate_nested_last last (cons (literal l) ss) e =
    DeepLast-cons (literal l) (to_list ss) tt (validate_nested_last last ss e)

validate_nested-IsShallow :
    (ss : Segments) → validate_nested false ss ≡ ok tt → All IsShallow (to_list ss)
unfolding validate_nested
validate_nested-IsShallow nil e = tt
validate_nested-IsShallow (cons (variable fp inner) ss) e = cc
validate_nested-IsShallow (cons deep_wildcard nil) e = cc
validate_nested-IsShallow (cons deep_wildcard (cons s ss)) e = cc
validate_nested-IsShallow (cons wildcard ss) e = (tt, validate_nested-IsShallow ss e)
validate_nested-IsShallow (cons (literal l) ss) e = (tt, validate_nested-IsShallow ss e)

validate_both : (r q : Result (Unit {0})) → (r >>= λ u. q) ≡ ok tt → (r ≡ ok tt) × (q ≡ ok tt)
validate_both (ok tt) q e = (refl, e)
validate_both (fail x) q e = cc

Result-cases {ℓ} :
    {A : Type ℓ} (r : Result A) → ((a : A) × (r ≡ ok a)) ⊎ ((e : ParseError) × (r ≡ fail e))
Result-cases (ok a) = inl (a, refl)
Result-cases (fail e) = inr (e, refl)

-- What a successful round of validate at a variable has checked.
validate_variable :
    (seen : List Bytes) (fp : List Bytes) (inner ss : Segments)
    → validate seen (cons (variable fp inner) ss) ≡ ok tt
    → (is_seen (join (b'.' ∷ []) fp) seen ≡ false)
      × ((validate_nested (is_nil ss) inner ≡ ok tt)
          × (validate (join (b'.' ∷ []) fp ∷ seen) ss ≡ ok tt))
unfolding validate
validate_variable seen fp inner ss e = elim (Bool-cases (is_seen (join (b'.' ∷ []) fp) seen)) [
  | inl seen_already ↦ cc
  | inr fresh ↦ (fresh, validate_both (validate_nested (is_nil ss) inner) _ (rw fresh at e))
]

-- A name that is not seen is none of the names seen.
is_seen-All :
    (name : Bytes) (seen : List Bytes) → is_seen name seen ≡ false → All (λ n. n ≢ name) seen
unfolding is_seen
is_seen-All name [] e = tt
is_seen-All name (n ∷ seen) e = elim (Bool-cases (str_eq n name)) [
  | inl seen_already ↦ cc
  | inr fresh ↦ ((λ same. ground (arith, str_eq_iff n name)), is_seen-All name seen (rw fresh at e))
]

All-map {ℓ κ μ} :
    {A : Type ℓ} {P : A → Type κ} {Q : A → Type μ} (f : (x : A) → P x → Q x) (xs : List A)
    → All P xs
    → All Q xs
All-map f [] h = tt
All-map f (x ∷ xs) h = (f x (h.0), All-map f xs (h.1))

-- What validate has made sure of when it returns no error.
record Checked (seen : List Bytes) (segs : Segments) : Type 0 where
  simple : All IsSimple (flatten segs)
  deep_last : DeepLast (flatten segs)
  distinct : Distinct (names segs)
  fresh : All (λ n. All (λ m. m ≢ n) seen) (names segs)

validate-Checked :
    (seen : List Bytes) (segs : Segments) → validate seen segs ≡ ok tt → Checked seen segs
unfolding validate is_nil field_paths
validate-Checked seen nil e = record { simple = tt; deep_last = tt; distinct = tt; fresh = tt }
validate-Checked seen (cons wildcard ss) e =
    let h = validate-Checked seen ss e in
    record {
      simple = (tt, h.simple);
      deep_last = DeepLast-cons wildcard _ tt (h.deep_last);
      distinct = h.distinct;
      fresh = h.fresh;
    }
validate-Checked seen (cons (literal l) ss) e =
    let h = validate-Checked seen ss e in
    record {
      simple = (tt, h.simple);
      deep_last = DeepLast-cons (literal l) _ tt (h.deep_last);
      distinct = h.distinct;
      fresh = h.fresh;
    }
validate-Checked seen (cons deep_wildcard nil) e = record {
  simple = (tt, tt);
  deep_last = tt;
  distinct = tt;
  fresh = tt;
}
validate-Checked seen (cons deep_wildcard (cons s ss)) e = cc
validate-Checked seen (cons (variable fp inner) nil) e =
    let (fresh, (nested, rest)) = validate_variable seen fp inner nil e in
    record {
      simple =
          All-append IsSimple (to_list inner) [] (validate_nested-IsSimple true inner nested) tt;
      deep_last = append-nil_DeepLast (to_list inner) (validate_nested_last true inner nested);
      distinct = (tt, tt);
      fresh = (All-map (λ n h e. h e) seen (is_seen-All _ seen fresh), tt);
    }
validate-Checked seen (cons (variable fp inner) (cons s ss)) e =
    let (fresh, (nested, rest)) = validate_variable seen fp inner (cons s ss) e in
    let h = validate-Checked (join (b'.' ∷ []) fp ∷ seen) (cons s ss) rest in
    record {
      simple =
          All-append IsSimple (to_list inner) _ (validate_nested-IsSimple false inner nested)
            (h.simple);
      deep_last =
          DeepLast-append (to_list inner) _ (validate_nested-IsShallow inner nested) (h.deep_last);
      distinct = (All-map (λ n a. a.0) (names (cons s ss)) (h.fresh), h.distinct);
      fresh = (is_seen-All _ seen fresh, All-map (λ n a. a.1) (names (cons s ss)) (h.fresh));
    }

end_template-IsValid :
    {segs : Segments} {verb : Bytes} (tpl : PathTemplate)
    → Checked [] segs
    → ok (record { segments = segs; verb = verb }) ≡ ok tpl
    → IsValid (tpl.segments)
end_template-IsValid {segs} tpl h e =
    let same : segs ≡ tpl.segments = cc in
    rw (sym same) (record { simple = h.simple; deep_last = h.deep_last; distinct = h.distinct })

end-IsValid :
    (segs : Segments) (verb rest : Bytes) (tpl : PathTemplate)
    → (if not (done rest)
        then fail parser_internal
        else validate [] segs >>= λ u. ok (record { segments = segs; verb = verb }))
      ≡ ok tpl
    → IsValid (tpl.segments)
unfolding done
end-IsValid segs verb (c ∷ rest) tpl e = cc
end-IsValid segs verb [] tpl e = elim (Result-cases (validate [] segs)) [
  | inl (u, valid) ↦ end_template-IsValid tpl (validate-Checked [] segs valid) (rw valid at e)
  | inr (x, invalid) ↦ cc
]

finish-IsValid :
    (segs : Segments) (s : Bytes) (tpl : PathTemplate)
    → finish segs s ≡ ok tpl
    → IsValid (tpl.segments)
unfolding finish
finish-IsValid segs s tpl e = elim (Result-cases (with_verb segs s)) [
  | inl (split, eq) ↦ end-IsValid (split.0) (split.1) (split.2) tpl (rw eq at e)
  | inr (x, eq) ↦ cc
]

-- A template that Parse returns has no variable inside a variable, has `**` only at its very end,
-- also with the segments of a last variable counted, and names no variable twice.
pub parse-IsValid :
    (url_path : Bytes) (tpl : PathTemplate) → parse url_path ≡ ok tpl → IsValid (tpl.segments)
unfolding parse
parse-IsValid url_path tpl e = elim (Result-cases (consume b'/' url_path)) [
  | inr (x, eq) ↦ cc
  | inl (s, eq) ↦ elim (Result-cases (parse_segments (suc (length url_path)) s)) [
    | inr (x, eq') ↦ cc
    | inl (parsed, eq') ↦ finish-IsValid (parsed.0) (parsed.1) tpl (rw (eq, eq') at e)
  ]
]
