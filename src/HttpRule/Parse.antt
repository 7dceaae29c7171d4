-- ===== src/HttpRule/Parse.antt =====
-- internal/httprule/parse.go: the parser. Its position is the text that is left, `s`. The
-- recursion of parseSegments and parseFieldPath is on fuel.
pub mod Fuel
pub mod Valid
use trpc_go.Common.{
  ℕ, zero, suc, ◌+◌, ◌-◌, ◌<◌, Bool, true, false, not, ◌&&◌, ◌||◌, List, [], ◌∷◌, ◌++◌, Option,
  none, some, length, ltb, ◌==◌, if◌then◌else◌, str_eq,
}
use trpc_go.Wire.BigEndian.{Bytes}
use trpc_go.HttpRule.Template.{
  SegmentKind, kind_wildcard, kind_deep_wildcard, kind_literal, kind_variable, Segment, wildcard,
  deep_wildcard, literal, variable, Segments, nil, cons, PathTemplate, join,
}
use trpc_go.HttpRule.Chars.{is_alpha, is_digit, is_literal_char, is_pct_encoded}

-- The errors of the package; `out_of_fuel` belongs to the model only.
pub data ParseError : Type 0 where
  parser_internal empty_literal initial_char_alpha empty_ident : ParseError
  nested_var deep_wildcard_not_last dup_field_path trailing_slash : ParseError
  not_consumed : ℕ → ParseError
  out_of_fuel : ParseError

pub data Result {ℓ} (A : Type ℓ) : Type ℓ where
  ok : A → Result A
  fail : ParseError → Result A

infixl 5 ◌>>=◌
abbrev pub ◌>>=◌ {ℓ κ} : {A : Type ℓ} {B : Type κ} → Result A → (A → Result B) → Result B
ok a >>= f = f a
fail e >>= f = fail e

-- currentChar: byte 0 at the end.
unfoldable pub current_char : Bytes → ℕ
current_char [] = 0
current_char (c ∷ s) = c

unfoldable pub consume : ℕ → Bytes → Result Bytes
consume c [] = if 0 == c then ok [] else fail (not_consumed c)
consume c (d ∷ s) = if d == c then ok s else fail (not_consumed c)

-- The loop of parseLiteral: what it writes to the buffer, and what is left.
unfoldable pub literal_loop : Bytes → Bytes × Bytes
literal_loop [] = ([], [])
literal_loop (c ∷ a ∷ b ∷ s) =
    let onward = literal_loop (a ∷ b ∷ s) in
    let behind = literal_loop s in
    if is_literal_char c
    then (c ∷ onward.0, onward.1)
    else if is_pct_encoded c a b
    then (c ∷ a ∷ b ∷ behind.0, behind.1)
    else ([], c ∷ a ∷ b ∷ s)
literal_loop (c ∷ s) =
    let onward = literal_loop s in
    if is_literal_char c then (c ∷ onward.0, onward.1) else ([], c ∷ s)

unfoldable pub parse_literal : Bytes → Result (Bytes × Bytes)
parse_literal s =
    let (lit, rest) = literal_loop s in
    elim lit [ [] ↦ fail empty_literal | c ∷ more ↦ ok (c ∷ more, rest) ]

-- The loop of parseIdent behind the first character.
unfoldable pub ident_loop : Bytes → Bytes × Bytes
ident_loop [] = ([], [])
ident_loop (c ∷ s) =
    let onward = ident_loop s in
    if is_alpha c || is_digit c || c == b'_' then (c ∷ onward.0, onward.1) else ([], c ∷ s)

unfoldable pub parse_ident : Bytes → Result (Bytes × Bytes)
parse_ident [] = fail initial_char_alpha
parse_ident (c ∷ s) =
    if not (is_alpha c)
    then fail initial_char_alpha
    else (let (more, rest) = ident_loop s in ok (c ∷ more, rest))

unfoldable pub parse_field_path : ℕ → Bytes → Result (List Bytes × Bytes)
parse_field_path zero s = fail out_of_fuel
parse_field_path (suc f) s = do
  first ← parse_ident s
  elim (consume b'.' (first.1)) [
    | fail _ ↦ ok (first.0 ∷ [], first.1)
    | ok s' ↦ parse_field_path f s' >>= λ more. ok (first.0 ∷ more.0, more.1)
  ]

-- parseVariableSegment, with parseSegments for the segments behind `=`.
unfoldable pub parse_variable_segment :
    ℕ → (Bytes → Result (Segments × Bytes)) → Bytes → Result (Segment × Bytes)
parse_variable_segment f parse_segs s = do
  s1 ← consume b'{' s
  path ← parse_field_path f s1
  segs ← elim (consume b'=' (path.1)) [
    | ok s2 ↦ parse_segs s2
    | fail _ ↦ ok (cons wildcard nil, path.1)
  ]
  s3 ← consume b'}' (segs.1)
  ok (variable (path.0) (segs.0), s3)

unfoldable pub parse_segment :
    ℕ → (Bytes → Result (Segments × Bytes)) → Bytes → Result (Segment × Bytes)
parse_segment f parse_segs [] = fail parser_internal
parse_segment f parse_segs (c ∷ s) =
    if c == 0
    then fail parser_internal
    else if c == b'*'
    then (elim (consume b'*' s) [ ok s' ↦ ok (deep_wildcard, s') | fail _ ↦ ok (wildcard, s) ])
    else if c == b'{'
    then parse_variable_segment f parse_segs (c ∷ s)
    else parse_literal (c ∷ s) >>= λ lit. ok (literal (lit.0), lit.1)

-- p.done()
unfoldable pub done : Bytes → Bool
done [] = true
done (c ∷ s) = false

-- What parseSegments does behind a slash, with itself for the segments that follow.
unfoldable pub more_segments :
    (Bytes → Result (Segments × Bytes)) → Segment → Bytes → Result (Segments × Bytes)
unfolding done
more_segments parse_segs seg s = elim (done s) [
  | true ↦ fail trailing_slash
  | false ↦ parse_segs s >>= λ segs. ok (cons seg (segs.0), segs.1)
]

unfoldable pub parse_segments : ℕ → Bytes → Result (Segments × Bytes)
parse_segments zero s = fail out_of_fuel
parse_segments (suc f) s = do
  seg ← parse_segment f (parse_segments f) s
  elim (consume b'/' (seg.1)) [
    | fail _ ↦ ok (cons (seg.0) nil, seg.1)
    | ok s' ↦ more_segments (parse_segments f) (seg.0) s'
  ]

-- strings.LastIndex(s, ":") with the parts before and behind; `none` stands for -1.
unfoldable pub split_last_colon : Bytes → Option (Bytes × Bytes)
split_last_colon [] = none
split_last_colon (c ∷ s) = elim (split_last_colon s) [
  | some (before, behind) ↦ some (c ∷ before, behind)
  | none ↦ if c == b':' then some ([], s) else none
]

-- The verb inside the last segment, if that is a literal; it must not begin with the colon.
unfoldable pub literal_verb : Bytes → Bytes × Bytes
literal_verb l = elim (split_last_colon l) [
  | none ↦ (l, [])
  | some ([], behind) ↦ (l, [])
  | some (c ∷ before, behind) ↦ (c ∷ before, behind)
]

-- The verb behind a last segment of another kind.
unfoldable pub parse_verb : Bytes → Result (Bytes × Bytes)
parse_verb s = elim (consume b':' s) [ fail _ ↦ ok ([], s) | ok s' ↦ parse_literal s' ]

-- The segments with the verb taken from the last one, the verb, and what is left of the text.
unfoldable pub with_verb : Segments → Bytes → Result (Segments × Bytes × Bytes)
with_verb nil s = fail parser_internal
with_verb (cons (literal l) nil) s =
    let (l', verb) = literal_verb l in ok (cons (literal l') nil, verb, s)
with_verb (cons seg nil) s = parse_verb s >>= λ v. ok (cons seg nil, v.0, v.1)
with_verb (cons seg (cons next segs)) s =
    with_verb (cons next segs) s >>= λ r. ok (cons seg (r.0), r.1, r.2)

-- validate's loop over the nested segments of a variable: `last` says that the variable is the last
-- segment of the template.
unfoldable pub validate_nested : Bool → Segments → Result (Unit {0})
validate_nested last nil = ok tt
validate_nested last (cons (variable fp segs) ss) = fail nested_var
validate_nested last (cons deep_wildcard nil) =
    if not last then fail deep_wildcard_not_last else ok tt
validate_nested last (cons deep_wildcard (cons s ss)) = fail deep_wildcard_not_last
validate_nested last (cons wildcard ss) = validate_nested last ss
validate_nested last (cons (literal l) ss) = validate_nested last ss

-- m[s], for the names seen so far
unfoldable pub is_seen : Bytes → List Bytes → Bool
is_seen name [] = false
is_seen name (n ∷ seen) = if str_eq n name then true else is_seen name seen

unfoldable pub is_nil : Segments → Bool
is_nil nil = true
is_nil (cons s ss) = false

-- validate's loop over the segments of the template
unfoldable pub validate : List Bytes → Segments → Result (Unit {0})
validate seen nil = ok tt
validate seen (cons (variable fp segs) ss) =
    let name = join (b'.' ∷ []) fp in
    let rest = validate (name ∷ seen) ss in
    if is_seen name seen
    then fail dup_field_path
    else validate_nested (is_nil ss) segs >>= λ u. rest
validate seen (cons deep_wildcard ss) =
    let rest = validate seen ss in if not (is_nil ss) then fail deep_wildcard_not_last else rest
validate seen (cons wildcard ss) = validate seen ss
validate seen (cons (literal l) ss) = validate seen ss

-- parse behind the segments
unfoldable pub finish : Segments → Bytes → Result PathTemplate
finish segments s = do
  split ← with_verb segments s
  if not (done (split.2))
      then fail parser_internal
      else validate [] (split.0) >>= λ u. ok (record { segments = split.0; verb = split.1 })

-- Parse. Every call of parseSegments and parseFieldPath reads a byte first, so the length is fuel
-- enough.
unfoldable pub parse : Bytes → Result PathTemplate
parse url_path = do
  s ← consume b'/' url_path
  parsed ← parse_segments (suc (length url_path)) s
  finish (parsed.0) (parsed.1)
