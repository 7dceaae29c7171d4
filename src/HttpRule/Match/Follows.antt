-- ===== src/HttpRule/Match/Follows.antt =====
-- Match of internal/httprule/match.go, the stack included, against the reference.
use trpc_go.Common.{
  ℕ, suc, ◌+◌, ◌≡◌, lt→neq, ==_refl, refl, sym, ap, ◌∙◌, not, List, [], ◌∷◌, ◌++◌, none, some,
  length, ◌==◌, if◌then◌else◌, arith, inl, inr, All,
}
use mathlib.Core.List.{append-nil}
use trpc_go.Common.Dict.{Dict, insert}
use trpc_go.Wire.BigEndian.{Bytes}
use trpc_go.HttpRule.Template.{
  Segment, wildcard, deep_wildcard, literal, variable, Segments, nil, cons, PathTemplate, join,
}
use trpc_go.HttpRule.Stack.{Stack, new, push, pop-push}
use trpc_go.HttpRule.Parse.{parse, ok}
use trpc_go.HttpRule.Parse.Valid.{IsSimple, to_list, flatten, parse-IsValid}
use trpc_go.HttpRule.Match.{
  Outcome, matched, failed, not_match, ◌>>=◌, Matcher, handle_wildcard, handle_deep_wildcard,
  handle_literal, segments_len, pop_concat, capture, handle, handle_all, match_segments, match_verb,
  match_path, split,
}
use trpc_go.HttpRule.Match.Reference.{piece, assign, to_outcome}
use trpc_go.HttpRule.Match.Steps.{
  at, pushes, remaining, IsInside, remaining-cases, StepsTo, wildcard_steps, literal_steps,
  deep_wildcard_steps, segments-AllSteps,
}

pop_pushed :
    (n : ℕ) (concat : List Bytes) (t : Bytes) (st : Stack Bytes)
    → pop_concat (suc n) concat (push t st) ≡ pop_concat n (t ∷ concat) st
unfolding pop_concat
pop_pushed n concat t st = rw (pop_concat, pop-push t st)

All-split {ℓ κ} :
    {A : Type ℓ} (P : A → Type κ) (xs ys : List A) → All P (xs ++ ys) → All P xs × All P ys
All-split P [] ys h = (tt, h)
All-split P (x ∷ xs) ys h = let (a, b) = All-split P xs ys (h.1) in ((h.0, a), b)

pop_concat-pushes :
    (ts acc : List Bytes) (n : ℕ) (st : Stack Bytes)
    → pop_concat (length ts + n) acc (pushes ts st) ≡ pop_concat n (ts ++ acc) st
unfolding pop_concat
pop_concat-pushes [] acc n st = let e : 0 + n ≡ n = omega arith in rw e
pop_concat-pushes (t ∷ ts) acc n st =
    let e : suc (length ts) + n ≡ length ts + suc n = omega arith in
    rw e (pop_concat-pushes ts acc (suc n) (push t st) ∙ pop_pushed n (ts ++ acc) t st)

pop_all :
    (ts : List Bytes) (st : Stack Bytes)
    → pop_concat (length ts) [] (pushes ts st) ≡ matched (ts, st)
unfolding pop_concat
pop_all ts st =
    let e : length ts ≡ length ts + 0 = omega arith in
    ap (λ n. pop_concat n [] (pushes ts st)) e
    ∙ (pop_concat-pushes ts [] 0 st ∙ ap (λ l. matched (l, st)) (append-nil ts))

abbrev captures : List Bytes → List Bytes → Matcher → Matcher
captures fp texts m = record {
  components = m.components;
  pos = m.pos;
  captured = insert (join (b'.' ∷ []) fp) (join (b'/' ∷ []) texts) (m.captured);
  st = m.st;
}

capture-pushes :
    (fp texts : List Bytes) (n pos : ℕ) (m : Matcher)
    → length texts ≡ n
    → capture fp n (at pos (pushes texts (m.st)) m) ≡ matched (captures fp texts (at pos (m.st) m))
unfolding capture
capture-pushes fp texts n pos m e = rw (sym e, capture, pop_all texts (m.st))

-- The end of Match
abbrev finally : Matcher → Outcome (Dict Bytes)
finally m = if not (m.pos == length (m.components)) then failed not_match else matched (m.captured)

-- From here on, the matcher does what the reference does.
abbrev Follows : Segments → Type 0
Follows ss =
    (m : Matcher)
    → All IsSimple (flatten ss)
    → IsInside m
    → (handle_all ss m >>= finally) ≡ to_outcome (assign ss (remaining m) (m.captured))

step-Follows :
    (s : Segment) (ss : Segments) (result : Outcome Matcher) (m : Matcher)
    → All IsSimple (flatten ss)
    → StepsTo s result m
    → Follows ss
    → ((result >>= handle_all ss) >>= finally)
      ≡ to_outcome (elim (piece s (remaining m)) [
        | none ↦ none
        | some (text, rest) ↦ assign ss rest (m.captured)
      ])
unfolding to_outcome
step-Follows s ss result m simple (inl (a, b)) follows = rw (a, b)
step-Follows s ss result m simple (inr (text, pos, a, b, k)) follows =
    rw (a, b) (follows (at pos (push text (m.st)) m) simple k)

variable-Follows :
    (fp : List Bytes) (inner ss : Segments) (m : Matcher)
    → All IsSimple (to_list inner)
    → All IsSimple (flatten ss)
    → IsInside m
    → Follows ss
    → (((handle_all inner m >>= capture fp (segments_len inner)) >>= handle_all ss) >>= finally)
      ≡ to_outcome (assign (cons (variable fp inner) ss) (remaining m) (m.captured))
unfolding to_outcome assign
variable-Follows fp inner ss m simple simple' h follows =
    elim (segments-AllSteps inner m simple h) [
      | inl (a, b) ↦ rw (b, assign, a)
      | inr (texts, pos, a, b, k, len) ↦
          rw (b, capture-pushes fp texts (segments_len inner) pos m len, assign, a)
            (follows (captures fp texts (at pos (m.st) m)) simple' k)
    ]

handle_all-Follows : (segs : Segments) → Follows segs
unfolding handle_all handle assign to_outcome
handle_all-Follows nil m simple h = elim (remaining-cases m h) [
  | inl (a, b) ↦ rw (assign, a, b, ==_refl)
  | inr (c, cs, a, b) ↦ rw (assign, a, lt→neq b)
]
handle_all-Follows (cons wildcard ss) m simple h =
    step-Follows wildcard ss (handle_wildcard m) m (simple.1) (wildcard_steps m h)
      (handle_all-Follows ss)
handle_all-Follows (cons deep_wildcard ss) m simple h =
    step-Follows deep_wildcard ss (handle_deep_wildcard m) m (simple.1) (deep_wildcard_steps m h)
      (handle_all-Follows ss)
handle_all-Follows (cons (literal l) ss) m simple h =
    step-Follows (literal l) ss (handle_literal l m) m (simple.1) (literal_steps l m h)
      (handle_all-Follows ss)
handle_all-Follows (cons (variable fp inner) ss) m simple h =
    let (here, behind) = All-split IsSimple (to_list inner) (flatten ss) simple in
    variable-Follows fp inner ss m here behind h (handle_all-Follows ss)

abbrev start : List Bytes → Matcher
start cs = record { components = cs; pos = 0; captured = []; st = new }

-- For every template that Parse returns, and every path, Match returns what the reference returns:
-- it fails with the same errors, captures the same values, and the stack is never short of a value.
pub match_path_follows :
    (template path : Bytes) (tpl : PathTemplate)
    → parse template ≡ ok tpl
    → match_path tpl (b'/' ∷ path)
      ≡ (match_verb (tpl.verb) (split path) >>= λ cs. to_outcome (assign (tpl.segments) cs []))
unfolding match_path match_segments handle_all
match_path_follows template path tpl parsed =
    elim (match_verb (tpl.verb) (split path))
      as (λ r.
        (r >>= match_segments (tpl.segments))
        ≡ (r >>= λ cs. to_outcome (assign (tpl.segments) cs []))) [
          | matched cs ↦
              handle_all-Follows (tpl.segments) (start cs)
                ((parse-IsValid template tpl parsed).simple) (omega arith)
          | failed e ↦ refl
        ]
