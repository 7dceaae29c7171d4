-- ===== src/HttpRule/Match.antt =====
-- internal/httprule/match.go: matching the path of a request against a template. The matcher is
-- passed along; the pools it comes from only save memory.
pub mod Reference
pub mod Steps
pub mod Follows
pub mod Captured
use trpc_go.Common.{
  ℕ, zero, suc, ◌+◌, ◌-◌, Bool, true, false, not, ◌&&◌, List, [], ◌∷◌, ◌++◌, Option, none, some,
  length, take, drop, get_elem?, ltb, leb, ◌==◌, if◌then◌else◌, str_eq,
}
use trpc_go.Common.Dict.{Dict, insert}
use trpc_go.Wire.BigEndian.{Bytes}
use trpc_go.HttpRule.Template.{
  Segment, wildcard, deep_wildcard, literal, variable, Segments, nil, cons, PathTemplate, join,
}
use trpc_go.HttpRule.Stack.{Stack, Popped, nothing, nil_dereference, popped, new, push, pop}

-- errNotMatch, errVerbMismatched, and a panic.
pub data MatchError : Type 0 where
  not_match verb_mismatched panicked : MatchError

pub data Outcome {ℓ} (A : Type ℓ) : Type ℓ where
  matched : A → Outcome A
  failed : MatchError → Outcome A

infixl 5 ◌>>=◌
abbrev pub ◌>>=◌ {ℓ κ} : {A : Type ℓ} {B : Type κ} → Outcome A → (A → Outcome B) → Outcome B
matched a >>= f = f a
failed e >>= f = failed e

pub record Matcher : Type 0 where
  pub components : List Bytes
  pub pos : ℕ
  pub captured : Dict Bytes
  pub st : Stack Bytes

-- m.st.Push(value) and the new position
unfoldable pub push_at : Bytes → ℕ → Matcher → Matcher
push_at value pos m = record {
  components = m.components;
  pos = pos;
  captured = m.captured;
  st = push value (m.st);
}

-- handle of wildcard; there is no component at m.pos if m.pos >= len(m.components).
unfoldable pub handle_wildcard : Matcher → Outcome Matcher
handle_wildcard m = elim (get_elem? (m.components) (m.pos)) [
  | none ↦ failed not_match
  | some c ↦ matched (push_at c (suc (m.pos)) m)
]

-- What the loop of deepWildcard.handle writes.
unfoldable pub slashed : List Bytes → Bytes
slashed [] = []
slashed (c ∷ cs) = b'/' ∷ (c ++ slashed cs)

unfoldable pub handle_deep_wildcard : Matcher → Outcome Matcher
handle_deep_wildcard m =
    if ltb (length (m.components)) (m.pos)
    then failed not_match
    else if m.pos == length (m.components)
    then matched (push_at [] (m.pos) m)
    else matched
        (push_at (drop 1 (slashed (drop (m.pos) (m.components)))) (length (m.components)) m)

unfoldable pub handle_literal : Bytes → Matcher → Outcome Matcher
handle_literal l m = elim (get_elem? (m.components) (m.pos)) [
  | none ↦ failed not_match
  | some c ↦ if not (str_eq c l) then failed not_match else matched (push_at c (suc (m.pos)) m)
]

-- len(v.segments)
unfoldable pub segments_len : Segments → ℕ
segments_len nil = 0
segments_len (cons s ss) = suc (segments_len ss)

-- The loop that pops the values of a variable, the last of them first.
unfoldable pub pop_concat : ℕ → List Bytes → Stack Bytes → Outcome (List Bytes × Stack Bytes)
pop_concat zero concat st = matched (concat, st)
pop_concat (suc i) concat st = elim (pop st) [
  | nothing ↦ failed not_match
  | nil_dereference ↦ failed panicked
  | popped s st' ↦ pop_concat i (s ∷ concat) st'
]

-- variable.handle behind its segments
unfoldable pub capture : List Bytes → ℕ → Matcher → Outcome Matcher
capture fp n m = pop_concat n [] (m.st) >>= λ r. matched (record {
  components = m.components;
  pos = m.pos;
  captured = insert (join (b'.' ∷ []) fp) (join (b'/' ∷ []) (r.0)) (m.captured);
  st = r.1;
})

unfoldable mutual
  pub handle : Segment → Matcher → Outcome Matcher
  handle wildcard m = handle_wildcard m
  handle deep_wildcard m = handle_deep_wildcard m
  handle (literal l) m = handle_literal l m
  handle (variable fp segs) m = handle_all segs m >>= capture fp (segments_len segs)

  -- The loops over segments, here and in Match.
  pub handle_all : Segments → Matcher → Outcome Matcher
  handle_all nil m = matched m
  handle_all (cons s ss) m = handle s m >>= handle_all ss

-- strings.Split(s, "/")
unfoldable pub split : Bytes → List Bytes
split [] = [] ∷ []
split (c ∷ s) = elim (split s) [
  | [] ↦ (c ∷ []) ∷ []
  | word ∷ words ↦ if c == b'/' then [] ∷ word ∷ words else (c ∷ word) ∷ words
]

-- strings.HasSuffix
unfoldable pub has_suffix : Bytes → Bytes → Bool
has_suffix s suffix =
    leb (length suffix) (length s) && str_eq (drop (length s - length suffix) s) suffix

-- The last component without the verb. There is always one, since Split returns one at least.
unfoldable pub strip_verb : Bytes → List Bytes → Outcome (List Bytes)
strip_verb verb [] = failed panicked
strip_verb verb (c ∷ []) =
    if not (has_suffix c (b':' ∷ verb))
    then failed verb_mismatched
    else if leb (length c) (length verb + 1)
    then failed verb_mismatched
    else matched (take (length c - length verb - 1) c ∷ [])
strip_verb verb (c ∷ d ∷ cs) = strip_verb verb (d ∷ cs) >>= λ r. matched (c ∷ r)

-- The test of tpl.verb
unfoldable pub match_verb : Bytes → List Bytes → Outcome (List Bytes)
match_verb [] components = matched components
match_verb (v ∷ verb) components = strip_verb (v ∷ verb) components

-- Match behind the verb
unfoldable pub match_segments : Segments → List Bytes → Outcome (Dict Bytes)
match_segments segs components =
    let m : Matcher = record { components = components; pos = 0; captured = []; st = new } in
    handle_all segs m >>= λ m'.
    if not (m'.pos == length (m'.components)) then failed not_match else matched (m'.captured)

-- Match
unfoldable pub match_path : PathTemplate → Bytes → Outcome (Dict Bytes)
match_path tpl [] = failed not_match
match_path tpl (c ∷ url_path) =
    if not (c == b'/')
    then failed not_match
    else match_verb (tpl.verb) (split url_path) >>= match_segments (tpl.segments)
