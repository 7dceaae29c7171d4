-- ===== src/HttpRule/Tests.antt =====
-- Runs of internal/httprule on templates and paths.
use trpc_go.Common.{◌≡◌, ◌≢◌, refl, [], ◌∷◌, codes, All, str_eq}
use trpc_go.Common.Dict.{Dict, insert}
use trpc_go.Wire.BigEndian.{Bytes}
use trpc_go.HttpRule.Template.{
  PathTemplate, nil, cons, literal, variable, wildcard, deep_wildcard, join,
}
use trpc_go.HttpRule.Chars.{is_alpha, is_digit, is_literal_char, is_pct_encoded}
use trpc_go.HttpRule.Parse.{
  ok, fail, out_of_fuel, parse, consume, literal_loop, parse_literal, ident_loop, parse_ident,
  parse_field_path, parse_variable_segment, parse_segment, done, more_segments, parse_segments,
  parse_verb, with_verb, validate_nested, is_seen, is_nil, validate, finish,
}
use trpc_go.HttpRule.Parse.Fuel.{parse_ends}
use trpc_go.HttpRule.Parse.Valid.{IsValid, parse-IsValid, names}
use trpc_go.HttpRule.Stack.{new, push, pop}
use trpc_go.HttpRule.Match.{
  matched, ◌>>=◌, push_at, handle_wildcard, slashed, handle_deep_wildcard, handle_literal,
  segments_len, pop_concat, capture, handle, handle_all, split, has_suffix, strip_verb, match_verb,
  match_segments, match_path,
}
use trpc_go.HttpRule.Match.Reference.{assign, to_outcome}
use trpc_go.HttpRule.Match.Follows.{match_path_follows}
use trpc_go.HttpRule.Match.Captured.{IsCaptured, match_path_captures}

abbrev template_text : Bytes
template_text = codes "/v1/{name.id=shelves/*}/{rest=**}:get"

abbrev template : PathTemplate
template = record {
  segments = cons (literal (codes "v1")) (
      cons
        (variable (codes "name" ∷ codes "id" ∷ [])
          (cons (literal (codes "shelves")) (cons wildcard nil)))
        (cons (variable (codes "rest" ∷ []) (cons deep_wildcard nil)) nil));
  verb = codes "get";
}

template_text-parse : parse template_text ≡ ok template
unfolding parse consume parse_segments parse_segment parse_literal literal_loop is_literal_char
    is_pct_encoded is_alpha is_digit more_segments done parse_variable_segment parse_field_path
    parse_ident ident_loop finish with_verb parse_verb validate is_seen validate_nested is_nil join
    str_eq
template_text-parse = refl

abbrev path : Bytes
path = codes "v1/shelves/7/a/b:get"

abbrev values : Dict Bytes
values = (codes "name.id", codes "shelves/7") ∷ (codes "rest", codes "a/b") ∷ []

template-match_path : match_path template (b'/' ∷ path) ≡ matched values
unfolding match_path match_verb strip_verb has_suffix split match_segments handle_all handle
    handle_literal handle_wildcard handle_deep_wildcard push_at slashed capture segments_len
    pop_concat pop push new join insert str_eq
template-match_path = refl

parse_ends_example : parse template_text ≢ fail out_of_fuel
parse_ends_example = parse_ends template_text

parse-IsValid_example : IsValid (template.segments)
parse-IsValid_example = parse-IsValid template_text template template_text-parse

match_path_follows_example : match_path template (b'/' ∷ path) ≡ (
    match_verb (template.verb) (split path) >>= λ cs. to_outcome (assign (template.segments) cs []))
match_path_follows_example = match_path_follows template_text path template template_text-parse

match_path_captures_example : All (IsCaptured values) (names (template.segments))
match_path_captures_example =
    match_path_captures template_text path template values template_text-parse template-match_path
