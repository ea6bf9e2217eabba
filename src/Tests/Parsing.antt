-- ===== src/Tests/Parsing.antt =====
-- internal/parser and kdl.go: runs of the parser on tokens.
use gokdl.Tests.Floats.{floats}
use gokdl.Base.{
  ℕ, ◌≡◌, refl, List, [], ◌∷◌, Option, none, some, Bytes, codes, length, drop, replicate, ◌++◌,
}
use gokdl.Parser.Context.{Options, new_context}
use gokdl.Parser.Machine.Run.{Run, finished, parse_one, parse_all_context}
use gokdl.Parser.Machine.Step.{parse_step}
use gokdl.Base.{modify}
use gokdl.Document.Value.{value_from_token}
use gokdl.Parser.Context.{parses_comments}
use gokdl.Parser.Handlers.InNode.{node_whitespace, node_terminator}
use gokdl.Parser.Handlers.Outer.{
  document_identifier, children_identifier, document_terminator, children_newline,
  children_brace_close,
}
use gokdl.Parser.Handlers.Params.{params_brace_open, params_terminator}
use gokdl.Parser.Machine.Transitions.{
  find_handler, state_transitions, document_transitions, children_transitions, node_transitions,
  params_transitions,
}
use gokdl.Tokenizer.Token.{classes}
use gokdl.Parser.Recent.{no_tokens, recent_tokens_count, get}
use gokdl.Parser.Recent.Window.{add_each, only_valid, get-add_each}
use gokdl.Parser.Safety.Reentry.{Moves, parse_step-Moves}
use gokdl.Parser.Safety.Stacks.{Safe, new_context-Inv}
use gokdl.Parser.Safety.Step.{parse_step-Safe}
use gokdl.Parser.Safety.Total.{Sound, parse_one-Sound, parse_all_context-Sound}
use gokdl.Tokenizer.Token.{TokenId, Token, Version, cleared}

abbrev plain : Options
plain = record { relaxed = 0; flags = 0; version = Version.version_v1 }

abbrev token : TokenId → Bytes → ℕ → Token
token id s k = record { id = id; content = s; line = 1; column = k; version = Version.version_v1 }

-- The tokens of `a {`, `b` and `}` on lines of their own, as far as the parser reads them.
abbrev block : List Token
block =
    token TokenId.bare_identifier (codes "a") 0
    ∷ token TokenId.whitespace (codes " ") 1
    ∷ token TokenId.brace_open (codes "{") 2
    ∷ token TokenId.newline (codes "\n") 3
    ∷ token TokenId.bare_identifier (codes "b") 4
    ∷ token TokenId.newline (codes "\n") 5
    ∷ token TokenId.brace_close (codes "}") 6
    ∷ token TokenId.eof [] 7
    ∷ []

abbrev counts : Run → Option (ℕ × ℕ)
counts (finished c) = some (length c.nodes, length c.doc)
counts _ = none

-- The name alone.
one_node :
    counts (parse_one floats plain (token TokenId.bare_identifier (codes "a") 0 ∷ [])) ≡ some (1, 1)
unfolding parse_one parse_step find_handler state_transitions document_transitions classes
    document_identifier value_from_token parses_comments modify
one_node = refl

-- Two nodes, one of them the document's.
two_nodes : counts (parse_one floats plain block) ≡ some (2, 1)
unfolding parse_one parse_step find_handler state_transitions document_transitions
    children_transitions node_transitions params_transitions classes document_identifier
    children_identifier document_terminator node_whitespace node_terminator params_brace_open
    params_terminator children_newline children_brace_close value_from_token parses_comments modify
two_nodes = refl

parse_one-Sound_example : Sound (parse_one floats plain block)
parse_one-Sound_example = parse_one-Sound floats plain block

parse_all_context-Sound_example : Sound (parse_all_context floats (new_context plain) block)
parse_all_context-Sound_example =
    parse_all_context-Sound floats (new_context plain) block (new_context-Inv plain)

abbrev name : Token
name = token TokenId.bare_identifier (codes "a") 0

parse_step-Safe_example : Safe (parse_step floats (new_context plain) name)
parse_step-Safe_example = parse_step-Safe floats (new_context plain) name (new_context-Inv plain)

parse_step-Moves_example : Moves (parse_step floats (new_context plain) name)
parse_step-Moves_example = parse_step-Moves floats (new_context plain) name refl

get-add_each_example :
    get (add_each block no_tokens)
    ≡ only_valid (drop 8 (replicate recent_tokens_count cleared ++ block))
get-add_each_example = get-add_each block

abbrev kilobytes : Token
kilobytes = token TokenId.suffixed_decimal (codes "3kb") 4
