-- ===== src/Parser/Handlers/Outer.antt =====
-- internal/parser/transitions.go: the functions of stateDocument and stateChildren.
use gokdl.Base.{
  ◌-◌, Bool, true, false, not, ◌&&◌, ◌||◌, [], ◌++◌, none, some, Bytes, ltb, ◌==◌, length, modify,
  if◌then◌else◌,
}
use gokdl.Document.Node.{Node}
use gokdl.Go.Strconv.{FloatLib}
use gokdl.Go.Strings.{trim_newline}
use gokdl.Parser.Context.{
  ParseContext, Outcome, ok, panic, ◌>>=◌, parses_comments, unexpected_token,
  expected_value_after_type, create_node, add_node, on_current_node, pop_state, push_state,
  start_continuation, mark_ignore_from_continuation, set_node_name_token,
}
use gokdl.Parser.Recent.{trailing_newlines}
use gokdl.Parser.State.{ParserState}
use gokdl.Tokenizer.Token.{Token, cleared, valid, is_v2}

-- `c.typeAnnot.Valid() && c.opts.Version != VersionV2`.
abbrev pub typed_v1 : ParseContext → Bool
typed_v1 c = valid c.type_annot && not (is_v2 c.opts.version)

-- The whitespace functions of stateDocument, stateChildren and stateNodeParams.
abbrev pub untyped_whitespace : ParseContext → Token → Outcome
untyped_whitespace c t = if typed_v1 c then unexpected_token c t else ok c

abbrev pub begin_continuation : ParseContext → Token → Outcome
begin_continuation c t = ok (start_continuation c)

abbrev pub begin_type_annot : ParseContext → Token → Outcome
begin_type_annot c t = ok (push_state ParserState.type_annot c)

-- The comment that was read before the node.
abbrev set_before : Bytes → Node → Node
set_before b n = record n { comment = some (record { before = b; after = [] }) }

abbrev with_newlines : ParseContext → ParseContext
with_newlines c = record c { comment = c.comment ++ trailing_newlines c.recent }

unfoldable pub take_comment : ParseContext → Outcome
take_comment c =
    if parses_comments c.opts
    then (if ltb 0 (length (with_newlines c).comment)
        then (on_current_node (set_before (trim_newline (with_newlines c).comment)) c >>= λ c'.
            ok (record c' { comment = [] }))
        else ok (with_newlines c))
    else ok c

abbrev set_type : Bytes → Node → Node
set_type b n = record n { type_annot = b }

unfoldable pub take_type : ParseContext → Outcome
take_type c =
    if valid c.type_annot
    then (on_current_node (set_type c.type_annot.content) c >>= λ c'.
        ok (record c' { type_annot = cleared }))
    else ok c

-- The new node of an identifier: detached if it is to be ignored.
unfoldable pub begin_node : Bool → ParseContext → ParseContext
unfolding create_node add_node
begin_node ignored c =
    if ignored then record (create_node c) { ignore_next_node = false } else add_node c

module _ (floats : FloatLib) where
  -- What both ClassIdentifier functions do with the new node.
  unfoldable pub name_node : Token → ParseContext → Outcome
  unfolding set_node_name_token take_comment take_type
  name_node t c = do
    named ← set_node_name_token floats t c
    commented ← take_comment named
    typed ← take_type commented
    ok (push_state ParserState.node typed)

  unfoldable pub document_identifier : ParseContext → Token → Outcome
  unfolding begin_node name_node
  document_identifier c t = name_node t (begin_node c.ignore_next_node c)

  unfoldable pub children_identifier : ParseContext → Token → Outcome
  unfolding begin_node name_node
  children_identifier c t =
      name_node t (begin_node (c.ignore_next_node || ltb 0 c.ignore_children) c)

unfoldable pub document_terminator : ParseContext → Token → Outcome
document_terminator c t = if valid c.type_annot then expected_value_after_type c t else ok c

-- The comment functions of stateDocument and stateChildren.
unfoldable pub outer_comment : ParseContext → Token → Outcome
outer_comment c t =
    if typed_v1 c
    then unexpected_token c t
    else if parses_comments c.opts
    then ok (record c { comment = c.comment ++ (trailing_newlines c.recent ++ t.content) })
    else ok c

unfoldable pub outer_token_comment : ParseContext → Token → Outcome
outer_token_comment c t =
    if valid c.type_annot
    then unexpected_token c t
    else ok (record (mark_ignore_from_continuation c) { ignore_next_node = true })

unfoldable pub children_newline : ParseContext → Token → Outcome
children_newline c t = ok c

-- One ignored child block is closed.
unfoldable pub leave_ignored : ParseContext → ParseContext
leave_ignored c =
    if ltb 0 c.ignore_children
    then (if c.ignore_children - 1 == 0
        then record c {
          ignore_children = 0;
          after_ignored_child_block = not c.ignore_child_block_from_continuation;
          ignore_child_block_from_continuation = false;
        }
        else record c { ignore_children = c.ignore_children - 1 })
    else c

abbrev append_after : Bytes → Node → Node
append_after b n = record n {
  comment = elim n.comment [
    | none ↦ some (record { before = []; after = b })
    | some k ↦ some (record { before = k.before; after = k.after ++ b })
  ];
}

-- The comment before a closing brace goes to `lastAddedNode`.
unfoldable pub comment_after : ParseContext → Outcome
comment_after c =
    if parses_comments c.opts
    then (if ltb 0 (length (with_newlines c).comment)
        then elim c.last_added_node [
          | none ↦ panic
          | some n ↦ ok (record c {
            nodes = modify n (append_after (trim_newline (with_newlines c).comment)) c.nodes;
            comment = [];
          })
        ]
        else ok (with_newlines c))
    else ok c

unfoldable pub children_brace_close : ParseContext → Token → Outcome
unfolding leave_ignored comment_after pop_state
children_brace_close c t =
    if c.ignore_next_node
    then unexpected_token c t
    else (comment_after (leave_ignored c) >>= pop_state)
