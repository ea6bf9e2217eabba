-- ===== src/Document/Writer/Text.antt =====
-- document/node.go: the text of a node, which is written to a buffer; and what becomes of the error of a
-- child.
use gokdl.Base.{
  ◌+◌, ◌≡◌, refl, ap, ◌∙◌, false, ◌&&◌, [], ◌∷◌, ◌++◌, Option, none, Bytes, length, length-append,
  append_assoc, append-nil, ltb, codes, arith, if◌then◌else◌,
}
use gokdl.Document.Node.{Node, new_node}
use gokdl.Document.Properties.{exist}
use gokdl.Tokenizer.Token.{version_v1}
use gokdl.Document.Value.{Value}
use gokdl.Document.Writer.{
  name_bytes, Output, comment_before, comment_after, write_name, write_sign, write_arguments,
  write_properties, write_semicolon, write_close, write_head, write_block, deeper, after_child,
  write_tree, write_children,
}
use gokdl.Document.Writer.Shape.{
  default_write_options, WriteOptions, Tree, tree, Forest, nil, cons, is_nil, repeat, line_indent,
}
use gokdl.Document.Writer.Buffer.{
  keep, out, out_eq, Adds, nothing-Adds, then-Adds, if-Adds, put, write-Adds, guarded, guarded-Adds,
  comment_before_text, comment_after_text, name_text, sign_text, arguments_text, properties_text,
  comment_before-Adds, comment_after-Adds, write_name-Adds, write_sign-Adds, write_arguments-Adds,
  write_properties-Adds,
}
use gokdl.Go.Strconv.{FloatLib}

module _ (floats : FloatLib) (trim_space : Bytes → Bytes) where
  abbrev indent_text : WriteOptions → Bytes
  indent_text opts =
      if ltb 0 opts.depth && opts.leading_trailing_space then line_indent opts else []

  -- A node up to its children.
  abbrev head_text : WriteOptions → Value → Node → Option Bytes → Forest → Bytes
  head_text opts name n before children =
      ((((comment_before_text floats trim_space opts before ++ indent_text opts)
            ++ name_text floats trim_space opts name n.type_annot)
          ++ sign_text floats trim_space opts n children)
        ++ arguments_text floats trim_space opts false n.arguments)
      ++ properties_text floats trim_space opts n

  abbrev close_text : WriteOptions → Bytes
  close_text opts = (if ltb 0 opts.depth then repeat opts.indent opts.depth else []) ++ b'}' ∷ []

  abbrev semicolon_text : WriteOptions → Bytes
  semicolon_text opts = if opts.add_semicolons then b';' ∷ [] else []

  -- The text of a node: the parts in front, the children one behind the other in braces, or a semicolon,
  -- and the comment behind.
  unfoldable mutual
    pub tree_text : WriteOptions → Tree → Bytes
    tree_text opts (tree name n before after children) =
        let inner = forest_text (deeper floats keep trim_space opts) children in
        (head_text opts name n before children
          ++ (if is_nil children
              then semicolon_text opts
              else (codes " {\n" ++ inner) ++ close_text opts))
        ++ comment_after_text floats trim_space opts after

    pub forest_text : WriteOptions → Forest → Bytes
    forest_text opts nil = []
    forest_text opts (cons t ts) = tree_text opts t ++ forest_text opts ts

  write_head-Adds :
      (opts : WriteOptions) (name : Value) (n : Node) (before : Option Bytes) (children : Forest)
      → Adds
          (head_text opts name n before children)
          (write_head floats keep trim_space opts name n before children)
  unfolding write_head
  write_head-Adds opts name n before children =
      let commented = comment_before floats keep trim_space opts before in
      let indented : Output Bytes → Output Bytes = λ o.
        if ltb 0 opts.depth && opts.leading_trailing_space
        then put floats trim_space (line_indent opts) (commented o)
        else commented o in
      let named = write_name floats keep trim_space opts name n.type_annot in
      let signed = write_sign floats keep trim_space opts n children in
      let argued = write_arguments floats keep trim_space opts false n.arguments in
      then-Adds _ _ (λ o. argued (signed (named (indented o))))
        (write_properties floats keep trim_space opts n)
        (then-Adds _ _ (λ o. signed (named (indented o))) argued
          (then-Adds _ _ (λ o. named (indented o)) signed
            (then-Adds _ _ indented named
              (then-Adds (comment_before_text floats trim_space opts before) (indent_text opts)
                commented
                (λ o.
                  if ltb 0 opts.depth && opts.leading_trailing_space
                  then put floats trim_space (line_indent opts) o
                  else o)
                (comment_before-Adds floats trim_space opts before)
                (if-Adds (ltb 0 opts.depth && opts.leading_trailing_space) (line_indent opts) []
                  (put floats trim_space (line_indent opts)) (λ o. o)
                  (write-Adds floats trim_space (line_indent opts)) nothing-Adds))
              (write_name-Adds floats trim_space opts name n.type_annot))
            (write_sign-Adds floats trim_space opts n children))
          (write_arguments-Adds floats trim_space opts false n.arguments))
        (write_properties-Adds floats trim_space opts n)

  write_close-Adds :
      (opts : WriteOptions) → Adds (close_text opts) (write_close floats keep trim_space opts)
  unfolding write_close
  write_close-Adds opts =
      let pad = repeat opts.indent opts.depth in
      then-Adds (if ltb 0 opts.depth then pad else []) (b'}' ∷ [])
        (λ o.
          if ltb 0 opts.depth then guarded floats trim_space (put floats trim_space pad) o else o)
        (guarded floats trim_space (put floats trim_space (b'}' ∷ [])))
        (if-Adds (ltb 0 opts.depth) pad [] (guarded floats trim_space (put floats trim_space pad))
          (λ o. o)
          (guarded-Adds floats trim_space pad (put floats trim_space pad)
            (write-Adds floats trim_space pad))
          nothing-Adds)
        (guarded-Adds floats trim_space (b'}' ∷ []) (put floats trim_space (b'}' ∷ []))
          (write-Adds floats trim_space (b'}' ∷ [])))

  write_block-Adds :
      (opts : WriteOptions) (children : Forest) (s : Bytes) (kids : Output Bytes → Output Bytes)
      → Adds s kids
      → Adds
          (if is_nil children then semicolon_text opts else (codes " {\n" ++ s) ++ close_text opts)
          (write_block floats keep trim_space opts children kids)
  unfolding write_block write_semicolon
  write_block-Adds opts children s kids h =
      let opened = put floats trim_space (codes " {\n") in
      if-Adds (is_nil children) (semicolon_text opts) ((codes " {\n" ++ s) ++ close_text opts)
        (write_semicolon floats keep trim_space opts)
        (λ o. write_close floats keep trim_space opts (guarded floats trim_space kids (opened o)))
        (if-Adds opts.add_semicolons (b';' ∷ []) [] (put floats trim_space (b';' ∷ [])) (λ o. o)
          (write-Adds floats trim_space (b';' ∷ [])) nothing-Adds)
        (then-Adds (codes " {\n" ++ s) (close_text opts)
          (λ o. guarded floats trim_space kids (opened o)) (write_close floats keep trim_space opts)
          (then-Adds (codes " {\n") s opened (guarded floats trim_space kids)
            (write-Adds floats trim_space (codes " {\n")) (guarded-Adds floats trim_space s kids h))
          (write_close-Adds opts))

  mutual
    unfolding write_tree tree_text

    write_tree-out :
        (opts : WriteOptions) (t : Tree) (w : Bytes)
        → write_tree floats keep trim_space opts t w ≡ record {
          sink = w ++ tree_text opts t;
          written = length (tree_text opts t);
          failed = false;
        }
    write_tree-out opts (tree name n before after children) w =
        let below = deeper floats keep trim_space opts in
        let kids = write_children floats keep trim_space below children in
        let head = write_head floats keep trim_space opts name n before children in
        let block =
          guarded floats trim_space (write_block floats keep trim_space opts children kids) in
        let behind = guarded floats trim_space (comment_after floats keep trim_space opts after) in
        then-Adds _ (comment_after_text floats trim_space opts after) (λ o. block (head o)) behind
          (then-Adds (head_text opts name n before children) _ head block
            (write_head-Adds opts name n before children)
            (write_block-Adds opts children (forest_text below children) kids
              (write_children-Adds below children)))
          (comment_after-Adds floats trim_space opts after) w 0
        ∙ out_eq _ _ _ _ refl (omega arith)

    write_children-Adds :
        (opts : WriteOptions) (ts : Forest)
        → Adds (forest_text opts ts) (write_children floats keep trim_space opts ts)
    write_children-Adds opts nil w n = nothing-Adds w n
    write_children-Adds opts (cons t ts) w n =
        ap
          (λ c.
            after_child floats keep trim_space (out w n) c
              (write_children floats keep trim_space opts ts (out c.sink (n + c.written))))
          (write_tree-out opts t w)
        ∙ write_children-Adds opts ts (w ++ tree_text opts t) (n + length (tree_text opts t))
        ∙ out_eq _ _ _ _ (append_assoc w (tree_text opts t) (forest_text opts ts))
            (omega (arith, length-append (tree_text opts t) (forest_text opts ts)))

  -- To a writer that takes all bytes, `WriteToOptions` writes the text of the node, with those of its
  -- children and its comments; it says how many bytes that is, and that there was no error.
  pub write_tree-text :
      (opts : WriteOptions) (t : Tree) (w : Bytes)
      → write_tree floats keep trim_space opts t w ≡ record {
        sink = w ++ tree_text opts t;
        written = length (tree_text opts t);
        failed = false;
      }
  write_tree-text opts t w = write_tree-out opts t w

  -- A node with only a name.
  abbrev pub leaf : Value → Tree
  leaf x = tree x new_node none none nil

  abbrev pub two_leaves : Value → Value → Value → Tree
  two_leaves x y z = tree x new_node none none (cons (leaf y) (cons (leaf z) nil))

  abbrev pub glued : Value → Value → Value → Bytes
  glued x y z =
      let text = name_bytes floats keep trim_space version_v1 in
      text x ++ (codes " {\n" ++ ((text y ++ text z) ++ b'}' ∷ []))

  tree_text-glued :
      (x y z : Value) → tree_text default_write_options (two_leaves x y z) ≡ glued x y z
  unfolding tree_text exist
  tree_text-glued x y z = simp (append-nil, append_assoc) refl

  -- With the options of `String` and `WriteTo`, two children that have only a name are written with
  -- nothing between their names.
  pub write_tree-glued :
      (x y z : Value) (w : Bytes)
      → (write_tree floats keep trim_space default_write_options (two_leaves x y z) w).sink
        ≡ w ++ glued x y z
  write_tree-glued x y z w =
      ap (λ o. o.sink) (write_tree-text default_write_options (two_leaves x y z) w)
      ∙ ap (◌++◌ w) (tree_text-glued x y z)
