-- ===== src/Document/Writer.antt =====
-- document/node.go: `WriteToOptions`, the text of a node with its children; document/properties.go: the
-- text of the properties; internal/generator/generator.go: the text of a document. The `io.Writer` and
-- `bytes.TrimSpace` are parameters.
pub mod Shape
pub mod Buffer
pub mod Text
use gokdl.Base.{
  ℕ, zero, suc, ◌+◌, ◌-◌, Bool, true, false, not, ◌&&◌, ◌||◌, List, [], ◌∷◌, ◌++◌, Option, none,
  some, Bytes, ◌==◌, ltb, length, one_of, codes, if◌then◌else◌,
}
use gokdl.Document.Flag
use gokdl.Document.Node.{Node}
use gokdl.Document.Properties.{Properties, lookup, exist, len}
use gokdl.Document.Quote.{append_quoted_string}
use gokdl.Document.Render.{
  formatted_string, formatted_string_v2, unformatted_string, node_name_string, node_name_string_v2,
  value_text, value_string,
}
use gokdl.Document.Value.{Value}
use gokdl.Document.Writer.Shape.{
  WriteOptions, default_write_options, Tree, tree, Forest, nil, cons, is_nil, repeat, trim, lines,
  line_indent,
}
use gokdl.Go.Strconv.{FloatLib}
use gokdl.Go.Strings.{runes}
use gokdl.Tokenizer.CType.{is_bare_identifier_version}
use gokdl.Tokenizer.Token.{Version, version_auto, version_v1, version_v2, is_v2}

-- The writer's state, the number of bytes written, and whether `err` is not nil.
pub record Output (W : Type 0) : Type 0 where
  pub sink : W
  pub written : ℕ
  pub failed : Bool

module _ (floats : FloatLib) {W : Type 0} (write_bytes : W → Bytes → W × (ℕ × Bool))
    (trim_space : Bytes → Bytes) where
  -- The closure `write`: an error that is followed by a success is forgotten.
  unfoldable pub write : Bytes → Output W → Output W
  write b o =
      let (w, (n, e)) = write_bytes o.sink b in
      record { sink = w; written = o.written + n; failed = e }

  abbrev pub unless_failed : (Output W → Output W) → Output W → Output W
  unless_failed f o = let next = f o in if o.failed then o else next

  -- `UnformattedStringV2`.
  abbrev pub unformatted_string_v2 : Value → Bytes
  unformatted_string_v2 v = value_text floats v Flag.simple_string version_v2

  -- The text of a value in the version, with or without its flags.
  unfoldable pub value_bytes : Bool → Version → Value → Bytes
  value_bytes ignore_flags v x =
      if is_v2 v
      then (if ignore_flags then unformatted_string_v2 x else formatted_string_v2 floats x)
      else if ignore_flags
      then unformatted_string floats x
      else formatted_string floats x

  abbrev pub of_key : Bool → Version → Option Value → Bytes
  of_key ignore_flags v none = []
  of_key ignore_flags v (some x) = value_bytes ignore_flags v x

  -- `Properties.string`: each name of the order, with the value in the map. The order holds the names of
  -- the map only.
  unfoldable pub properties_bytes :
      Bool → Version → Bytes → List Bytes → List (Bytes × Value) → Bytes
  unfolding value_bytes append_quoted_string is_bare_identifier_version lookup
  properties_bytes ignore_flags v b [] props = b
  properties_bytes ignore_flags v b (k ∷ ks) props =
      let named =
        if ltb 0 (length k) && is_bare_identifier_version (runes k) 0 v
        then (b ++ b' ' ∷ []) ++ k
        else append_quoted_string (b ++ b' ' ∷ []) k b'"' in
      properties_bytes ignore_flags v
        ((named ++ b'=' ∷ []) ++ of_key ignore_flags v (lookup k props)) ks props

  -- The lines of the comment before the node; `n` is `newlineCount`.
  unfoldable pub write_before : Bytes → List Bytes → ℕ → Output W → Output W
  unfolding write
  write_before indent [] n o = o
  write_before indent (l ∷ ls) n o =
      let line = trim_space l in
      let text = write_before indent ls 0 (write (b'\n' ∷ []) (write line (write indent o))) in
      let blank =
        write_before indent ls (suc n) (if ltb (suc n) 2 then write (b'\n' ∷ []) o else o) in
      if ltb 0 (length line) then text else blank

  -- The lines of the comment after it.
  unfoldable pub write_after : Bytes → List Bytes → Output W → Output W
  unfolding write
  write_after indent [] o = o
  write_after indent (l ∷ ls) o =
      write_after indent ls (write (b'\n' ∷ []) (write (trim_space l) (write indent o)))

  unfoldable pub comment_before : WriteOptions → Option Bytes → Output W → Output W
  unfolding write_before trim lines
  comment_before opts none o = o
  comment_before opts (some c) o = write_before (line_indent opts) (lines (trim c)) 0 o

  unfoldable pub comment_after : WriteOptions → Option Bytes → Output W → Output W
  unfolding write_after trim lines write
  comment_after opts none o = if opts.leading_trailing_space then write (b'\n' ∷ []) o else o
  comment_after opts (some c) o = write_after (line_indent opts) (lines (trim c)) o

  abbrev pub name_bytes : Version → Value → Bytes
  name_bytes v x = if is_v2 v then node_name_string_v2 floats x else node_name_string floats x

  -- The type annotation and the name.
  unfoldable pub write_name : WriteOptions → Value → Bytes → Output W → Output W
  unfolding write
  write_name opts name annotation o =
      let typed =
        unless_failed (write (b')' ∷ []))
          (unless_failed (write annotation) (unless_failed (write (b'(' ∷ [])) o)) in
      let annotated = if ltb 0 (length annotation) then typed else o in
      let named = unless_failed (write (name_bytes opts.version name)) annotated in
      if opts.name_and_type then named else o

  -- The sign between the name and the arguments.
  unfoldable pub write_sign : WriteOptions → Node → Forest → Output W → Output W
  unfolding write exist
  write_sign opts n children o =
      let plain = ltb 0 (length n.arguments) && not (exist n.properties) && is_nil children in
      if opts.add_equals && plain
      then write (codes " =") o
      else if opts.add_colons && plain
      then write (codes ":") o
      else o

  -- The loop over the arguments; the flag is `i > 0`.
  unfoldable pub write_arguments : WriteOptions → Bool → List Value → Output W → Output W
  unfolding write value_bytes
  write_arguments opts later [] o = o
  write_arguments opts later (x ∷ xs) o =
      let spaced = if opts.name_and_type || later then unless_failed (write (b' ' ∷ [])) o else o in
      write_arguments opts true xs
        (unless_failed (write (value_bytes opts.ignore_flags opts.version x)) spaced)

  unfoldable pub write_properties : WriteOptions → Node → Output W → Output W
  unfolding write properties_bytes exist
  write_properties opts n o =
      let all =
        properties_bytes opts.ignore_flags opts.version [] n.properties.order n.properties.props in
      if exist n.properties then unless_failed (write all) o else o

  unfoldable pub write_semicolon : WriteOptions → Output W → Output W
  unfolding write
  write_semicolon opts o = if opts.add_semicolons then write (b';' ∷ []) o else o

  -- The closing brace, at the depth of the node.
  unfoldable pub write_close : WriteOptions → Output W → Output W
  unfolding write
  write_close opts o =
      let indented =
        if ltb 0 opts.depth then unless_failed (write (repeat opts.indent opts.depth)) o else o in
      unless_failed (write (b'}' ∷ [])) indented

  -- The node up to its children.
  unfoldable pub write_head :
      WriteOptions → Value → Node → Option Bytes → Forest → Output W → Output W
  unfolding comment_before write write_name write_sign write_arguments write_properties
  write_head opts name n before children o =
      let commented = comment_before opts before o in
      let indented =
        if ltb 0 opts.depth && opts.leading_trailing_space
        then write (line_indent opts) commented
        else commented in
      write_properties opts n (
        write_arguments opts false n.arguments
          (write_sign opts n children (write_name opts name n.type_annot indented)))

  -- A child starts with no error and no bytes; its error ends the loop, and is dropped.
  abbrev pub after_child : Output W → Output W → Output W → Output W
  after_child o child rest = if child.failed then record o { sink = child.sink } else rest

  -- The braces with the children, or a semicolon.
  unfoldable pub write_block : WriteOptions → Forest → (Output W → Output W) → Output W → Output W
  unfolding write_semicolon write_close write
  write_block opts children write_all o =
      if is_nil children
      then write_semicolon opts o
      else write_close opts (unless_failed write_all (write (codes " {\n") o))

  abbrev pub deeper : WriteOptions → WriteOptions
  deeper opts = record opts { depth = suc opts.depth }

  unfoldable mutual
    unfolding write_head write_block comment_after

    -- `WriteToOptions`.
    pub write_tree : WriteOptions → Tree → W → Output W
    write_tree opts (tree name n before after children) w =
        let head =
          write_head opts name n before children
            (record { sink = w; written = 0; failed = false }) in
        let body =
          unless_failed (write_block opts children (write_children (deeper opts) children)) head in
        unless_failed (comment_after opts after) body

    -- The loop over the children.
    pub write_children : WriteOptions → Forest → Output W → Output W
    write_children opts nil o = o
    write_children opts (cons t ts) o =
        let child = write_tree opts t o.sink in
        let rest =
          write_children opts ts
            (record o { sink = child.sink; written = o.written + child.written }) in
        after_child o child rest

  -- `WriteTo` and `WriteValueTo`.
  unfoldable pub write_to : Tree → W → Output W
  unfolding write_tree
  write_to t w = write_tree default_write_options t w

  unfoldable pub write_value_to : Tree → W → Output W
  unfolding write_tree
  write_value_to t w = write_tree (record default_write_options { name_and_type = false }) t w

  -- The options of `WriteTextValueTo`, whose version is the zero one.
  abbrev pub text_options : WriteOptions
  text_options = record default_write_options {
    name_and_type = false;
    indent = [];
    version = version_auto;
  }

  abbrev only : Forest → Properties Value → List Value → Option Value
  only children p (x ∷ []) = if len p == 0 && is_nil children then some x else none
  only children p _ = none

  -- `WriteTextValueTo`: the text of the only argument, or what `WriteToOptions` writes.
  unfoldable pub write_text_value_to : Tree → W → Output W
  unfolding write_tree write value_string len
  write_text_value_to (tree name n before after children) w =
      elim (only children n.properties n.arguments) [
        | some x ↦ write (value_string floats x) (record { sink = w; written = 0; failed = false })
        | none ↦ write_tree text_options (tree name n before after children) w
      ]
