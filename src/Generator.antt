-- ===== src/Generator.antt =====
-- internal/generator/generator.go and the end of kdl.go: the text of a document.
pub mod Text
use gokdl.Base.{ℕ, zero, suc, Bool, true, false, List, [], ◌∷◌, ◌++◌, Bytes, codes, if◌then◌else◌}
use gokdl.Document.Writer.{Output, write_tree}
use gokdl.Document.Writer.Shape.{WriteOptions, Tree, tree, Forest, nil, cons}
use gokdl.Go.Strconv.{FloatLib, format_uint}
use gokdl.Tokenizer.Token.{Version, version_auto, version_v1, version_v2}

-- `Options`.
pub record GenerateOptions : Type 0 where
  pub indent : Bytes
  pub ignore_flags : Bool
  pub add_semicolons : Bool
  pub add_equals : Bool
  pub add_colons : Bool
  pub version : Version
  pub emit_version_marker : Bool

abbrev pub set_version : Version → Version
set_version version_auto = version_v1
set_version version_v1 = version_v1
set_version version_v2 = version_v2

-- `NewOptions`.
abbrev pub new_options : GenerateOptions → GenerateOptions
new_options opts = record opts { version = set_version opts.version }

-- What `generateNodes` makes of the options; the depth of a generator is 0.
abbrev pub node_options : GenerateOptions → WriteOptions
node_options opts = record {
  leading_trailing_space = true;
  name_and_type = true;
  depth = 0;
  indent = opts.indent;
  ignore_flags = opts.ignore_flags;
  add_semicolons = opts.add_semicolons;
  add_equals = opts.add_equals;
  add_colons = opts.add_colons;
  version = opts.version;
}

abbrev version_number : Version → ℕ
version_number version_auto = 1
version_number version_v1 = 1
version_number version_v2 = 2

-- The marker of the version, as `Fprintf` writes it.
unfoldable pub marker_text : Version → Bytes
unfolding format_uint
marker_text v = codes "/- kdl-version " ++ (format_uint (version_number v) 10 ++ b'\n' ∷ [])

module _ (floats : FloatLib) {W : Type 0} (write_bytes : W → Bytes → W × (ℕ × Bool))
    (trim_space : Bytes → Bytes) where
  -- `generateNodes`, with whether there was an error.
  unfoldable pub generate_nodes : WriteOptions → Forest → W → W × Bool
  unfolding write_tree
  generate_nodes opts nil w = (w, false)
  generate_nodes opts (cons t ts) w =
      let node = write_tree floats write_bytes trim_space opts t w in
      let rest = generate_nodes opts ts node.sink in if node.failed then (node.sink, true) else rest

  -- `GenerateWithOptions`: `NewOptions` and `Generate`.
  unfoldable pub generate : GenerateOptions → Forest → W → W × Bool
  unfolding generate_nodes marker_text
  generate opts ts w =
      let set = new_options opts in
      let (marked, (n, e)) = write_bytes w (marker_text set.version) in
      if set.emit_version_marker
      then (if e then (marked, true) else generate_nodes (node_options set) ts marked)
      else generate_nodes (node_options set) ts w
