-- ===== src/Generator/Text.antt =====
-- internal/generator/generator.go with internal/tokenizer/scanner.go: what is generated, and that the
-- scanner knows its version; document/node.go: the error of a child.
use gokdl.Base.{
  ℕ, ◌+◌, ◌≡◌, refl, sym, ap, ◌∙◌, Bool, true, false, [], ◌++◌, append-nil, append_assoc, Bytes,
  if◌then◌else◌,
}
use gokdl.Document.Writer.{Output, write_tree, write_children}
use gokdl.Document.Writer.Shape.{WriteOptions, Forest, nil, cons}
use gokdl.Document.Writer.Buffer.{keep}
use gokdl.Document.Writer.Text.{tree_text, forest_text, write_tree-text}
use gokdl.Generator.{
  GenerateOptions, new_options, node_options, marker_text, generate_nodes, generate, set_version,
}
use gokdl.Go.Strconv.{FloatLib}
use gokdl.Tokenizer.Scanner.State.{new_slice}
use gokdl.Tokenizer.Scanner.Version.{
  detected, detect_version, detect_from, behind_bom, marked_version,
}
use gokdl.Tokenizer.Token.{Version, version_auto, version_v1, version_v2}

module _ (floats : FloatLib) (trim_space : Bytes → Bytes) where
  generate_nodes-text :
      (opts : WriteOptions) (ts : Forest) (w : Bytes)
      → generate_nodes floats keep trim_space opts ts w
        ≡ (w ++ forest_text floats trim_space opts ts, false)
  unfolding generate_nodes forest_text
  generate_nodes-text opts nil w = ap (λ b. (b, false)) (sym (append-nil w))
  generate_nodes-text opts (cons t ts) w =
      ap
        (λ o.
          if o.failed then (o.sink, true) else generate_nodes floats keep trim_space opts ts o.sink)
        (write_tree-text floats trim_space opts t w)
      ∙ generate_nodes-text opts ts (w ++ tree_text floats trim_space opts t)
      ∙ ap (λ b. (b, false))
          (append_assoc w (tree_text floats trim_space opts t)
            (forest_text floats trim_space opts ts))

  abbrev pub document_text : GenerateOptions → Forest → Bytes
  document_text opts ts =
      (if opts.emit_version_marker then marker_text (set_version opts.version) else [])
      ++ forest_text floats trim_space (node_options (new_options opts)) ts

  marked :
      (b : Bool) (opts : WriteOptions) (m : Bytes) (ts : Forest) (w : Bytes)
      → (if b
          then generate_nodes floats keep trim_space opts ts (w ++ m)
          else generate_nodes floats keep trim_space opts ts w)
        ≡ (w ++ ((if b then m else []) ++ forest_text floats trim_space opts ts), false)
  marked true opts m ts w =
      generate_nodes-text opts ts (w ++ m)
      ∙ ap (λ b. (b, false)) (append_assoc w m (forest_text floats trim_space opts ts))
  marked false opts m ts w = generate_nodes-text opts ts w

  -- To a writer that takes all bytes, a document is generated without an error: the marker of its version,
  -- where that is wanted, and the texts of its nodes, one behind the other.
  pub generate-text :
      (opts : GenerateOptions) (ts : Forest) (w : Bytes)
      → generate floats keep trim_space opts ts w ≡ (w ++ document_text opts ts, false)
  unfolding generate
  generate-text opts ts w =
      marked opts.emit_version_marker (node_options (new_options opts))
        (marker_text (set_version opts.version)) ts w

-- The scanner reads the version from the marker that the generator writes, whatever follows it.
pub detected-marker_text :
    (relaxed : ℕ) (v : Version) (rest : Bytes)
    → (detected (new_slice relaxed version_auto (marker_text (set_version v) ++ rest))).version
      ≡ set_version v
unfolding detected detect_version detect_from behind_bom marked_version new_slice marker_text
detected-marker_text relaxed version_auto rest = refl
detected-marker_text relaxed version_v1 rest = refl
detected-marker_text relaxed version_v2 rest = refl

if-failed :
    {W : Type 0} (b e : Bool) (p q : Output W)
    → p.failed ≡ e
    → q.failed ≡ e
    → (if b then p else q).failed ≡ e
if-failed true e p q h k = h
if-failed false e p q h k = k

-- A node never reports the error of a child: behind the loop over the children, `err` is what it was.
pub write_children-failed :
    (floats : FloatLib) {W : Type 0} (write_bytes : W → Bytes → W × (ℕ × Bool))
    (trim_space : Bytes → Bytes) (opts : WriteOptions) (ts : Forest) (o : Output W)
    → (write_children floats write_bytes trim_space opts ts o).failed ≡ o.failed
unfolding write_children
write_children-failed floats write_bytes trim_space opts nil o = refl
write_children-failed floats write_bytes trim_space opts (cons t ts) o =
    let child = write_tree floats write_bytes trim_space opts t o.sink in
    if-failed child.failed o.failed (record o { sink = child.sink }) _ refl
      (write_children-failed floats write_bytes trim_space opts ts
        (record o { sink = child.sink; written = o.written + child.written }))
