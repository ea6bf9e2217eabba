-- ===== src/Tests/Writing.antt =====
-- document/node.go and internal/generator/generator.go: tests of the writer, and the theorems about it on
-- examples.
use gokdl.Base.{ℕ, ◌≡◌, Bool, true, false, [], ◌∷◌, ◌++◌, none, some, Bytes, codes, length}
use gokdl.Document.Node.{new_node}
use gokdl.Document.Number.{string_value}
use gokdl.Document.Value.{Value}
use gokdl.Document.Writer.{Output, write_tree, write_children}
use gokdl.Document.Writer.Buffer.{keep}
use gokdl.Document.Writer.Shape.{Tree, tree, nil, cons, default_write_options}
use gokdl.Document.Writer.Text.{tree_text, write_tree-text}
use gokdl.Generator.{GenerateOptions, marker_text, generate}
use gokdl.Generator.Text.{document_text, generate-text, detected-marker_text, write_children-failed}
use gokdl.Tests.Floats.{floats}
use gokdl.Tokenizer.Scanner.State.{new_slice}
use gokdl.Tokenizer.Scanner.Version.{detected}
use gokdl.Tokenizer.Token.{version_auto, version_v2}

-- Lines without space around them.
abbrev same : Bytes → Bytes
same s = s

abbrev named : Bytes → Value
named s = record { type_annot = []; value = string_value s; flag = 0; raw_hashes = 0 }

abbrev leaf : Tree
leaf = tree (named (codes "b")) new_node none none nil

abbrev parent : Tree
parent =
    tree (named (codes "a")) (record new_node { arguments = named (codes "x y") ∷ [] })
      (some (codes "// c")) none (cons leaf nil)

abbrev options : GenerateOptions
options = record {
  indent = codes "  ";
  ignore_flags = false;
  add_semicolons = false;
  add_equals = false;
  add_colons = false;
  version = version_auto;
  emit_version_marker = true;
}

write_tree-text_example :
    write_tree floats keep same default_write_options parent (codes "> ") ≡ record {
      sink = codes "> " ++ tree_text floats same default_write_options parent;
      written = length (tree_text floats same default_write_options parent);
      failed = false;
    }
write_tree-text_example = write_tree-text floats same default_write_options parent (codes "> ")

generate-text_example :
    generate floats keep same options (cons parent nil) []
    ≡ (document_text floats same options (cons parent nil), false)
generate-text_example = generate-text floats same options (cons parent nil) []

detected-marker_text_example :
    (detected (new_slice 0 version_auto (marker_text version_v2 ++ codes "a"))).version ≡ version_v2
detected-marker_text_example = detected-marker_text 0 version_v2 (codes "a")

-- A writer that fails at once.
abbrev fail : Bytes → Bytes → Bytes × (ℕ × Bool)
fail w b = (w, (0, true))

abbrev fresh : Output Bytes
fresh = record { sink = []; written = 0; failed = false }

write_children-failed_example :
    (write_children floats fail same default_write_options (cons leaf nil) fresh).failed ≡ false
write_children-failed_example =
    write_children-failed floats fail same default_write_options (cons leaf nil) fresh
