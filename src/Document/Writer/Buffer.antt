-- ===== src/Document/Writer/Buffer.antt =====
-- document/node.go: a writer that takes all bytes, such as a `strings.Builder`, has the text of the node
-- behind what it held, part by part.
use gokdl.Base.{
  ℕ, suc, ◌+◌, ◌≡◌, refl, sym, ap, ◌∙◌, Bool, true, false, not, ◌&&◌, ◌||◌, List, [], ◌∷◌, ◌++◌,
  append-nil, append_assoc, Option, none, some, Bytes, length, length-append, ltb, codes, arith,
  if◌then◌else◌,
}
use gokdl.Document.Node.{Node}
use gokdl.Document.Properties.{exist}
use gokdl.Document.Value.{Value}
use gokdl.Document.Writer.{
  Output, write, unless_failed, value_bytes, properties_bytes, write_before, write_after,
  comment_before, comment_after, name_bytes, write_name, write_sign, write_arguments,
  write_properties,
}
use gokdl.Document.Writer.Shape.{WriteOptions, Forest, is_nil, trim, lines, line_indent}
use gokdl.Go.Strconv.{FloatLib}

-- The writer keeps all bytes and does not fail.
abbrev pub keep : Bytes → Bytes → Bytes × (ℕ × Bool)
keep w b = (w ++ b, (length b, false))

abbrev pub out : Bytes → ℕ → Output Bytes
out w n = record { sink = w; written = n; failed = false }

-- What a part of the writer does to a buffer: the text, and its length.
abbrev pub Adds : Bytes → (Output Bytes → Output Bytes) → Type 0
Adds s f = (w : Bytes) (n : ℕ) → f (out w n) ≡ out (w ++ s) (n + length s)

pub out_eq : (w w' : Bytes) (n n' : ℕ) → w ≡ w' → n ≡ n' → out w n ≡ out w' n'
out_eq w w' n n' e f = ap (λ v. out v n) e ∙ ap (out w') f

pub nothing-Adds : Adds [] (λ o. o)
nothing-Adds w n = out_eq w _ n _ (sym (append-nil w)) (omega arith)

pub then-Adds :
    (s r : Bytes) (f g : Output Bytes → Output Bytes)
    → Adds s f
    → Adds r g
    → Adds (s ++ r) (λ o. g (f o))
then-Adds s r f g h k w n =
    ap g (h w n)
    ∙ k (w ++ s) (n + length s)
    ∙ out_eq _ _ _ _ (append_assoc w s r) (omega (arith, length-append s r))

pub if-Adds :
    (b : Bool) (s r : Bytes) (f g : Output Bytes → Output Bytes)
    → Adds s f
    → Adds r g
    → Adds (if b then s else r) (λ o. if b then f o else g o)
if-Adds true s r f g h k = h
if-Adds false s r f g h k = k

module _ (floats : FloatLib) (trim_space : Bytes → Bytes) where
  abbrev pub put : Bytes → Output Bytes → Output Bytes
  put b = write floats keep trim_space b

  pub write-Adds : (b : Bytes) → Adds b (put b)
  unfolding write
  write-Adds b w n = refl

  abbrev pub guarded : (Output Bytes → Output Bytes) → Output Bytes → Output Bytes
  guarded f o = unless_failed floats keep trim_space f o

  pub guarded-Adds : (s : Bytes) (f : Output Bytes → Output Bytes) → Adds s f → Adds s (guarded f)
  guarded-Adds s f h = h

  -- The text of the lines of a comment.
  abbrev before_text : Bytes → List Bytes → ℕ → Bytes
  before_text indent [] n = []
  before_text indent (l ∷ ls) n =
      let text = ((indent ++ trim_space l) ++ b'\n' ∷ []) ++ before_text indent ls 0 in
      let blank = (if ltb (suc n) 2 then b'\n' ∷ [] else []) ++ before_text indent ls (suc n) in
      if ltb 0 (length (trim_space l)) then text else blank

  abbrev after_text : Bytes → List Bytes → Bytes
  after_text indent [] = []
  after_text indent (l ∷ ls) = ((indent ++ trim_space l) ++ b'\n' ∷ []) ++ after_text indent ls

  abbrev put_line : Bytes → Bytes → Output Bytes → Output Bytes
  put_line indent l o = put (b'\n' ∷ []) (put (trim_space l) (put indent o))

  line-Adds : (indent l : Bytes) → Adds ((indent ++ trim_space l) ++ b'\n' ∷ []) (put_line indent l)
  line-Adds indent l =
      then-Adds (indent ++ trim_space l) (b'\n' ∷ []) (λ o. put (trim_space l) (put indent o))
        (put (b'\n' ∷ []))
        (then-Adds indent (trim_space l) (put indent) (put (trim_space l)) (write-Adds indent)
          (write-Adds (trim_space l)))
        (write-Adds (b'\n' ∷ []))

  write_before-Adds :
      (indent : Bytes) (ls : List Bytes) (n : ℕ)
      → Adds (before_text indent ls n) (write_before floats keep trim_space indent ls n)
  unfolding write_before
  write_before-Adds indent [] n = nothing-Adds
  write_before-Adds indent (l ∷ ls) n =
      let later = λ (m : ℕ). write_before floats keep trim_space indent ls m in
      let blank : Output Bytes → Output Bytes =
        λ o. if ltb (suc n) 2 then put (b'\n' ∷ []) o else o in
      if-Adds (ltb 0 (length (trim_space l))) _ _ (λ o. later 0 (put_line indent l o))
        (λ o. later (suc n) (blank o))
        (then-Adds _ _ (put_line indent l) (later 0) (line-Adds indent l)
          (write_before-Adds indent ls 0))
        (then-Adds (if ltb (suc n) 2 then b'\n' ∷ [] else []) _ blank (later (suc n))
          (if-Adds (ltb (suc n) 2) (b'\n' ∷ []) [] (put (b'\n' ∷ [])) (λ o. o)
            (write-Adds (b'\n' ∷ [])) nothing-Adds)
          (write_before-Adds indent ls (suc n)))

  write_after-Adds :
      (indent : Bytes) (ls : List Bytes)
      → Adds (after_text indent ls) (write_after floats keep trim_space indent ls)
  unfolding write_after
  write_after-Adds indent [] = nothing-Adds
  write_after-Adds indent (l ∷ ls) =
      then-Adds _ _ (put_line indent l) (write_after floats keep trim_space indent ls)
        (line-Adds indent l) (write_after-Adds indent ls)

  -- The parts of a node, as text.
  abbrev pub comment_before_text : WriteOptions → Option Bytes → Bytes
  comment_before_text opts none = []
  comment_before_text opts (some c) = before_text (line_indent opts) (lines (trim c)) 0

  abbrev pub comment_after_text : WriteOptions → Option Bytes → Bytes
  comment_after_text opts none = if opts.leading_trailing_space then b'\n' ∷ [] else []
  comment_after_text opts (some c) = after_text (line_indent opts) (lines (trim c))

  abbrev pub name_text : WriteOptions → Value → Bytes → Bytes
  name_text opts name annotation =
      let typed = (b'(' ∷ [] ++ annotation) ++ b')' ∷ [] in
      if opts.name_and_type
      then (if ltb 0 (length annotation) then typed else [])
        ++ name_bytes floats keep trim_space opts.version name
      else []

  abbrev pub sign_text : WriteOptions → Node → Forest → Bytes
  sign_text opts n children =
      let plain = ltb 0 (length n.arguments) && not (exist n.properties) && is_nil children in
      if opts.add_equals && plain
      then codes " ="
      else if opts.add_colons && plain
      then codes ":"
      else []

  abbrev pub arguments_text : WriteOptions → Bool → List Value → Bytes
  arguments_text opts later [] = []
  arguments_text opts later (x ∷ xs) =
      ((if opts.name_and_type || later then b' ' ∷ [] else [])
        ++ value_bytes floats keep trim_space opts.ignore_flags opts.version x)
      ++ arguments_text opts true xs

  abbrev pub properties_text : WriteOptions → Node → Bytes
  properties_text opts n =
      if exist n.properties
      then properties_bytes floats keep trim_space opts.ignore_flags opts.version []
          n.properties.order n.properties.props
      else []

  pub comment_before-Adds :
      (opts : WriteOptions) (c : Option Bytes)
      → Adds (comment_before_text opts c) (comment_before floats keep trim_space opts c)
  unfolding comment_before
  comment_before-Adds opts none = nothing-Adds
  comment_before-Adds opts (some c) = write_before-Adds (line_indent opts) (lines (trim c)) 0

  pub comment_after-Adds :
      (opts : WriteOptions) (c : Option Bytes)
      → Adds (comment_after_text opts c) (comment_after floats keep trim_space opts c)
  unfolding comment_after
  comment_after-Adds opts none =
      if-Adds opts.leading_trailing_space _ _ (put (b'\n' ∷ [])) (λ o. o) (write-Adds (b'\n' ∷ []))
        nothing-Adds
  comment_after-Adds opts (some c) = write_after-Adds (line_indent opts) (lines (trim c))

  pub write_name-Adds :
      (opts : WriteOptions) (name : Value) (annotation : Bytes)
      → Adds
          (name_text opts name annotation)
          (write_name floats keep trim_space opts name annotation)
  unfolding write_name
  write_name-Adds opts name annotation =
      let typed : Output Bytes → Output Bytes =
        λ o. put (b')' ∷ []) (put annotation (put (b'(' ∷ []) o)) in
      let annotated : Output Bytes → Output Bytes =
        λ o. if ltb 0 (length annotation) then typed o else o in
      let named = name_bytes floats keep trim_space opts.version name in
      if-Adds opts.name_and_type _ [] (λ o. guarded (put named) (annotated o)) (λ o. o)
        (then-Adds
          (if ltb 0 (length annotation) then (b'(' ∷ [] ++ annotation) ++ b')' ∷ [] else []) named
          annotated (guarded (put named))
          (if-Adds (ltb 0 (length annotation)) ((b'(' ∷ [] ++ annotation) ++ b')' ∷ []) [] typed
            (λ o. o)
            (then-Adds (b'(' ∷ [] ++ annotation) (b')' ∷ [])
              (λ o. put annotation (put (b'(' ∷ []) o)) (put (b')' ∷ []))
              (then-Adds (b'(' ∷ []) annotation (put (b'(' ∷ [])) (put annotation)
                (write-Adds (b'(' ∷ [])) (write-Adds annotation))
              (write-Adds (b')' ∷ [])))
            nothing-Adds)
          (guarded-Adds named (put named) (write-Adds named)))
        nothing-Adds

  pub write_sign-Adds :
      (opts : WriteOptions) (n : Node) (children : Forest)
      → Adds (sign_text opts n children) (write_sign floats keep trim_space opts n children)
  unfolding write_sign
  write_sign-Adds opts n children =
      let plain = ltb 0 (length n.arguments) && not (exist n.properties) && is_nil children in
      if-Adds (opts.add_equals && plain) _ _ (put (codes " ="))
        (λ o. if opts.add_colons && plain then put (codes ":") o else o) (write-Adds (codes " ="))
        (if-Adds (opts.add_colons && plain) _ _ (put (codes ":")) (λ o. o) (write-Adds (codes ":"))
          nothing-Adds)

  pub write_arguments-Adds :
      (opts : WriteOptions) (later : Bool) (xs : List Value)
      → Adds (arguments_text opts later xs) (write_arguments floats keep trim_space opts later xs)
  unfolding write_arguments
  write_arguments-Adds opts later [] = nothing-Adds
  write_arguments-Adds opts later (x ∷ xs) =
      let text = value_bytes floats keep trim_space opts.ignore_flags opts.version x in
      let spaced : Output Bytes → Output Bytes =
        λ o. if opts.name_and_type || later then guarded (put (b' ' ∷ [])) o else o in
      then-Adds _ (arguments_text opts true xs) (λ o. guarded (put text) (spaced o))
        (write_arguments floats keep trim_space opts true xs)
        (then-Adds (if opts.name_and_type || later then b' ' ∷ [] else []) text spaced
          (guarded (put text))
          (if-Adds (opts.name_and_type || later) (b' ' ∷ []) [] (guarded (put (b' ' ∷ []))) (λ o. o)
            (guarded-Adds (b' ' ∷ []) (put (b' ' ∷ [])) (write-Adds (b' ' ∷ []))) nothing-Adds)
          (guarded-Adds text (put text) (write-Adds text)))
        (write_arguments-Adds opts true xs)

  pub write_properties-Adds :
      (opts : WriteOptions) (n : Node)
      → Adds (properties_text opts n) (write_properties floats keep trim_space opts n)
  unfolding write_properties
  write_properties-Adds opts n =
      let text =
        properties_bytes floats keep trim_space opts.ignore_flags opts.version [] n.properties.order
          n.properties.props in
      if-Adds (exist n.properties) text [] (guarded (put text)) (λ o. o)
        (guarded-Adds text (put text) (write-Adds text)) nothing-Adds
