-- ===== src/Marshaler/Verify.antt =====
-- internal/marshaler: `verifyArgsPropsChildren`.
use gokdl.Base.{
  ℕ, Bool, not, ◌&&◌, ◌||◌, List, [], ◌∷◌, Option, none, some, Bytes, ◌==◌, ltb, length,
  if◌then◌else◌,
}
use gokdl.Document.Node.{Node}
use gokdl.Document.Properties.{get, len, exists}
use gokdl.Document.Value.{Value}
use gokdl.Marshaler.Tags.{has}

-- `UnmarshalOptions`, as far as it counts here.
pub record Allowed : Type 0 where
  pub unhandled_args : Bool
  pub unhandled_props : Bool

pub data VerifyError : Type 0 where
  wrong_arguments : ℕ → ℕ → VerifyError
  missing_properties unexpected_properties : List Bytes → VerifyError
  unexpected_children : VerifyError

-- The expected names that the node lacks.
unfoldable pub missing_props : Node → List Bytes → List Bytes
unfolding get
missing_props n [] = []
missing_props n (name ∷ names) =
    let rest = missing_props n names in if exists (get n.properties name) then rest else name ∷ rest

-- The names that are not expected.
unfoldable pub extra_props : List Bytes → List (Bytes × Value) → List Bytes
unfolding has
extra_props expected [] = []
extra_props expected ((name, v) ∷ props) =
    let rest = extra_props expected props in if has expected name then rest else name ∷ rest

abbrev verify_children : Node → Bool → Option VerifyError
verify_children n allow =
    if not allow && ltb 0 (length n.children) then some unexpected_children else none

-- `none` is no error. Where a property is expected and the node has none, all are missing.
unfoldable pub verify_args_props_children :
    Allowed → Node → ℕ → List Bytes → Bool → Option VerifyError
unfolding missing_props extra_props len
verify_args_props_children c n args [] allow =
    if ltb (length n.arguments) args || not c.unhandled_args && ltb args (length n.arguments)
    then some (wrong_arguments args (length n.arguments))
    else if not c.unhandled_props && ltb 0 (len n.properties)
    then some (unexpected_properties (extra_props [] n.properties.props))
    else verify_children n allow
verify_args_props_children c n args (p ∷ expected) allow =
    if ltb (length n.arguments) args || not c.unhandled_args && ltb args (length n.arguments)
    then some (wrong_arguments args (length n.arguments))
    else elim (if len n.properties == 0 then p ∷ expected else missing_props n (p ∷ expected)) [
      | m ∷ ms ↦ some (missing_properties (m ∷ ms))
      | [] ↦ elim (extra_props (p ∷ expected) n.properties.props) [
        | [] ↦ verify_children n allow
        | e ∷ es ↦
            if not c.unhandled_props && ltb 0 (len n.properties)
            then some (unexpected_properties (e ∷ es))
            else verify_children n allow
      ]
    ]
