-- ===== src/Marshaler/Structure/Comments.antt =====
-- internal/marshaler/typeindex.go: a comment that is kept is found again.
use gokdl.Base.{
  ◌≡◌, refl, ap, ◌∙◌, Bool, true, false, Option, none, some, Bytes, bytes_eq, inl, inr, Bool-cases,
  if◌then◌else◌,
}
use gokdl.Document.Node.{Node, Comment}
use gokdl.Document.Properties.{lookup}
use gokdl.Document.Properties.Order.{lookup-insert}
use gokdl.Go.Strconv.{FloatLib}
use gokdl.Marshaler.Structure.{Structure, with_comment, set_comment, get_comment, get_key}

-- The comment, where there is one and the keys are the same; otherwise what was there.
abbrev pub or_before : Option Comment → Bool → Option Comment → Option Comment
or_before (some c) true old = some c
or_before (some c) false old = old
or_before none same old = old

found :
    (o : Option Comment) (k j : Bytes) (s : Structure)
    → lookup j (with_comment k o s).comments ≡ or_before o (bytes_eq k j) (lookup j s.comments)
found none k j s = refl
found (some c) k j s = elim (Bool-cases (bytes_eq k j)) [
  | inl e ↦
      rw e (lookup-insert k j c s.comments ∙ ap (λ b. if b then some c else lookup j s.comments) e)
  | inr e ↦
      rw e (lookup-insert k j c s.comments ∙ ap (λ b. if b then some c else lookup j s.comments) e)
]

-- A comment that a node brought is found under its key. Under every other key, and where the node has no
-- comment, what was there before is found.
pub get_comment-set_comment :
    (floats : FloatLib) (name other : Bytes) (n m : Node) (s : Structure)
    → get_comment floats other m (set_comment floats name n s)
      ≡ or_before n.comment
          (bytes_eq (get_key floats name n) (get_key floats other m))
          (get_comment floats other m s)
unfolding get_comment set_comment
get_comment-set_comment floats name other n m s =
    found n.comment (get_key floats name n) (get_key floats other m) s
