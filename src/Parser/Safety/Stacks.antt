-- ===== src/Parser/Safety/Stacks.antt =====
-- internal/parser/context.go: which states nest in which, and what the two stacks have in common.
use gokdl.Base.{
  ℕ, ◌+◌, ◌<◌, ◌≡◌, refl, ◌≢◌, ◌⊎◌, Bool, true, false, List, [], ◌∷◌, Option, none, some, length,
  if◌then◌else◌, arith,
}
use gokdl.Document.Node.{Node}
use gokdl.Document.Value.{
  ValueResult, value_ok, value_error, bad_text, bad_quoted, bad_number, bad_suffix, bad_raw_string,
  unknown_keyword, lacks_fuel, out_of_range, value_from_token,
}
use gokdl.Document.Value.Totality.{Decides, value_from_token-Decides}
use gokdl.Go.Strconv.{FloatLib}
use gokdl.Parser.Context.{
  ParseContext, Outcome, ok, reenter, fail, panic, ◌>>=◌, on_current_node, pop_state,
  pop_node_and_state, Options, new_context,
}
use gokdl.Parser.State.{
  ParserState, ParseError, value_failed, node_stack_empty, state_stack_empty, unexpected_error,
  expected_value_error, ignored_block_error,
}
use gokdl.Tokenizer.Token.{TokenId, Token}

-- The states of a node that is being read.
abbrev pub in_node : ParserState → Bool
in_node ParserState.document = false
in_node ParserState.children = false
in_node ParserState.type_annot = false
in_node ParserState.type_done = false
in_node _ = true

-- The states that a node may stand in.
abbrev pub is_outer : ParserState → Bool
is_outer ParserState.document = true
is_outer ParserState.children = true
is_outer _ = false

-- The states that a child block may begin in.
abbrev pub opens_block : ParserState → Bool
opens_block ParserState.node = true
opens_block ParserState.node_params = true
opens_block ParserState.arg_prop = true
opens_block _ = false

-- The states that a type annotation may begin in.
abbrev pub takes_type : ParserState → Bool
takes_type ParserState.document = true
takes_type ParserState.children = true
takes_type ParserState.node_params = true
takes_type ParserState.property_value = true
takes_type _ = false

-- May the first state stand on the second?
abbrev pub nests : ParserState → ParserState → Bool
nests ParserState.document below = false
nests ParserState.children below = opens_block below
nests ParserState.type_annot below = takes_type below
nests ParserState.type_done below = takes_type below
nests _ below = is_outer below

abbrev pub WellStacked : ParserState → List ParserState → Type 0
WellStacked s [] = s ≡ ParserState.document
WellStacked s (b ∷ bs) = (nests s b ≡ true) × WellStacked b bs

abbrev pub pending_nodes : List ParserState → ℕ
pending_nodes [] = 0
pending_nodes (b ∷ bs) = (if in_node b then 1 else 0) + pending_nodes bs

-- How many nodes are being read.
abbrev pub node_depth : ParserState → List ParserState → ℕ
node_depth s bs = (if in_node s then 1 else 0) + pending_nodes bs

abbrev pub is_some {ℓ} : {A : Type ℓ} → Option A → Bool
is_some none = false
is_some (some _) = true

-- The state stack is a nesting of states, the node stack has a node for each of its node states, and
-- once a node was read there is a last one.
pub record Inv (c : ParseContext) : Type 0 where
  pub stacked : WellStacked c.state c.states
  pub depth : length c.node ≡ node_depth c.state c.states
  pub last_added : (length c.node ≡ 0) ⊎ (is_some c.last_added_node ≡ true)

-- An error of an empty stack, or a value whose reading ran out of the model's fuel.
abbrev pub is_internal_error : ParseError → Bool
is_internal_error node_stack_empty = true
is_internal_error state_stack_empty = true
is_internal_error (value_failed lacks_fuel) = true
is_internal_error _ = false

-- The invariant holds of what an outcome leaves, no stack was found empty, and a token is given again
-- to a state outside a node only.
abbrev pub Safe : Outcome → Type 0
Safe (ok c) = Inv c
Safe (reenter c) = Inv c × (is_outer c.state ≡ true)
Safe (fail e) = is_internal_error e ≡ false
Safe panic = ⊥

-- What a step that is followed by others leaves.
abbrev pub Yields : (ParseContext → Type 0) → Outcome → Type 0
Yields P (ok c) = P c
Yields P (reenter c) = ⊥
Yields P (fail e) = is_internal_error e ≡ false
Yields P panic = ⊥

abbrev pub At : ParserState → ParseContext → Type 0
At s c = (c.state ≡ s) × Inv c

pub >>=-Safe :
    (P : ParseContext → Type 0) (m : Outcome) (f : ParseContext → Outcome)
    → Yields P m
    → ((c : ParseContext) → P c → Safe (f c))
    → Safe (m >>= f)
>>=-Safe P (ok c) f y h = h c y
>>=-Safe P (reenter c) f y h = absurd y
>>=-Safe P (fail e) f y h = y
>>=-Safe P panic f y h = y

pub if-Safe :
    (b : Bool) (m n : Outcome)
    → (b ≡ true → Safe m)
    → (b ≡ false → Safe n)
    → Safe (if b then m else n)
if-Safe true m n h k = h refl
if-Safe false m n h k = k refl

-- A child block stands in a node.
pub pending_in_children :
    (bs : List ParserState) → WellStacked ParserState.children bs → 0 < pending_nodes bs
pending_in_children [] w = ground arith
pending_in_children (b ∷ bs) w = ground arith

-- A state may give way to another that stands where it stood.
pub WellStacked-in_node :
    (s s' : ParserState) (bs : List ParserState)
    → WellStacked s bs
    → in_node s ≡ true
    → in_node s' ≡ true
    → WellStacked s' bs
WellStacked-in_node s s' [] w h h' = ground arith
WellStacked-in_node s s' (b ∷ bs) w h h' = (ground arith, w.1)

pub WellStacked-type_done :
    (bs : List ParserState)
    → WellStacked ParserState.type_annot bs
    → WellStacked ParserState.type_done bs
WellStacked-type_done [] w = ground arith
WellStacked-type_done (b ∷ bs) w = w

pub new_context-Inv : (o : Options) → Inv (new_context o)
new_context-Inv o = ground arith

pub pop_node_and_state-Safe :
    (c : ParseContext) → Inv c → in_node c.state ≡ true → Safe (pop_node_and_state c)
unfolding pop_node_and_state
pop_node_and_state-Safe c v s = ground arith

pub pop_state-Safe :
    (c : ParseContext)
    → Inv c
    → in_node c.state ≡ false
    → c.state ≢ ParserState.document
    → Safe (pop_state c)
unfolding pop_state
pop_state-Safe c v s d = ground arith

pub on_current_node-Safe :
    (f : Node → Node) (c : ParseContext) → Inv c → length c.node ≢ 0 → Safe (on_current_node f c)
on_current_node-Safe f c v n = ground arith

abbrev pub lacks_value : ValueResult → Bool
lacks_value (value_ok v) = false
lacks_value (value_error e) = is_internal_error (value_failed e)

lacks_value-Decides : (r : ValueResult) → Decides r → lacks_value r ≡ false
lacks_value-Decides (value_ok v) d = refl
lacks_value-Decides (value_error lacks_fuel) d = absurd d
lacks_value-Decides (value_error (bad_text x)) d = refl
lacks_value-Decides (value_error bad_quoted) d = refl
lacks_value-Decides (value_error bad_number) d = refl
lacks_value-Decides (value_error bad_suffix) d = refl
lacks_value-Decides (value_error bad_raw_string) d = refl
lacks_value-Decides (value_error unknown_keyword) d = refl
lacks_value-Decides (value_error out_of_range) d = refl

-- No token makes the reading of its value run out of fuel.
pub value_from_token-reads :
    (floats : FloatLib) (t : Token) → lacks_value (value_from_token floats t) ≡ false
value_from_token-reads floats t = lacks_value-Decides _ (value_from_token-Decides floats t).0

pub unexpected_error-safe :
    (s : ParserState) (typed : Bool) (id : TokenId)
    → is_internal_error (unexpected_error s typed id) ≡ false
unfolding unexpected_error
unexpected_error-safe s typed TokenId.eof = refl
unexpected_error-safe s typed _ = refl

pub expected_value_error-safe : (id : TokenId) → is_internal_error (expected_value_error id) ≡ false
unfolding expected_value_error
expected_value_error-safe TokenId.eof = refl
expected_value_error-safe _ = refl

pub ignored_block_error-safe : (id : TokenId) → is_internal_error (ignored_block_error id) ≡ false
unfolding ignored_block_error
ignored_block_error-safe TokenId.eof = refl
ignored_block_error-safe _ = refl
