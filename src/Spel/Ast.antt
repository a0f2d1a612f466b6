-- ===== src/Spel/Ast.antt =====
-- crates/spel/src/ast.rs: `Node` and the operators; crates/spel/src/lexer.rs: `Token`. An `i64` is
-- a ℤ, and a floating point number keeps the text of its literal.
use shinyproxy_rust.Base.{ℕ, String, Bool}
use shinyproxy_rust.Base.Int.{ℤ}

pub data UnaryOperator : Type 0 where
  not_ negate : UnaryOperator

pub data BinaryOperator : Type 0 where
  add subtract multiply divide modulo : BinaryOperator
  equal not_equal less less_or_equal greater greater_or_equal : BinaryOperator
  and_ or_ matches : BinaryOperator

-- Binding power, higher binds tighter.
unfoldable pub precedence : BinaryOperator → ℕ
precedence or_ = 1
precedence and_ = 2
precedence equal = 3
precedence not_equal = 3
precedence matches = 3
precedence less = 4
precedence less_or_equal = 4
precedence greater = 4
precedence greater_or_equal = 4
precedence add = 5
precedence subtract = 5
precedence multiply = 6
precedence divide = 6
precedence modulo = 6

-- `Nodes` is `Vec<Node>` and `Entries` is `Vec<(String, Node)>`; a call without a target is
-- `call_root`.
mutual
  pub data Node : Type 0 where
    null : Node
    bool : Bool → Node
    int : ℤ → Node
    float str root variable bean type_ : String → Node
    property : Node → String → Bool → Node
    index : Node → Node → Node
    call : Node → String → Nodes → Bool → Node
    call_root : String → Nodes → Node
    projection selection : Node → Node → Node
    unary : UnaryOperator → Node → Node
    binary : BinaryOperator → Node → Node → Node
    ternary : Node → Node → Node → Node
    elvis : Node → Node → Node
    list_literal : Nodes → Node
    map_literal : Entries → Node

  pub data Nodes : Type 0 where
    no_nodes : Nodes
    node_then : Node → Nodes → Nodes

  pub data Entries : Type 0 where
    no_entries : Entries
    entry_then : String → Node → Entries → Entries

pub data Token : Type 0 where
  identifier string float variable bean symbol : String → Token
  int : ℤ → Token

pub record SpannedToken : Type 0 where
  pub token : Token
  pub position : ℕ
