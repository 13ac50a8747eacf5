-- ===== src/Sema/Expr.antt =====
-- crates/wirespec-sema/src/expr.rs: expressions whose names are resolved.
use wirespec.Base.{Bool, List, Option}
use wirespec.Base.Int.{ℤ}
use wirespec.Base.Str.{Str}

pub data ValueRefKind : Type 0 where
  field derived const state_field : ValueRefKind

pub record ValueRef : Type 0 where
  pub value_id : Str
  pub kind : ValueRefKind

pub data TransitionPeerKind : Type 0 where
  src dst event_param : TransitionPeerKind

pub record TransitionPeerRef : Type 0 where
  pub peer : TransitionPeerKind
  pub event_param_id : Option Str
  pub path : List Str

pub data SemanticLiteral : Type 0 where
  int : ℤ → SemanticLiteral
  bool : Bool → SemanticLiteral
  string : Str → SemanticLiteral
  null : SemanticLiteral

-- The state machine and state that an expression names: `sm_id`, `sm_name`, `state_id` and
-- `state_name`.
pub record StateName : Type 0 where
  pub sm_id : Str
  pub sm_name : Str
  pub state_id : Str
  pub state_name : Str

-- `Exprs` is the `Vec` of arguments of a state constructor.
mutual
  pub data SemanticExpr : Type 0 where
    literal : SemanticLiteral → SemanticExpr
    value_ref : ValueRef → SemanticExpr
    transition_peer_ref : TransitionPeerRef → SemanticExpr
    binary : Str → SemanticExpr → SemanticExpr → SemanticExpr
    unary : Str → SemanticExpr → SemanticExpr
    coalesce : SemanticExpr → SemanticExpr → SemanticExpr
    in_state : SemanticExpr → StateName → SemanticExpr
    subscript : SemanticExpr → SemanticExpr → SemanticExpr
    state_constructor : StateName → SemanticExprs → SemanticExpr
    fill : SemanticExpr → SemanticExpr → SemanticExpr
    slice : SemanticExpr → SemanticExpr → SemanticExpr → SemanticExpr
    all : SemanticExpr → StateName → SemanticExpr

  pub data SemanticExprs : Type 0 where
    nil : SemanticExprs
    cons : SemanticExpr → SemanticExprs → SemanticExprs
