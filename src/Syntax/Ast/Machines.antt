-- ===== src/Syntax/Ast/Machines.antt =====
-- crates/wirespec-syntax/src/ast.rs: state machines and what is to be verified of them.
use wirespec.Base.{Bool, List, Option}
use wirespec.Base.Str.{Str}
use wirespec.Syntax.{Span}
use wirespec.Syntax.Ast.Expr.{AstExpr, AstAnnotation, AstLiteralValue}
use wirespec.Syntax.Ast.Fields.{AstTypeExpr}

pub data AstVerifyFormula : Type 0 where
  in_state : (state_name : Str) → AstVerifyFormula
  not : (inner : AstVerifyFormula) → AstVerifyFormula
  and : (left : AstVerifyFormula) → (right : AstVerifyFormula) → AstVerifyFormula
  or : (left : AstVerifyFormula) → (right : AstVerifyFormula) → AstVerifyFormula
  implies : (left : AstVerifyFormula) → (right : AstVerifyFormula) → AstVerifyFormula
  always : (inner : AstVerifyFormula) → AstVerifyFormula
  eventually : (inner : AstVerifyFormula) → AstVerifyFormula
  leads_to : (left : AstVerifyFormula) → (right : AstVerifyFormula) → AstVerifyFormula
  compare : (left : AstVerifyFormula) → (op : Str) → (right : AstVerifyFormula) → AstVerifyFormula
  field_ref : (path : List Str) → AstVerifyFormula
  literal : (value : AstLiteralValue) → AstVerifyFormula

pub data AstVerifyDecl : Type 0 where
  built_in : (name : Str) → (span : Option Span) → AstVerifyDecl
  property : (name : Str) → (formula : AstVerifyFormula) → (span : Option Span) → AstVerifyDecl

pub record AstStateFieldDef : Type 0 where
  pub name : Str
  pub type_expr : AstTypeExpr
  pub default_value : Option AstLiteralValue
  pub span : Option Span

pub record AstStateDecl : Type 0 where
  pub name : Str
  pub fields : List AstStateFieldDef
  pub is_terminal : Bool
  pub span : Option Span

pub record AstEventParam : Type 0 where
  pub name : Str
  pub type_expr : AstTypeExpr
  pub span : Option Span

pub record AstEventDecl : Type 0 where
  pub name : Str
  pub params : List AstEventParam
  pub span : Option Span

pub record AstAssignment : Type 0 where
  pub target : AstExpr
  pub op : Str
  pub value : AstExpr
  pub span : Option Span

pub record AstDelegateClause : Type 0 where
  pub target : AstExpr
  pub event_name : Str
  pub span : Option Span

pub record AstTransitionDecl : Type 0 where
  pub src_state : Str
  pub dst_state : Str
  pub events : List AstEventDecl
  pub guard : Option AstExpr
  pub actions : List AstAssignment
  pub delegate : Option AstDelegateClause
  pub span : Option Span

pub record AstStateMachineDecl : Type 0 where
  pub name : Str
  pub states : List AstStateDecl
  pub initial_state : Str
  pub transitions : List AstTransitionDecl
  pub verify_declarations : List AstVerifyDecl
  pub annotations : List AstAnnotation
  pub exported : Bool
  pub span : Option Span
