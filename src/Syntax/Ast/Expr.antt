-- ===== src/Syntax/Ast/Expr.antt =====
-- crates/wirespec-syntax/src/ast.rs: expressions, literals and annotations. `AstExprs` is a `Vec` of
-- expressions inside an expression.
use wirespec.Base.{Bool, List, Option}
use wirespec.Base.Int.{ℤ}
use wirespec.Base.Str.{Str}
use wirespec.Syntax.{Span}

pub data AstLiteralValue : Type 0 where
  int : ℤ → AstLiteralValue
  bool : Bool → AstLiteralValue
  string : Str → AstLiteralValue
  null : AstLiteralValue

pub data AstAnnotationArg : Type 0 where
  identifier : Str → AstAnnotationArg
  int : ℤ → AstAnnotationArg
  bool : Bool → AstAnnotationArg
  string : Str → AstAnnotationArg
  named_value : (name : Str) → (value : AstLiteralValue) → AstAnnotationArg

pub record AstAnnotation : Type 0 where
  pub name : Str
  pub args : List AstAnnotationArg
  pub span : Option Span

pub data BinOp : Type 0 where
  add : BinOp
  sub : BinOp
  mul : BinOp
  div : BinOp
  modulo : BinOp
  bit_and : BinOp
  bit_or : BinOp
  bit_xor : BinOp
  shl : BinOp
  shr : BinOp
  eq : BinOp
  ne : BinOp
  lt : BinOp
  le : BinOp
  gt : BinOp
  ge : BinOp
  and : BinOp
  or : BinOp

pub data UnaryOp : Type 0 where
  not : UnaryOp
  neg : UnaryOp

mutual
  pub data AstExpr : Type 0 where
    int : (value : ℤ) → (span : Option Span) → AstExpr
    bool : (value : Bool) → (span : Option Span) → AstExpr
    null : (span : Option Span) → AstExpr
    name_ref : (name : Str) → (span : Option Span) → AstExpr
    member_access : (base : AstExpr) → (field : Str) → (span : Option Span) → AstExpr
    binary : (op : BinOp) → (left : AstExpr) → (right : AstExpr) → (span : Option Span) → AstExpr
    unary : (op : UnaryOp) → (operand : AstExpr) → (span : Option Span) → AstExpr
    coalesce : (expr : AstExpr) → (default : AstExpr) → (span : Option Span) → AstExpr
    in_state : (expr : AstExpr) → (state_name : Str) → (span : Option Span) → AstExpr
    subscript : (base : AstExpr) → (index : AstExpr) → (span : Option Span) → AstExpr
    state_constructor :
        (sm_name : Str) → (state_name : Str) → (args : AstExprs) → (span : Option Span) → AstExpr
    fill : (value : AstExpr) → (count : AstExpr) → (span : Option Span) → AstExpr
    slice : (base : AstExpr) → (start : AstExpr) → (end : AstExpr) → (span : Option Span) → AstExpr
    all : (collection : AstExpr) → (state_name : Str) → (span : Option Span) → AstExpr

  pub data AstExprs : Type 0 where
    nil : AstExprs
    cons : AstExpr → AstExprs → AstExprs

pub data Asn1Length : Type 0 where
  expr : AstExpr → Asn1Length
  remaining : Asn1Length
