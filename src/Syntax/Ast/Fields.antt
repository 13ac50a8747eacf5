-- ===== src/Syntax/Ast/Fields.antt =====
-- crates/wirespec-syntax/src/ast.rs: type expressions, patterns and fields. `AstMatchBranches` is the
-- `Vec` of the branches of a match type.
use wirespec.Base.{ℕ, List, Option}
use wirespec.Base.Int.{ℤ}
use wirespec.Base.Str.{Str}
use wirespec.Syntax.{Span}
use wirespec.Syntax.Ast.Expr.{AstExpr, AstAnnotation, Asn1Length}

pub data AstPattern : Type 0 where
  value : (value : ℤ) → (span : Option Span) → AstPattern
  range_inclusive : (start : ℤ) → (end : ℤ) → (span : Option Span) → AstPattern
  wildcard : (span : Option Span) → AstPattern

pub data AstBytesKind : Type 0 where
  fixed : AstBytesKind
  length : AstBytesKind
  remaining : AstBytesKind
  length_or_remaining : AstBytesKind

pub data AstArrayCount : Type 0 where
  expr : AstExpr → AstArrayCount
  fill : AstArrayCount

mutual
  pub data AstTypeExpr : Type 0 where
    named : (name : Str) → (span : Option Span) → AstTypeExpr
    bits : (width : ℕ) → (span : Option Span) → AstTypeExpr
    match : (field_name : Str) → (branches : AstMatchBranches) → (span : Option Span) → AstTypeExpr
    bytes :
        (kind : AstBytesKind)
        → (fixed_size : Option ℕ) → (size_expr : Option AstExpr) → (span : Option Span)
        → AstTypeExpr
    array :
        (element_type : AstTypeExpr)
        → (count : AstArrayCount) → (within_expr : Option AstExpr) → (span : Option Span)
        → AstTypeExpr
    optional :
        (condition : AstExpr) → (inner_type : AstTypeExpr) → (span : Option Span) → AstTypeExpr
    asn1 :
        (type_name : Str)
        → (encoding : Str) → (length : Asn1Length) → (span : Option Span) → AstTypeExpr

  pub data AstMatchBranches : Type 0 where
    nil : AstMatchBranches
    cons :
        (pattern : AstPattern)
        → (result_type : AstTypeExpr) → (span : Option Span) → AstMatchBranches
        → AstMatchBranches

pub record AstFieldDef : Type 0 where
  pub name : Str
  pub type_expr : AstTypeExpr
  pub annotations : List AstAnnotation
  pub span : Option Span

pub record AstDerivedField : Type 0 where
  pub name : Str
  pub type_name : Str
  pub expr : AstExpr
  pub span : Option Span

pub record AstRequireClause : Type 0 where
  pub expr : AstExpr
  pub span : Option Span

pub data AstFieldItem : Type 0 where
  field : AstFieldDef → AstFieldItem
  derived : AstDerivedField → AstFieldItem
  require : AstRequireClause → AstFieldItem
