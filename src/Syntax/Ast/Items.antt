-- ===== src/Syntax/Ast/Items.antt =====
-- crates/wirespec-syntax/src/ast.rs: top-level items and the module.
use wirespec.Base.{ℕ, Bool, List, Option}
use wirespec.Base.Int.{ℤ}
use wirespec.Base.Str.{Str}
use wirespec.Syntax.{Span}
use wirespec.Syntax.Ast.Expr.{AstExpr, AstAnnotation, AstLiteralValue}
use wirespec.Syntax.Ast.Fields.{AstTypeExpr, AstPattern, AstFieldDef, AstFieldItem}
use wirespec.Syntax.Ast.Machines.{AstStateMachineDecl}

pub record AstModuleDecl : Type 0 where
  pub name : Str
  pub span : Option Span

pub record AstImport : Type 0 where
  pub from_module : Str
  pub name : Option Str
  pub span : Option Span

pub record AstExternAsn1 : Type 0 where
  pub path : Str
  pub rust_module : Option Str
  pub type_names : List Str
  pub span : Option Span

pub record AstConstDecl : Type 0 where
  pub name : Str
  pub type_name : Str
  pub value : AstLiteralValue
  pub annotations : List AstAnnotation
  pub exported : Bool
  pub span : Option Span

pub record AstEnumMember : Type 0 where
  pub name : Str
  pub value : ℤ
  pub span : Option Span

pub record AstEnumDecl : Type 0 where
  pub name : Str
  pub underlying_type : Str
  pub members : List AstEnumMember
  pub annotations : List AstAnnotation
  pub exported : Bool
  pub span : Option Span

pub record AstFlagsDecl : Type 0 where
  pub name : Str
  pub underlying_type : Str
  pub members : List AstEnumMember
  pub annotations : List AstAnnotation
  pub exported : Bool
  pub span : Option Span

pub record AstStaticAssertDecl : Type 0 where
  pub expr : AstExpr
  pub span : Option Span

pub data AstTypeDeclBody : Type 0 where
  fields : (fields : List AstFieldDef) → AstTypeDeclBody
  alias : (target : AstTypeExpr) → AstTypeDeclBody

pub record AstTypeDecl : Type 0 where
  pub name : Str
  pub annotations : List AstAnnotation
  pub body : AstTypeDeclBody
  pub exported : Bool
  pub span : Option Span

pub record AstPacketDecl : Type 0 where
  pub name : Str
  pub fields : List AstFieldItem
  pub annotations : List AstAnnotation
  pub exported : Bool
  pub span : Option Span

pub record AstFrameBranch : Type 0 where
  pub pattern : AstPattern
  pub variant_name : Str
  pub fields : List AstFieldItem
  pub span : Option Span

pub record AstFrameDecl : Type 0 where
  pub name : Str
  pub tag_field : Str
  pub tag_type : Str
  pub branches : List AstFrameBranch
  pub annotations : List AstAnnotation
  pub exported : Bool
  pub span : Option Span

pub data AstPayloadTagSelector : Type 0 where
  field : (field_name : Str) → AstPayloadTagSelector
  expr : (expr : AstExpr) → AstPayloadTagSelector

pub record AstCapsuleDecl : Type 0 where
  pub name : Str
  pub fields : List AstFieldItem
  pub payload_tag : AstPayloadTagSelector
  pub payload_within : Str
  pub branches : List AstFrameBranch
  pub annotations : List AstAnnotation
  pub exported : Bool
  pub span : Option Span

pub record AstContinuationVarIntDecl : Type 0 where
  pub name : Str
  pub annotations : List AstAnnotation
  pub continuation_bit : Str
  pub value_bits : ℕ
  pub max_bytes : ℕ
  pub byte_order : Str
  pub exported : Bool
  pub span : Option Span

pub data AstTopItem : Type 0 where
  const : AstConstDecl → AstTopItem
  enum : AstEnumDecl → AstTopItem
  flags : AstFlagsDecl → AstTopItem
  static_assert : AstStaticAssertDecl → AstTopItem
  type : AstTypeDecl → AstTopItem
  packet : AstPacketDecl → AstTopItem
  frame : AstFrameDecl → AstTopItem
  capsule : AstCapsuleDecl → AstTopItem
  continuation_var_int : AstContinuationVarIntDecl → AstTopItem
  state_machine : AstStateMachineDecl → AstTopItem
  extern_asn1 : AstExternAsn1 → AstTopItem

pub record AstModule : Type 0 where
  pub module_decl : Option AstModuleDecl
  pub imports : List AstImport
  pub annotations : List AstAnnotation
  pub items : List AstTopItem
  pub span : Option Span
