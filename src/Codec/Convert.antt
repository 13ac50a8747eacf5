-- ===== src/Codec/Convert.antt =====
-- The conversions of crates/wirespec-codec/src/lower.rs that need no context: expressions,
-- literals, references and patterns.
use wirespec.Base.{List, [], ◌∷◌, ◌++◌, none, some}
use wirespec.Base.Str.{Str, str}
use wirespec.Sema.Expr.{SemanticExpr, SemanticExprs, SemanticLiteral, TransitionPeerRef}
use wirespec.Sema.Expr.{TransitionPeerKind}
use wirespec.Sema.Expr as Sem
use wirespec.Sema.Ir.{SemanticPattern}
use wirespec.Codec.Ir.{CodecExpr, CodecExprs, ValueRef, ValueRefKind, LiteralValue, VariantPattern}

unfoldable pub convert_kind : Sem.ValueRefKind → ValueRefKind
convert_kind Sem.ValueRefKind.field = ValueRefKind.field
convert_kind Sem.ValueRefKind.derived = ValueRefKind.derived
convert_kind Sem.ValueRefKind.const = ValueRefKind.const
convert_kind Sem.ValueRefKind.state_field = ValueRefKind.field

unfoldable pub convert_value_ref : Sem.ValueRef → ValueRef
convert_value_ref vr = record { value_id = vr.value_id; kind = convert_kind vr.kind }

unfoldable pub convert_literal : SemanticLiteral → LiteralValue
convert_literal (SemanticLiteral.int v) = LiteralValue.int v
convert_literal (SemanticLiteral.bool v) = LiteralValue.bool v
convert_literal (SemanticLiteral.string s) = LiteralValue.string s
convert_literal SemanticLiteral.null = LiteralValue.null

-- `path.join(".")`.
unfoldable pub join_dots : List Str → Str
join_dots [] = []
join_dots (s ∷ []) = s
join_dots (s ∷ t ∷ path) = s ++ (str "." ++ join_dots (t ∷ path))

unfoldable pub peer_name : TransitionPeerKind → Str
peer_name TransitionPeerKind.src = str "src"
peer_name TransitionPeerKind.dst = str "dst"
peer_name TransitionPeerKind.event_param = str "event"

-- The identifier of a peer reference: the event parameter's, or else the joined path.
unfoldable pub peer_value_id : TransitionPeerRef → Str
peer_value_id reference = elim (reference.event_param_id) [
  | some id ↦ id
  | none ↦ peer_name reference.peer ++ (str "." ++ join_dots reference.path)
]

unfoldable mutual
  pub convert_semantic_expr : SemanticExpr → CodecExpr
  convert_semantic_expr (SemanticExpr.literal value) = CodecExpr.literal (convert_literal value)
  convert_semantic_expr (SemanticExpr.value_ref reference) =
      CodecExpr.value_ref (convert_value_ref reference)
  convert_semantic_expr (SemanticExpr.transition_peer_ref reference) =
      CodecExpr.value_ref (record { value_id = peer_value_id reference; kind = ValueRefKind.field })
  convert_semantic_expr (SemanticExpr.binary op left right) =
      CodecExpr.binary op (convert_semantic_expr left) (convert_semantic_expr right)
  convert_semantic_expr (SemanticExpr.unary op operand) =
      CodecExpr.unary op (convert_semantic_expr operand)
  convert_semantic_expr (SemanticExpr.coalesce expr fallback) =
      CodecExpr.coalesce (convert_semantic_expr expr) (convert_semantic_expr fallback)
  convert_semantic_expr (SemanticExpr.in_state expr name) =
      CodecExpr.in_state (convert_semantic_expr expr) name
  convert_semantic_expr (SemanticExpr.subscript base index) =
      CodecExpr.subscript (convert_semantic_expr base) (convert_semantic_expr index)
  convert_semantic_expr (SemanticExpr.state_constructor name args) =
      CodecExpr.state_constructor name (convert_semantic_exprs args)
  convert_semantic_expr (SemanticExpr.fill value count) =
      CodecExpr.fill (convert_semantic_expr value) (convert_semantic_expr count)
  convert_semantic_expr (SemanticExpr.slice base start end) =
      CodecExpr.slice (convert_semantic_expr base) (convert_semantic_expr start)
        (convert_semantic_expr end)
  convert_semantic_expr (SemanticExpr.all collection name) =
      CodecExpr.all (convert_semantic_expr collection) name

  pub convert_semantic_exprs : SemanticExprs → CodecExprs
  convert_semantic_exprs SemanticExprs.nil = CodecExprs.nil
  convert_semantic_exprs (SemanticExprs.cons e es) =
      CodecExprs.cons (convert_semantic_expr e) (convert_semantic_exprs es)

unfoldable pub convert_pattern : SemanticPattern → VariantPattern
convert_pattern (SemanticPattern.exact value) = VariantPattern.exact value
convert_pattern (SemanticPattern.range_inclusive start end) =
    VariantPattern.range_inclusive start end
convert_pattern SemanticPattern.wildcard = VariantPattern.wildcard
