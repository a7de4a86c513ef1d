-- ===== src/Hir.antt =====
-- The typed intermediate representation (src/hir.rs): places, expressions and statements. A vector of
-- a type that holds it is a data type of the same block. `F` stands for f64.
use mx.Common.{ℕ, Bool, Text, Option, List}
use mx.Common.Int.{ℤ}
use mx.Symtab.{SourceLoc}

pub record SymbolId : Type 0 where
  pub mangled : Text
  pub source_name : Text
  pub module_name : Option Text
  pub typ : ℕ
  pub is_var_param : Bool
  pub is_open_array : Bool

pub data ConstVal (F : Type 0) : Type 0 where
  integer : ℤ → ConstVal F
  real : F → ConstVal F
  boolean : Bool → ConstVal F
  char : ℕ → ConstVal F
  string : Text → ConstVal F
  set : ℕ → ConstVal F
  nil : ConstVal F
  enum_variant : ℤ → ConstVal F

pub data PlaceBase (F : Type 0) : Type 0 where
  local global func_ref : SymbolId → PlaceBase F
  constant : ConstVal F → PlaceBase F

-- src/ast.rs
pub data UnaryOp : Type 0 where
  pos neg : UnaryOp

pub data BinaryOp : Type 0 where
  add sub mul real_div int_div mod_op and_op or_op eq ne lt le gt ge in_op : BinaryOp

mutual
  -- `HirExpr`: the kind, the type and the location.
  pub data HirExpr (F : Type 0) : Type 0 where
    expr : HirExprKind F → ℕ → SourceLoc → HirExpr F

  pub data HirExprKind (F : Type 0) : Type 0 where
    int_lit : ℤ → HirExprKind F
    real_lit : F → HirExprKind F
    string_lit : Text → HirExprKind F
    char_lit : ℕ → HirExprKind F
    bool_lit : Bool → HirExprKind F
    nil_lit : HirExprKind F
    place : Place F → HirExprKind F
    direct_call : SymbolId → HirExprs F → HirExprKind F
    indirect_call : HirExpr F → HirExprs F → HirExprKind F
    unary_op : UnaryOp → HirExpr F → HirExprKind F
    binary_op : BinaryOp → HirExpr F → HirExpr F → HirExprKind F
    set_constructor : HirSetElements F → HirExprKind F
    not_expr : HirExpr F → HirExprKind F
    deref : HirExpr F → HirExprKind F
    addr_of : Place F → HirExprKind F
    type_transfer : HirExpr F → HirExprKind F

  pub data HirExprs (F : Type 0) : Type 0 where
    no_exprs : HirExprs F
    more_exprs : HirExpr F → HirExprs F → HirExprs F

  pub data HirSetElements (F : Type 0) : Type 0 where
    no_elements : HirSetElements F
    single_element : HirExpr F → HirSetElements F → HirSetElements F
    range_element : HirExpr F → HirExpr F → HirSetElements F → HirSetElements F

  -- The base, the projections, the type and the location.
  pub data Place (F : Type 0) : Type 0 where
    place_at : PlaceBase F → Projections F → ℕ → SourceLoc → Place F

  -- `Vec<Projection>`: each has a kind and a type.
  pub data Projections (F : Type 0) : Type 0 where
    no_projections : Projections F
    projection : ProjectionKind F → ℕ → Projections F → Projections F

  pub data ProjectionKind (F : Type 0) : Type 0 where
    field : ℕ → Text → ℕ → ProjectionKind F
    index : HirExpr F → ProjectionKind F
    deref_pointer : ProjectionKind F
    variant_field : ℕ → ℕ → Text → ℕ → ProjectionKind F
    transfer : HirExpr F → ProjectionKind F

pub data ForDirection : Type 0 where
  up down : ForDirection

pub data HirCallTarget (F : Type 0) : Type 0 where
  direct : SymbolId → HirCallTarget F
  indirect : HirExpr F → HirCallTarget F

pub data HirCaseLabel (F : Type 0) : Type 0 where
  single : HirExpr F → HirCaseLabel F
  range : HirExpr F → HirExpr F → HirCaseLabel F

mutual
  pub data HirStmt (F : Type 0) : Type 0 where
    stmt : HirStmtKind F → SourceLoc → HirStmt F

  pub data HirStmtKind (F : Type 0) : Type 0 where
    empty exit retry : HirStmtKind F
    assign : Place F → HirExpr F → HirStmtKind F
    proc_call : HirCallTarget F → List (HirExpr F) → HirStmtKind F
    if_stmt : HirExpr F → HirStmts F → Elsifs F → ElseBody F → HirStmtKind F
    case_stmt : HirExpr F → HirCaseBranches F → ElseBody F → HirStmtKind F
    while_stmt : HirExpr F → HirStmts F → HirStmtKind F
    repeat_stmt : HirStmts F → HirExpr F → HirStmtKind F
    for_stmt :
        Text
        → ℕ
        → HirExpr F
        → HirExpr F
        → Option (HirExpr F)
        → ForDirection
        → HirStmts F
        → HirStmtKind F
    loop_stmt : HirStmts F → HirStmtKind F
    return_stmt raise_stmt : Option (HirExpr F) → HirStmtKind F
    try_stmt : HirStmts F → HirExceptClauses F → ElseBody F → HirStmtKind F
    lock_stmt : HirExpr F → HirStmts F → HirStmtKind F
    typecase_stmt : HirExpr F → HirTypeCaseBranches F → ElseBody F → HirStmtKind F

  pub data HirStmts (F : Type 0) : Type 0 where
    end : HirStmts F
    seq : HirStmt F → HirStmts F → HirStmts F

  pub data Elsifs (F : Type 0) : Type 0 where
    no_elsif : Elsifs F
    elsif : HirExpr F → HirStmts F → Elsifs F → Elsifs F

  -- `Option<Vec<HirStmt>>`.
  pub data ElseBody (F : Type 0) : Type 0 where
    no_else : ElseBody F
    else_body : HirStmts F → ElseBody F

  pub data HirCaseBranches (F : Type 0) : Type 0 where
    no_branch : HirCaseBranches F
    branch : List (HirCaseLabel F) → HirStmts F → HirCaseBranches F → HirCaseBranches F

  pub data HirTypeCaseBranches (F : Type 0) : Type 0 where
    no_type_branch : HirTypeCaseBranches F
    type_branch :
        List SymbolId → Option Text → HirStmts F → HirTypeCaseBranches F → HirTypeCaseBranches F

  pub data HirExceptClauses (F : Type 0) : Type 0 where
    no_except : HirExceptClauses F
    except_clause :
        Option SymbolId → Option Text → HirStmts F → HirExceptClauses F → HirExceptClauses F
