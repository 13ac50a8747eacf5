-- ===== src/Lib.antt =====
-- wirespec compiles descriptions of binary wire formats to parsers and serializers. This library
-- models its lexer, the search for the modules of a program, its middle end, which the back ends
-- read, the methods that the back ends name, and the runtime that generated Rust code calls.
--
-- The driver finds a program's files by their imports and orders them (crates/wirespec-driver). A
-- module's source is split into tokens, parsed and analyzed into the semantic IR. The layout pass
-- (crates/wirespec-layout) adds to each field its width in bits and its byte order, and collects runs
-- of adjacent bit fields of a scope (a packet, a capsule header or a variant) into bit groups. The
-- codec pass (crates/wirespec-codec) gives each field a strategy, its memory tier, its size or element
-- plan and its place in a bit group, and each scope its checksum plan. A back end emits code from
-- that, and the Rust code calls crates/wirespec-rt: a cursor, a writer and the checksums.
--
-- The files and what they model:
--   Base        Lists, bits, signed integers, texts, and outcomes (ok, err, panic) over the native
--               numbers.
--   Rt          crates/wirespec-rt/src/lib.rs. Rt/Cursor and Rt/Writer have one function per method,
--               from the receiver to a result and the receiver that is left; Rt/Checksum has the
--               checksum functions, from the slice to the slice that is left.
--   Syntax      crates/wirespec-syntax/src: span.rs, Ast (ast.rs), Token and Lexer (lexer.rs).
--   Sema        crates/wirespec-sema/src: Types (types.rs), Expr (expr.rs), Ir (ir.rs), Catalog
--               (checksum_catalog.rs and profile.rs), Registry (resolve.rs), Validate (validate.rs)
--               and Suggest (the suggestions of error.rs).
--   Layout      crates/wirespec-layout/src: Ir (ir.rs), Bitgroup (bitgroup.rs) and Lower (lower.rs).
--   Codec       crates/wirespec-codec/src: Ir (ir.rs), Strategy (strategy.rs), Checksum (checksum.rs),
--               and lower.rs in three files: Convert (expressions), Lower (fields and items) and Scopes
--               (packets, frames, capsules and the module).
--   Driver      crates/wirespec-driver/src: Resolve (resolve.rs) and Pipeline (pipeline.rs, driver.rs).
--               The file system and the parser are the record Files, the analyzer an argument.
--   Backend     type_map.rs of crates/wirespec-backend-rust and crates/wirespec-backend-c, in Rust and
--               C, but for the types of named definitions and the texts of expressions.
--
-- Functions and types keep their names, in snake_case for functions, fields and constructors; a
-- field `data` is `input` or `buf`. A text is the list of its code points. `usize` has 64 bits, and
-- `IsValid` of a cursor or writer says that its buffer has fewer than 2 ^ 64 bytes. What panics in
-- Rust, by an index out of range, a failed `expect` or `assert!`, or an overflow under overflow
-- checks, is `panic` or `none` here, so a theorem that gives the result shows that there is no panic.
-- An error message is a constructor that carries the values it shows. A `HashMap` is an association
-- list in which the newest binding of a key counts. A `Vec` of expressions inside an expression is a
-- second data type of a mutual block, and the four names of a state in an expression are one record.
--
-- The loop that folds the carries of the Internet checksum runs on fuel 3, which is enough for every
-- 32-bit sum (`fold_carries_lem`). `resolve_type_name` looks at the depths 0 to 32, which are 33 steps.
-- The decimal form of a number has fuel above the number.
--
-- The search for modules has fuel for the depth of the imports: a file is only entered when it is not
-- in progress, so fuel above the number of files is enough (`resolve-ne-panic`). The lexer's loop has
-- fuel above the length of the text, since each token has at least one byte; its other loops are
-- recursions on the bytes that are left.
--
-- Not modelled: the parser, the analyzer with its own validation, the text of errors, the driver's
-- command line, the code that the back ends emit, and the language server.
pub mod Base
pub mod Rt
pub mod Syntax
pub mod Sema
pub mod Layout
pub mod Codec
pub mod Driver
pub mod Backend
