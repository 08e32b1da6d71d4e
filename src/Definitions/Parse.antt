-- ===== src/Definitions/Parse.antt =====
-- internal/definitions/definitions.go: the document of a definition and what is read from it.
use gophercast.Prelude.{
  String, Bool, true, false, Option, none, some, List, [], ◌∷◌, if◌then◌else◌, Result, ok, err,
  str_eq,
}
use gophercast.Prelude.Int.{ℤ}
use gophercast.Engine.Store.{Spec, Config, OpDef, Definition}

-- The document as YAML decodes it, where unknown fields are errors.
pub record SpecDoc : Type 0 where
  pub cpu_millis : ℤ
  pub memory_mb : ℤ
  pub gpu : ℤ
  pub runtime_s : ℤ

pub record OpDoc : Type 0 where
  pub operation : String
  pub config : Option Config
  pub spec : Option SpecDoc

pub record FileDoc : Type 0 where
  pub id : String
  pub operations : List OpDoc

pub data ParseError : Type 0 where
  undecodable no_id no_operations nameless_operation include_refused : ParseError

abbrev pub config_of : Option Config → Config
config_of none = []
config_of (some config) = config

abbrev pub spec_of : Option SpecDoc → Option Spec
spec_of none = none
spec_of (some s) = some (record {
  cpu_millis = s.cpu_millis;
  memory_mb = s.memory_mb;
  gpu = s.gpu;
  runtime_s = s.runtime_s;
})

abbrev pub op_of : OpDoc → OpDef
op_of op = record { operation = op.operation; config = config_of op.config; spec = spec_of op.spec }

abbrev pub op_error : OpDoc → Option ParseError
op_error op =
    if str_eq op.operation ""
    then some nameless_operation
    else if str_eq op.operation "include"
    then some include_refused
    else none

abbrev pub cons_op :
    Option ParseError → OpDef → Result ParseError Definition → Result ParseError Definition
cons_op (some e) op rest = err e
cons_op none op (err e) = err e
cons_op none op (ok ops) = ok (op ∷ ops)

unfoldable pub read_ops : List OpDoc → Result ParseError Definition
read_ops [] = ok []
read_ops (op ∷ ops) = let rest = read_ops ops in cons_op (op_error op) (op_of op) rest

abbrev pub with_id : String → Result ParseError Definition → Result ParseError (String × Definition)
with_id id (err e) = err e
with_id id (ok def) = ok (id, def)

abbrev pub no_ops : List OpDoc → Bool
no_ops [] = true
no_ops (op ∷ ops) = false

unfoldable pub read_doc : FileDoc → Result ParseError (String × Definition)
unfolding read_ops
read_doc doc =
    if str_eq doc.id ""
    then err no_id
    else if no_ops doc.operations
    then err no_operations
    else with_id doc.id (read_ops doc.operations)

abbrev pub read_decoded : Option FileDoc → Result ParseError (String × Definition)
read_decoded none = err undecodable
read_decoded (some doc) = read_doc doc

-- The YAML decoder and the hash of a text.
pub record Texts : Type 0 where
  pub decode : String → Option FileDoc
  pub hash : String → String

unfoldable pub parse : Texts → String → Result ParseError (String × Definition)
unfolding read_doc
parse t raw = read_decoded (t.decode raw)
