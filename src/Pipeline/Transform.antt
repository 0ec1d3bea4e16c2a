-- ===== src/Pipeline/Transform.antt =====
-- pkg/pipeline/transform: what a transformation does to an event. Package regexp and filepath.Match
-- are parameters.
pub mod Filter
pub mod Extract
pub mod Replace
pub mod Chain
pub mod Sequence
pub mod Local
pub mod Rows
pub mod Tables
use pigo.Base.{Bool}
use pigo.Base.Bytes.{Bytes}
use pigo.Pipeline.Cdc.{Event, Heap}

pub data Fault : Type 0 where
  invalid_extract invalid_filter invalid_replace : Fault
  wrong_config : Bytes → Fault
  no_schema_or_table no_operation nil_event : Fault
  not_registered undecodable unknown_type : Bytes → Fault

-- The results of a transformation: an event, `nil, nil`, which drops the event, or an error. Callers
-- read no event that comes with an error.
pub data Outcome : Type 0 where
  passed : Event → Outcome
  skipped : Outcome
  failed : Fault → Outcome

-- A Func. The event is the callers' own copy, which they do not read again when the function has
-- written to it; what copies of an event share is in the heap.
abbrev pub Func : Type 0
Func = Event → Heap → Outcome × Heap

-- What the program uses of other packages: regexp.Compile succeeds, MatchString and
-- ReplaceAllString of a pattern, and the result of filepath.Match, false where it fails.
pub record Patterns : Type 0 where
  pub compiles : Bytes → Bool
  pub matches : Bytes → Bytes → Bool
  pub replace_all : Bytes → Bytes → Bytes → Bytes
  pub glob : Bytes → Bytes → Bool
