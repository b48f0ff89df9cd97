-- ===== src/Scheduling/Indexes.antt =====
-- IROBSchedulingIndexes.
use libcmm.Prelude.{ℕ, ◌+◌, [], length}
use libcmm.Scheduling.Task.{SchedulingData}
use libcmm.Scheduling.PrioritySet.{PrioritySet}
use libcmm.Scheduling.PrioritySet

pub data IndexType : Type 0 where
  new_irobs new_chunks finished_irobs waiting_acks resend_requests waiting_data_checks : IndexType

pub record Indexes : Type 0 where
  pub irobs : PrioritySet
  pub chunks : PrioritySet
  pub finished : PrioritySet
  pub acks : PrioritySet
  pub resends : PrioritySet
  pub checks : PrioritySet

abbrev pub empty : Indexes
empty = record { irobs = []; chunks = []; finished = []; acks = []; resends = []; checks = [] }

-- The array `sets`.
abbrev pub get : IndexType → Indexes → PrioritySet
get new_irobs x = x.irobs
get new_chunks x = x.chunks
get finished_irobs x = x.finished
get waiting_acks x = x.acks
get resend_requests x = x.resends
get waiting_data_checks x = x.checks

abbrev pub put : IndexType → PrioritySet → Indexes → Indexes
put new_irobs s x = record x { irobs = s }
put new_chunks s x = record x { chunks = s }
put finished_irobs s x = record x { finished = s }
put waiting_acks s x = record x { acks = s }
put resend_requests s x = record x { resends = s }
put waiting_data_checks s x = record x { checks = s }

unfoldable pub insert : SchedulingData → IndexType → Indexes → Indexes
insert task t x = put t (PrioritySet.insert task (get t x)) x

pub add : Indexes → Indexes → Indexes
add x other = record {
  irobs = PrioritySet.insert_range other.irobs x.irobs;
  chunks = PrioritySet.insert_range other.chunks x.chunks;
  finished = PrioritySet.insert_range other.finished x.finished;
  acks = PrioritySet.insert_range other.acks x.acks;
  resends = PrioritySet.insert_range other.resends x.resends;
  checks = PrioritySet.insert_range other.checks x.checks;
}

pub clear : Indexes → Indexes
clear x = record { irobs = []; chunks = []; finished = []; acks = []; resends = []; checks = [] }

pub size : Indexes → ℕ
size x =
    length x.irobs
    + length x.chunks
    + length x.finished
    + length x.acks
    + length x.resends
    + length x.checks

-- `transfer` to another object: the new IROBs and the new chunks of an id.
pub transfer : ℕ → ℕ → Indexes → Indexes → Indexes × Indexes
transfer id labels this other =
    let (i, i') = PrioritySet.transfer id labels this.irobs other.irobs in
    let (c, c') = PrioritySet.transfer id labels this.chunks other.chunks in
    (record this { irobs = i; chunks = c }, record other { irobs = i'; chunks = c' })

-- `transfer` to the same object.
pub transfer_self : ℕ → ℕ → Indexes → Indexes
transfer_self id labels this = record this {
  irobs = PrioritySet.transfer_self id labels this.irobs;
  chunks = PrioritySet.transfer_self id labels this.chunks;
}
