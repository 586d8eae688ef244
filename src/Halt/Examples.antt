-- ===== src/Halt/Examples.antt =====
-- A database without files whose locks are free: a halt lock is acquired, asked for again and given
-- back.
use litefs.Prelude.{some, ◌≡◌, ◌==◌, refl, none, true, false, [], arith}
use litefs.RwMutex
use litefs.RwMutex.{RwMutexState, unlocked, exclusive, zero_value, state}
use litefs.RwMutex.Consistent.{zero_value-IsConsistent}
use litefs.Wal.{little_endian}
use litefs.Ltx.{Ltx}
use litefs.Locks.Types.{DbLock}
use litefs.Locks.Acquire.{wal}
use litefs.Locks.Grants.{needs, Grants}
use litefs.Db.State.{Db, ok}
use litefs.Db.Rollback.{recover}
use litefs.Halt.{Node, release_halt_lock}
use litefs.Halt.Held.{IsHaltable, Given, release_halt_lock_correct}
use litefs.Halt.Acquired.{Halted, Busy, acquire_halt_lock-granted, acquire_halt_lock-held}

abbrev ltx : Ltx
ltx = record {
  checksum_flag = 0x8000000000000000;
  checksum_page = λ pgno bytes. pgno;
  lock_pgno = λ size. 5;
  accepts = λ f. true;
}

abbrev no_files : Db
no_files = record {
  page_size = 0;
  page_n = 0;
  pos = record { txid = 3; post_apply_checksum = 5 };
  mode = wal;
  remote_halt_lock = none;
  chksums = λ _. none;
  dirty_page_set = λ _. false;
  wal = record {
    offset = 0;
    byte_order = little_endian;
    salt1 = 0;
    salt2 = 0;
    chksum1 = 0;
    chksum2 = 0;
    frame_offsets = λ _. none;
    chksums = λ _. [];
  };
  database = none;
  journal = none;
  wal_file = none;
  shm = none;
  ltx_dir = [];
  marked = 0;
}

abbrev node : Node
node = record {
  db = no_files;
  locks = record { mutex = λ _. zero_value; guard_sets = [] };
  halt = none;
}

node-IsHaltable : IsHaltable node
node-IsHaltable = record {
  consistent = record { each = λ l. zero_value-IsConsistent };
  holding = λ l gs e. cc e;
}

zero_value-state : state zero_value ≡ unlocked
unfolding RwMutex.state zero_value
zero_value-state = refl

node-free : (l : DbLock) → Grants (needs wal l) (state zero_value)
node-free l = free (needs wal l)
  where
    free : (want : RwMutexState) → Grants want (state zero_value)
    free exclusive = zero_value-state
    free (RwMutexState.shared) = λ e. cc (zero_value-state, e)
    free unlocked = tt

recovers : recover ltx no_files ≡ (no_files, ok tt)
unfolding recover
recovers = refl

abbrev halted : Halted ltx 7 100 node no_files
halted =
    acquire_halt_lock-granted ltx 7 100 node no_files node-IsHaltable (λ e. omega (arith, e)) refl
      node-free recovers

acquire_halt_lock-granted_example : Halted ltx 7 100 node no_files
acquire_halt_lock-granted_example =
    acquire_halt_lock-granted ltx 7 100 node no_files node-IsHaltable (λ e. omega (arith, e)) refl
      node-free recovers

acquire_halt_lock-held_example :
    Busy ltx 8 200 halted.after (record { id = 7; pos = no_files.pos; expires = some 100 })
acquire_halt_lock-held_example =
    acquire_halt_lock-held ltx 8 200 halted.after
      (record { id = 7; pos = no_files.pos; expires = some 100 }) halted.gs halted.valid
      (λ e. omega (arith, e)) halted.stored

release_halt_lock_correct_example :
    Given (λ l. l.id == 7) halted.after (release_halt_lock 7 halted.after)
release_halt_lock_correct_example = release_halt_lock_correct 7 halted.after halted.valid
