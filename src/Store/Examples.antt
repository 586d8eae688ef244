-- ===== src/Store/Examples.antt =====
-- A file of node 7 arrives at node 9, whose locks are free: without a remote halt lock, and with one.
use litefs.Prelude.{◌≡◌, ◌≢◌, refl, returns, none, some, true, false, []}
use litefs.RwMutex
use litefs.RwMutex.{RwMutexState, unlocked, exclusive, zero_value, state}
use litefs.RwMutex.Consistent.{zero_value-IsConsistent}
use litefs.Wal.{little_endian}
use litefs.Ltx.{Ltx, LtxFile}
use litefs.Locks.Types.{DbLock, Locks}
use litefs.Locks.Acquire.{wal}
use litefs.Locks.Effects.{AreConsistent}
use litefs.Locks.Grants.{needs, Grants}
use litefs.Db.State.{Db, Store, err, Error}
use litefs.Store.{process_ltx_stream_frame}
use litefs.Store.Frames.{
  Processed, process_ltx_stream_frame_correct, process_ltx_stream_frame-halted,
}

abbrev ltx : Ltx
ltx = record {
  checksum_flag = 0x8000000000000000;
  checksum_page = λ pgno bytes. pgno;
  lock_pgno = λ size. 5;
  accepts = λ f. true;
}

abbrev replica : Store
replica = record {
  is_primary = false;
  has_primary_info = true;
  id = 9;
  strict_verify = false;
  client_commit = λ id f. false;
}

-- The transaction 4 of the primary, after position 3.
abbrev file : LtxFile
file = record {
  header = record {
    page_size = 512;
    commit = 0;
    min_txid = 4;
    max_txid = 4;
    pre_apply_checksum = 5;
    wal_salt1 = 0;
    wal_salt2 = 0;
    wal_offset = 0;
    wal_size = 0;
    node_id = 7;
  };
  pages = [];
  post_apply_checksum = 0x8000000000000000;
}

abbrev no_files : Db
no_files = record {
  page_size = 0;
  page_n = 0;
  pos = record { txid = 3; post_apply_checksum = 5 };
  mode = wal;
  remote_halt_lock = none;
  chksums = λ _. none;
  dirty_page_set = λ _. false;
  wal = record {
    offset = 0;
    byte_order = little_endian;
    salt1 = 0;
    salt2 = 0;
    chksum1 = 0;
    chksum2 = 0;
    frame_offsets = λ _. none;
    chksums = λ _. [];
  };
  database = none;
  journal = none;
  wal_file = none;
  shm = none;
  ltx_dir = [];
  marked = 0;
}

abbrev locks : Locks
locks = record { mutex = λ _. zero_value; guard_sets = [] }

locks-AreConsistent : AreConsistent locks
locks-AreConsistent = record { each = λ l. zero_value-IsConsistent }

zero_value-state : state zero_value ≡ unlocked
unfolding RwMutex.state zero_value
zero_value-state = refl

locks-free : (l : DbLock) → Grants (needs wal l) (state zero_value)
locks-free l = free (needs wal l)
  where
    free : (want : RwMutexState) → Grants want (state zero_value)
    free exclusive = zero_value-state
    free (RwMutexState.shared) = λ e. cc (zero_value-state, e)
    free unlocked = tt

of_another_node : file.header.node_id ≢ replica.id
of_another_node = λ e. absurd (cc e)

process_ltx_stream_frame_correct_example : Processed replica ltx (λ f. false) file locks no_files
process_ltx_stream_frame_correct_example =
    process_ltx_stream_frame_correct replica ltx (λ f. false) file locks no_files
      locks-AreConsistent locks-free refl

process_ltx_stream_frame-halted_example :
    (after : Locks) × (process_ltx_stream_frame replica ltx
        (λ f. false)
        file
        locks
        (record no_files { remote_halt_lock = some 1 })
      ≡ returns (after, (record no_files { remote_halt_lock = some 1 }, err Error.timed_out)))
process_ltx_stream_frame-halted_example =
    process_ltx_stream_frame-halted replica ltx (λ f. false) file locks
      (record no_files { remote_halt_lock = some 1 }) 1 locks-AreConsistent locks-free
      of_another_node refl
