-- ===== src/Store/Frames.antt =====
-- What processLTXStreamFrame (store.go) does with a file, where the locks are free.
use litefs.Prelude.{
  ℕ, ◌+◌, ◌-◌, ◌%◌, ◌^◌, ◌≡◌, refl, sym, ap, ap₂, ◌∙◌, ◌≢◌, ◌⊎◌, inl, inr, Bool, true, false, ◌&&◌,
  ◌||◌, Bool-cases, none, some, ◌==◌, ==_iff, ==_ne, ==_self, ℕ_discrete, if◌then◌else◌, returns,
}
use litefs.RwMutex.{unlocked, state}
use litefs.Ltx.{Ltx, LtxFile}
use litefs.Locks.Types.{DbLock, GuardSet, Locks}
use litefs.Locks.Acquire.{try_acquire_write_lock}
use litefs.Locks.Effects.{held, AreConsistent}
use litefs.Locks.Grants.{needs, Grants}
use litefs.Locks.Waiting.{HoldsWrite-refuses, Refused, acquire_write_lock, round_refused, WaitEnd}
use litefs.Db.State.{Db, Pos, Store, M, Result, ok, err, Error, ◌>>◌, put, require, continue}
use litefs.Db.Rollback.{recover}
use litefs.Db.Apply.{apply_ltx_no_lock}
use litefs.Store.UnderLock.{with_write_lock-UnderLock}
use litefs.Store.{
  Locked, under_lock, with_write_lock, recover_locked, clear_remote, unset_remote_halt_lock,
  is_next, kept_files, receive_file, receive_after, process_file, process_ltx_stream_frame,
  unset_held, unset_if,
}

-- The position that a file that is no snapshot follows.
abbrev pub before : LtxFile → Pos
before f = record {
  txid = (f.header.min_txid + (2 ^ 64 - 1)) % 2 ^ 64;
  post_apply_checksum = f.header.pre_apply_checksum;
}

before-is_next : (pos : Pos) (f : LtxFile) → pos ≡ before f → is_next pos f ≡ true
before-is_next pos f e =
    ap₂ (λ a b. a && b) ((==_iff _ _).1 (ap (λ p. p.txid) e))
      ((==_iff _ _).1 (ap (λ p. p.post_apply_checksum) e))

is_next-before : (pos : Pos) (f : LtxFile) → is_next pos f ≡ true → pos ≡ before f
is_next-before pos f e = elim (Bool-cases (pos.txid == (before f).txid)) [
  | inr d ↦ absurd (cc (e, ap (λ a. a && pos.post_apply_checksum == f.header.pre_apply_checksum) d))
  | inl d ↦ elim (Bool-cases (pos.post_apply_checksum == (before f).post_apply_checksum)) [
    | inr d' ↦ absurd (cc (e, d, d'))
    | inl d' ↦ λ i. record { txid = (==_iff _ _).0 d i; post_apply_checksum = (==_iff _ _).0 d' i }
  ]
]

-- What the function returns under the lock, in its three branches.
pub data Received (store : Store) (ltx : Ltx) (snapshot : Bool) (f : LtxFile) (db : Db)
    (r : Db × Result (Unit {0})) : Type 0 where
  own :
      (f.header.node_id ≡ store.id)
      → r ≡ (db, if ltx.accepts f then ok tt else err Error.bad_ltx)
      → Received store ltx snapshot f db r
  mismatch :
      (f.header.node_id ≢ store.id)
      → snapshot ≡ false
      → db.pos ≢ before f
      → r ≡ (db, err Error.position_mismatch)
      → Received store ltx snapshot f db r
  applied :
      (f.header.node_id ≢ store.id)
      → (snapshot ≡ true) ⊎ (db.pos ≡ before f)
      → r ≡ apply_ltx_no_lock ltx f (record db { ltx_dir = kept_files snapshot f db.ltx_dir })
      → Received store ltx snapshot f db r

-- The result of a call that had the write lock: the guards of the set that it was given are
-- unlocked again, and each mutex is in the state that it was in.
pub record Processed (store : Store) (ltx : Ltx) (is_snapshot : LtxFile → Bool) (f : LtxFile)
    (ls : Locks) (db : Db) : Type 0 where
  pub after : Locks
  pub outcome : Db × Result (Unit {0})
  pub result : process_ltx_stream_frame store ltx is_snapshot f ls db ≡ returns (after, outcome)
  pub received : Received store ltx (is_snapshot f) f db outcome
  pub acquired : Locks
  pub gs : GuardSet
  pub granted : try_acquire_write_lock db.mode ls ≡ returns (acquired, some gs)
  pub freed : (k : DbLock) → held after gs k ≡ unlocked
  pub restored : (k : DbLock) → state (after.mutex k) ≡ state (ls.mutex k)
  pub consistent : AreConsistent after

same_left :
    {a b : Locks} {r : Db × Result (Unit {0})}
    → ◌≡◌ {A = Locked} (returns (a, r)) (returns (b, r))
    → a ≡ b
same_left e = cc

module _ (store : Store) (ltx : Ltx) (is_snapshot : LtxFile → Bool) (f : LtxFile) (ls : Locks)
    (db : Db) (c : AreConsistent ls)
    (free : (l : DbLock) → Grants (needs db.mode l) (state (ls.mutex l))) where
  abbrev snapshot : Bool
  snapshot = is_snapshot f

  processed :
      (r : Db × Result (Unit {0}))
      → Received store ltx snapshot f db r
      → ((ls' : Locks) → process_file store ltx snapshot f db ls' ≡ returns (ls', r))
      → Processed store ltx is_snapshot f ls db
  unfolding process_ltx_stream_frame
  processed r v runs =
      let u =
        with_write_lock-UnderLock (process_file store ltx snapshot f db) ls db r c free
          (λ gs ls' h. (ls', runs ls', h)) in
      record {
        after = u.after;
        outcome = r;
        result = u.result;
        received = v;
        acquired = u.acquired;
        gs = u.gs;
        granted = u.got;
        freed = u.freed;
        restored = u.restored (same_left (sym u.ran ∙ runs u.acquired));
        consistent = u.consistent;
      }

  abbrev to_receive : Locks → Locked
  to_receive ls' =
      receive_after (receive_file ltx snapshot f) (unset_held ltx db.remote_halt_lock ls' db)

  abbrev keep_and_apply : M (Unit {0})
  keep_and_apply =
      put (record db { ltx_dir = kept_files snapshot f db.ltx_dir }) >> apply_ltx_no_lock ltx f

  -- A file of another node, without a remote halt lock.
  receives :
      (b : Bool) (ls' : Locks)
      → f.header.node_id ≢ store.id
      → db.remote_halt_lock ≡ none
      → (snapshot || is_next db.pos f) ≡ b
      → process_file store ltx snapshot f db ls'
        ≡ returns (ls', continue (λ _. keep_and_apply) (require b Error.position_mismatch db))
  unfolding process_file receive_file
  receives b ls' other no_remote e =
      ap
        (λ t. if t then returns (ls', require (ltx.accepts f) Error.bad_ltx db) else to_receive ls')
        (==_ne f.header.node_id store.id other)
      ∙ ap (λ h. receive_after (receive_file ltx snapshot f) (unset_held ltx h ls' db)) no_remote
      ∙ ap
          (λ t.
            returns (ls', continue (λ _. keep_and_apply) (require t Error.position_mismatch db)))
          e

  require_is : (b : Bool) (e : Error) → require b e db ≡ (db, if b then ok tt else err e)
  require_is true e = refl
  require_is false e = refl

  own_file : f.header.node_id ≡ store.id → Processed store ltx is_snapshot f ls db
  unfolding process_file
  own_file e =
      processed (db, if ltx.accepts f then ok tt else err Error.bad_ltx) (own e refl)
        (λ ls'.
          ap
            (λ t.
              if t then returns (ls', require (ltx.accepts f) Error.bad_ltx db) else to_receive ls')
            ((==_iff f.header.node_id store.id).1 e)
          ∙ ap (λ r. returns (ls', r)) (require_is (ltx.accepts f) Error.bad_ltx))

  apply_file :
      f.header.node_id ≢ store.id
      → db.remote_halt_lock ≡ none
      → (snapshot ≡ true) ⊎ (db.pos ≡ before f)
      → (snapshot || is_next db.pos f) ≡ true
      → Processed store ltx is_snapshot f ls db
  apply_file other no_remote why e =
      processed (apply_ltx_no_lock ltx f (record db { ltx_dir = kept_files snapshot f db.ltx_dir }))
        (applied other why refl) (λ ls'. receives true ls' other no_remote e)

  other_file :
      f.header.node_id ≢ store.id
      → db.remote_halt_lock ≡ none
      → Processed store ltx is_snapshot f ls db
  other_file other no_remote = elim (Bool-cases snapshot) [
    | inl s ↦ apply_file other no_remote (inl s) (ap (λ t. t || is_next db.pos f) s)
    | inr s ↦ elim (Bool-cases (is_next db.pos f)) [
      | inl e ↦
          apply_file other no_remote (inr (is_next-before db.pos f e)) (ap₂ (λ t u. t || u) s e)
      | inr e ↦
          processed (db, err Error.position_mismatch)
            (mismatch other s (λ q. absurd (cc (e, before-is_next db.pos f q))) refl)
            (λ ls'. receives false ls' other no_remote (ap₂ (λ t u. t || u) s e))
    ]
  ]

-- Where each mutex is free for a write and no remote halt lock is held, processLTXStreamFrame
-- returns. The guards of the set that its attempt for the write lock was given are unlocked again,
-- and each mutex is in the state that it was in. A file of the node itself is verified, and the
-- database stays. A file of another node that is no snapshot and does not follow the position is
-- refused, and the database stays. Any other file is added, a snapshot in place of all files, and
-- the result is that of ApplyLTXNoLock.
pub process_ltx_stream_frame_correct :
    (store : Store) (ltx : Ltx) (is_snapshot : LtxFile → Bool) (f : LtxFile) (ls : Locks) (db : Db)
    → AreConsistent ls
    → ((l : DbLock) → Grants (needs db.mode l) (state (ls.mutex l)))
    → db.remote_halt_lock ≡ none
    → Processed store ltx is_snapshot f ls db
process_ltx_stream_frame_correct store ltx is_snapshot f ls db c free no_remote =
    elim (ℕ_discrete f.header.node_id store.id) [
      | yes e ↦ own_file store ltx is_snapshot f ls db c free e
      | no n ↦ other_file store ltx is_snapshot f ls db c free n no_remote
    ]

recover_waits :
    (ltx : Ltx) (ls after : Locks) (db : Db)
    → try_acquire_write_lock db.mode ls ≡ returns (after, none)
    → recover_locked ltx ls db ≡ returns (after, (db, err Error.timed_out))
unfolding recover_locked with_write_lock acquire_write_lock
recover_waits ltx ls after db e =
    ap (under_lock (λ ls. returns (ls, recover ltx db)) db)
      (round_refused db.mode (λ ls. returns (ls, WaitEnd.context_done)) ls after e)

-- Where each mutex is free for a write but the remote halt lock is held, processLTXStreamFrame
-- fails with its context on a file of another node, and the database stays: it holds the write lock
-- that the recovery of UnsetRemoteHaltLock waits for.
pub process_ltx_stream_frame-halted :
    (store : Store) (ltx : Ltx) (is_snapshot : LtxFile → Bool) (f : LtxFile) (ls : Locks) (db : Db)
    (id : ℕ)
    → AreConsistent ls
    → ((l : DbLock) → Grants (needs db.mode l) (state (ls.mutex l)))
    → f.header.node_id ≢ store.id
    → db.remote_halt_lock ≡ some id
    → (after : Locks) × (process_ltx_stream_frame store ltx is_snapshot f ls db
        ≡ returns (after, (db, err Error.timed_out)))
unfolding process_ltx_stream_frame process_file unset_remote_halt_lock
process_ltx_stream_frame-halted store ltx is_snapshot f ls db id c free other halted =
    let u =
      with_write_lock-UnderLock (process_file store ltx (is_snapshot f) f db) ls db
        (db, err Error.timed_out) c free
        (λ gs ls' h.
          let r = HoldsWrite-refuses db.mode db.mode gs ls' h in
          (
            r.after,
            ap
                  (λ t.
                    if t
                    then returns (ls', require (ltx.accepts f) Error.bad_ltx db)
                    else to_receive ls')
                  (==_ne f.header.node_id store.id other)
                ∙ ap
                    (λ o.
                      receive_after (receive_file ltx (is_snapshot f) f) (unset_held ltx o ls' db))
                    halted
                ∙ ap
                    (λ o.
                      receive_after (receive_file ltx (is_snapshot f) f) (unset_if id ltx o ls' db))
                    halted
                ∙ ap
                    (λ t. receive_after (receive_file ltx (is_snapshot f) f) (
                      if t
                      then clear_remote (recover_locked ltx ls' db)
                      else returns (ls', (db, ok tt))))
                    (==_self id)
                ∙ ap (λ o. receive_after (receive_file ltx (is_snapshot f) f) (clear_remote o))
                    (waits gs ls' r),
            r.still,
          )) in
    (u.after, u.result)
  where
    to_receive : Locks → Locked
    to_receive ls' =
        receive_after (receive_file ltx (is_snapshot f) f)
          (unset_held ltx db.remote_halt_lock ls' db)

    waits :
        (gs : GuardSet) (ls' : Locks) (r : Refused db.mode db.mode gs ls')
        → recover_locked ltx ls' db ≡ returns (r.after, (db, err Error.timed_out))
    waits gs ls' r = recover_waits ltx ls' r.after db r.result
