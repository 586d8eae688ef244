-- ===== src/Db/Transaction.antt =====
-- A whole transaction of the rollback journal on the primary (db.go): SQLite's page writes, each a
-- call of WriteDatabaseAt, and the commit by CommitJournal.
use litefs.Prelude.{
  ℕ, ◌-◌, ◌*◌, ◌^◌, ◌<◌, ◌≡◌, refl, sym, ap, ◌∙◌, ◌≢◌, Bool, true, Option, none, some, List, [],
  ◌∷◌, arith, update,
}
use litefs.Disk.{File, write_at}
use litefs.Locks.Acquire.{rollback}
use litefs.Ltx.{Ltx}
use litefs.Db.State.{Db, Store, M, ok, ◌>>◌, return, continue, writeable}
use litefs.Db.Apply.{apply_pages}
use litefs.Db.Writes.{write_database_at}
use litefs.Db.Overlay.{ArePages, overlay, write_database_page_lem}
use litefs.Db.Written.{write_database_at_lem}

-- The calls of WriteDatabaseAt for whole pages of `ps` bytes.
unfoldable pub write_pages : Store → Ltx → ℕ → List (ℕ × List ℕ) → M (Unit {0})
write_pages store ltx ps [] = return tt
write_pages store ltx ps ((p, bytes) ∷ ws) =
    write_database_at store ltx bytes ((p - 1) * ps) >> write_pages store ltx ps ws

-- The set of pages after these writes.
abbrev pub dirtied : List (ℕ × List ℕ) → (ℕ → Bool) → ℕ → Bool
dirtied [] s = s
dirtied ((p, bytes) ∷ ws) s = dirtied ws (update s p true)

-- A page is in the set if it was there before, or was written.
dirtied-true : (ws : List (ℕ × List ℕ)) (s : ℕ → Bool) (p : ℕ) → s p ≡ true → dirtied ws s p ≡ true
dirtied-true [] s p e = e
dirtied-true ((q, b) ∷ ws) s p e = dirtied-true ws (update s q true) p (ground (arith, e))

pub overlay-dirtied :
    (ws : List (ℕ × List ℕ)) (g : ℕ → Option (List ℕ)) (s : ℕ → Bool) (p : ℕ)
    → (g p ≢ none → s p ≡ true)
    → overlay ws g p ≢ none
    → dirtied ws s p ≡ true
overlay-dirtied [] g s p h n = h n
overlay-dirtied ((q, b) ∷ ws) g s p h n =
    overlay-dirtied ws (update g q (some b)) (update s q true) p (λ m. ground (arith, h, m)) n

pub dirtied-overlay :
    (ws : List (ℕ × List ℕ)) (g : ℕ → Option (List ℕ)) (s : ℕ → Bool) (p : ℕ)
    → (s p ≡ true → g p ≢ none)
    → dirtied ws s p ≡ true
    → overlay ws g p ≢ none
dirtied-overlay [] g s p h e = h e
dirtied-overlay ((q, b) ∷ ws) g s p h e =
    dirtied-overlay ws (update g q (some b)) (update s q true) p (λ t z. ground (arith, h, t, z)) e

-- These calls do what the loop of ApplyLTXNoLock does with the pages, and note them as dirty.
pub write_pages-apply_pages :
    (store : Store) (ltx : Ltx) (n : ℕ) (ws : List (ℕ × List ℕ)) (db db' : Db) (f : File)
    (s : ℕ → Bool)
    → writeable store db ≡ true
    → db.mode ≡ rollback
    → db.database ≡ some f
    → 0 < db.page_size
    → n < 2 ^ 32
    → ArePages db.page_size n ws
    → apply_pages ltx ws db ≡ (db', ok tt)
    → write_pages store ltx db.page_size ws (record db { dirty_page_set = s })
      ≡ (record db' { dirty_page_set = dirtied ws s }, ok tt)
unfolding write_pages apply_pages writeable
write_pages-apply_pages store ltx n [] db db' f s w m e h lt a r =
    ap (λ x. (record (x.0) { dirty_page_set = s }, ok tt)) r
write_pages-apply_pages store ltx n ((q, b) ∷ ws) db db' f s w m e h lt a r =
    ap (continue (λ _. write_pages store ltx db.page_size ws)) (
      write_database_at_lem store ltx (record db { dirty_page_set = s }) f q b w m e h a.0.2 a.0.0
        (omega (arith, a.0.1, lt)))
    ∙ write_pages-apply_pages store ltx n ws
        (record db {
          database = some (write_at f b ((q - 1) * db.page_size));
          chksums = update db.chksums q (some (ltx.checksum_page q b));
        })
        db' (write_at f b ((q - 1) * db.page_size)) (update s q true) w m refl h lt a.1
        (sym (
            ap (continue (λ _. apply_pages ltx ws))
              (write_database_page_lem ltx db f q b e h a.0.2 a.0.0))
          ∙ r)
