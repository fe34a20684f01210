-- ===== src/LazyList/Alone/Ends.antt =====
-- The ends of `doInsert` and `erase` of artifact/cpp/lazylist at two neighbours that nobody has locked
-- or marked.
use vcaslib.Common.{ℕ, ◌≡◌, refl, Bool, true, false, update, ◌==◌}
use vcaslib.Rq.{Ptr}
use vcaslib.LazyList.{
  Nodes, put, del, Pc, done, lock_pred, lock_curr, test_pred, test_curr, test_link, recheck, peek,
  grab, fetch, store, link, take, after, mark, unlink, free_curr, free_pred, exec, valid, set_lock,
  link_new,
}
use vcaslib.LazyList.Alone.{Goes, arrived, then_on}

module _ (no_value : ℕ) (head n : Ptr) (h : Nodes) (x : ℕ) (p c : Ptr) (lp : h.lock p ≡ false)
    (mp : h.marked p ≡ false) (mc : h.marked c ≡ false) (to_c : (h.next p == c) ≡ true) where
  abbrev pub h1 : Nodes
  h1 = set_lock h p true

  abbrev pub End : Pc → Nodes → (r : ℕ) → Type 0
  End q h' r = Goes no_value head n q h (h', done r)

  go :
      (q : Pc) (h' : Nodes) (q' : Pc) (h'' : Nodes) (e : Nodes × Pc)
      → exec no_value head q n h' ≡ (h'', q')
      → Goes no_value head n q' h'' e
      → Goes no_value head n q h' e
  go = then_on no_value head n

  -- Both locks given back.
  abbrev pub freed : Nodes → Nodes
  freed h' = set_lock (set_lock h' c false) p false

  free_both : (h' : Nodes) (r : ℕ) → Goes no_value head n (free_curr p c r) h' (freed h', done r)
  unfolding exec
  free_both h' r =
      let e : Nodes × Pc = (freed h', done r) in
      go (free_curr p c r) h' (free_pred p r) (set_lock h' c false) e refl (
        go (free_pred p r) (set_lock h' c false) (done r) (freed h') e refl
          (arrived no_value head n (done r) (freed h')))

  -- `insert` up to the end of `validateLinks`.
  validated :
      (v : ℕ) (o : Bool) (e : Nodes × Pc)
      → Goes no_value head n (valid (put v o) x p c (h.key c)) h1 e
      → Goes no_value head n (lock_pred (put v o) x p c) h e
  unfolding exec
  validated v o e g =
      let op = put v o in
      go (lock_pred op x p c) h (test_pred op x p c) h1 e (rw lp refl) (
        go (test_pred op x p c) h1 (test_curr op x p c) h1 e (rw mp refl) (
          go (test_curr op x p c) h1 (test_link op x p c) h1 e (rw mc refl)
            (go (test_link op x p c) h1 (valid op x p c (h.key c)) h1 e (rw to_c refl) g)))

  pub put_absent :
      (v : ℕ) (o : Bool)
      → (h.key c == x) ≡ false
      → End (lock_pred (put v o) x p c) (set_lock (link_new h1 n x v p c) p false) no_value
  unfolding exec
  put_absent v o d =
      let h' = link_new h1 n x v p c in
      let e : Nodes × Pc = (set_lock h' p false, done no_value) in
      validated v o e (
        rw d (
          go (link v o x p c) h1 (free_pred p no_value) h' e refl (
            go (free_pred p no_value) h' (done no_value) (set_lock h' p false) e refl
              (arrived no_value head n (done no_value) (set_lock h' p false)))))

  pub put_present :
      (v : ℕ)
      → (h.key c == x) ≡ true
      → End (lock_pred (put v true) x p c) (set_lock h1 p false) (h.val c)
  unfolding exec
  put_present v d =
      let r = h.val c in
      let e : Nodes × Pc = (set_lock h1 p false, done r) in
      validated v true e (
        rw d (
          go (recheck v true x p c) h1 (peek x p c) h1 e (rw mc refl) (
            go (peek x p c) h1 (free_pred p r) h1 e refl (
              go (free_pred p r) h1 (done r) (set_lock h1 p false) e refl
                (arrived no_value head n (done r) (set_lock h1 p false))))))

  -- From here on both are locked.
  module _ (lc : h.lock c ≡ false) (ne : (p == c) ≡ false) (d : (h.key c == x) ≡ true) where
    abbrev pub h2 : Nodes
    h2 = set_lock h1 c true

    abbrev pub stored : ℕ → Nodes
    stored v = record h2 { val = update h2.val c v }

    abbrev pub marked_only : Nodes
    marked_only = record h2 { marked = update h2.marked c true }

    abbrev pub erased : Nodes
    erased = record marked_only { next = update h2.next p (h2.next c) }

    pub put_over : (v : ℕ) → End (lock_pred (put v false) x p c) (freed (stored v)) (h.val c)
    unfolding exec
    put_over v =
        let r = h.val c in
        let e : Nodes × Pc = (freed (stored v), done r) in
        validated v false e (
          rw d (
            go (recheck v false x p c) h1 (grab v x p c) h1 e (rw mc refl) (
              go (grab v x p c) h1 (fetch v x p c) h2 e (rw (ne, lc) refl) (
                go (fetch v x p c) h2 (store v x p c r) h2 e refl (
                  go (store v x p c r) h2 (free_curr p c r) (stored v) e refl
                    (free_both (stored v) r))))))

    pub erase_present : End (lock_pred del x p c) (freed erased) (h.val c)
    unfolding exec
    erase_present =
        let r = h.val c in
        let next = h.next c in
        let e : Nodes × Pc = (freed erased, done r) in
        go (lock_pred del x p c) h (lock_curr x p c) h1 e (rw lp refl) (
          go (lock_curr x p c) h1 (test_pred del x p c) h2 e (rw (ne, lc) refl) (
            go (test_pred del x p c) h2 (test_curr del x p c) h2 e (rw mp refl) (
              go (test_curr del x p c) h2 (test_link del x p c) h2 e (rw mc refl) (
                go (test_link del x p c) h2 (take x p c) h2 e (rw to_c refl) (
                  go (take x p c) h2 (after x p c r) h2 e refl (
                    go (after x p c r) h2 (mark x p c r next) h2 e refl (
                      go (mark x p c r next) h2 (unlink p c r next) marked_only e refl (
                        go (unlink p c r next) marked_only (free_curr p c r) erased e refl
                          (free_both erased r)))))))))
