-- ===== src/Lock/FavorReaders/Laws.antt =====
-- The word of the lock counts readers and writers, and what follows from that.
use vcaslib.Common.{
  ℕ, ◌+◌, ◌*◌, ◌≤◌, ◌<◌, ◌≡◌, ◌≢◌, ◌⊎◌, refl, inl, inr, update, Bool-cases, arith, ap, ltb,
}
use vcaslib.Lock.{is_write_locked, is_read_locked, is_locked}
use vcaslib.Lock.Tally.{
  tally, tally-update, tally-one, tally-two, tally-zero, tally_mono, tally-bound,
}
use vcaslib.Lock.FavorReaders.{
  Pc, exec, System, begin, Step, Reach, access, here, idle, next, read_lock, read_unlock,
  reader_add, reader_release, reader_wait, reading, write_lock, write_unlock, writer_cas,
  writer_release, writer_wait, writing,
}

-- Who is counted in the word as a reader, who has the lock for reading, and who for writing.
abbrev pub announced : Pc → ℕ
announced reader_wait = 1
announced reading = 1
announced reader_release = 1
announced _ = 0

abbrev pub reads : Pc → ℕ
reads reading = 1
reads reader_release = 1
reads _ = 0

abbrev pub writes : Pc → ℕ
writes writing = 1
writes writer_release = 1
writes _ = 0

reads-le : (p : Pc) → reads p ≤ announced p
reads-le reading = omega arith
reads-le reader_release = omega arith
reads-le _ = omega arith

writes-le : (p : Pc) → writes p ≤ 1
writes-le writing = omega arith
writes-le writer_release = omega arith
writes-le _ = omega arith

announced-le : (p : Pc) → announced p ≤ 1
announced-le reader_wait = omega arith
announced-le reading = omega arith
announced-le reader_release = omega arith
announced-le _ = omega arith

-- The word counts the announced readers and the writer; a writer excludes readers.
abbrev Counts : (lock r h w : ℕ) → Type 0
Counts lock r h w = (lock ≡ 2 * r + w) × (w ≤ 1) × ((w ≡ 0) ⊎ (h ≡ 0))

exec-Counts :
    (p : Pc) {lock r h w : ℕ} (r' h' w' : ℕ)
    → Counts lock r h w
    → h ≤ r
    → announced p ≤ r
    → writes p ≤ w
    → r' + announced p ≡ r + announced (exec p lock).1
    → h' + reads p ≡ h + reads (exec p lock).1
    → w' + writes p ≡ w + writes (exec p lock).1
    → Counts (exec p lock).0 r' h' w'
unfolding exec is_write_locked is_locked
exec-Counts idle r' h' w' c l a b d e f = ground arith
exec-Counts reader_add r' h' w' c l a b d e f = ground arith
exec-Counts reader_wait r' h' w' c l a b d e f = ground arith
exec-Counts reading r' h' w' c l a b d e f = ground arith
exec-Counts reader_release r' h' w' c l a b d e f = ground arith
exec-Counts writer_wait r' h' w' c l a b d e f = ground arith
exec-Counts writer_cas r' h' w' c l a b d e f = ground arith
exec-Counts writing r' h' w' c l a b d e f = ground arith
exec-Counts writer_release r' h' w' c l a b d e f = ground arith

module _ (size : ℕ) where
  abbrev Inv : System → Type 0
  Inv s = Counts s.lock (tally announced s.pc size) (tally reads s.pc size) (tally writes s.pc size)

  begin-Inv :
      (s : System) (i : ℕ) (p q : Pc)
      → i < size
      → s.pc i ≡ p
      → announced q ≡ announced p
      → reads q ≡ reads p
      → writes q ≡ writes p
      → Inv s
      → Inv (begin s i q)
  begin-Inv s i p q l z a b c h =
      let a' : tally announced (update s.pc i q) size ≡ tally announced s.pc size =
        omega (arith, tally-update announced s.pc i size q l, a, ap announced z) in
      let b' : tally reads (update s.pc i q) size ≡ tally reads s.pc size =
        omega (arith, tally-update reads s.pc i size q l, b, ap reads z) in
      let c' : tally writes (update s.pc i q) size ≡ tally writes s.pc size =
        omega (arith, tally-update writes s.pc i size q l, c, ap writes z) in
      rw (a', b', c') h

  Step-Inv : {s t : System} → Step size s t → Inv s → Inv t
  Step-Inv {s} (access i l) h =
      exec-Counts (s.pc i) _ _ _ h (tally_mono reads s.pc announced size reads-le)
        (tally-one announced s.pc i size l) (tally-one writes s.pc i size l)
        (tally-update announced s.pc i size _ l) (tally-update reads s.pc i size _ l)
        (tally-update writes s.pc i size _ l)
  Step-Inv {s} (read_lock i l e) h = begin-Inv s i idle reader_add l e refl refl refl h
  Step-Inv {s} (read_unlock i l e) h = begin-Inv s i reading reader_release l e refl refl refl h
  Step-Inv {s} (write_lock i l e) h = begin-Inv s i idle writer_wait l e refl refl refl h
  Step-Inv {s} (write_unlock i l e) h = begin-Inv s i writing writer_release l e refl refl refl h

  Reach-Inv : {s : System} → Reach size s → Inv s
  Reach-Inv here =
      let a = tally-zero announced (λ _. idle) size (λ i. refl) in
      let b = tally-zero reads (λ _. idle) size (λ i. refl) in
      let c = tally-zero writes (λ _. idle) size (λ i. refl) in
      rw (a, b, c) (refl, omega arith, inl refl)
  Reach-Inv (next r st) = Step-Inv st (Reach-Inv r)

  -- In every reachable state, a thread that has the lock for writing is the only one that has the
  -- lock: no other thread has it, for writing or for reading.
  pub readers_exclusive :
      {s : System}
      → Reach size s
      → (i j : ℕ) → i < size
      → j < size
      → i ≢ j
      → s.pc i ≡ writing
      → (s.pc j ≢ writing) × (s.pc j ≢ reading)
  readers_exclusive {s} r i j l k ne e = (
    λ d. omega (arith, (Reach-Inv r).1, both d, ap writes d),
    λ d. ground (arith, (Reach-Inv r).2, one, tally-one reads s.pc j size k, ap reads d),
  )
    where
      one : 1 ≤ tally writes s.pc size
      one = omega (arith, tally-one writes s.pc i size l, ap writes e)

      both : s.pc j ≡ writing → 2 ≤ tally writes s.pc size
      both d = elim (Bool-cases (ltb i j)) [
        | inl t ↦
            omega (arith, tally-two writes s.pc i j size (ground arith) k, ap writes e, ap writes d)
        | inr t ↦
            omega (arith, tally-two writes s.pc j i size (ground arith) l, ap writes e, ap writes d)
      ]

  -- In every reachable state, the tests of the lock's word are right: `isReadLocked` holds exactly
  -- if some thread has announced itself as a reader, `isWriteLocked` if one has the lock for
  -- writing, and the word is at most twice the number of threads and one more.
  pub readers_word :
      {s : System}
      → Reach size s
      → (is_read_locked s.lock ≡ ltb 0 (tally announced s.pc size))
        × (is_write_locked s.lock ≡ ltb 0 (tally writes s.pc size))
        × (s.lock ≤ 2 * size + 1)
  unfolding is_read_locked is_write_locked
  readers_word {s} r =
      let h = Reach-Inv r in
      let b = tally-bound announced s.pc size announced-le in
      (ground arith, ground arith, omega (arith, h.0, h.1))
