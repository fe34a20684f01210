-- ===== src/Rq/Interleaved/Updates.antt =====
-- What an update does to the history of its address, and that no operation follows NULL.
use vcaslib.Common.{
  ℕ, ◌≡◌, ◌≢◌, ◌⊎◌, refl, ◌∙◌, true, false, List, [], ◌∷◌, inl, inr, subst, has, update, ◌==◌,
  Bool-cases, ==→≡, ap, arith,
}
use vcaslib.Rq.{Ptr, Addr, null, tbd, Mem, is_tbd, init_node}
use vcaslib.Rq.Sequential.{write_addr}
use vcaslib.Rq.Interleaved.{Pc, idle, update_cas, update_reload, init_test, init_cas, exec}
use vcaslib.Rq.Interleaved.Machine.{
  World, System, after, Step, access, open_null, open_new, open_shared, make_node, call_update,
  call_read, call_read_version, call_snapshot, Reach,
}
use vcaslib.Rq.Interleaved.History.{Linked, Stamps, has-ne-null}
use vcaslib.Rq.Interleaved.Inv.{Good, Base}
use vcaslib.Rq.Interleaved.Keeps.{Reach-Inv, unstamped, field-has}

-- What an access does to one address.
abbrev pub Same : World → World → Addr → Type 0
Same w v a = (v.mem.field a ≡ w.mem.field a) × (v.hist a ≡ w.hist a)

abbrev pub Swapped : World → World → Pc → Addr → Type 0
Swapped w v p a =
    (new : Ptr) × (p ≡ update_cas a (w.mem.field a) new)
    × (w.mem.ts new ≡ tbd)
    × (v.mem.field a ≡ new)
    × (v.hist a ≡ new ∷ w.hist a)

exec-field :
    (p : Pc) (w : World) (a : Addr)
    → Base w
    → Good w p
    → Same w (after p w) a ⊎ Swapped w (after p w) p a
unfolding exec
exec-field (update_cas b old new) w a h g = elim (Bool-cases (w.mem.field b == old)) [
  | inl e ↦ elim (Bool-cases (b == a)) [
    | inl d ↦ inr (
      new,
      ground arith,
      subst (λ c. w.mem.ts c ≡ tbd) refl (unstamped w h b old new g.0 g.1 g.2 (==→≡ _ _ e)),
      rw (e, d) refl,
      rw (e, d) (ap (λ c. new ∷ w.hist c) (==→≡ b a d)),
    )
    | inr d ↦ inl (rw (e, d) refl, rw (e, d) refl)
  ]
  | inr e ↦ inl (rw e refl, rw e refl)
]
exec-field (init_cas b p cur k) w a h g = elim (Bool-cases (is_tbd (w.mem.ts p))) [
  | inl e ↦ inl (rw e refl, refl)
  | inr e ↦ inl (rw e refl, refl)
]
exec-field idle w a h g = inl (refl, refl)
exec-field _ w a h g = inl (refl, refl)

write-field-other :
    (m : Mem) (a b : Addr) (p : Ptr) → (b == a) ≡ false → (write_addr m b p).field a ≡ m.field a
unfolding write_addr
write-field-other m a b p e = ground arith

write-field-null : (m : Mem) (a b : Addr) → (write_addr m b null).field a ≡ update m.field b null a
unfolding write_addr
write-field-null m a b = refl

-- Updates are atomic: a step of a reachable state leaves an address and its history as they are, or
-- it is the compare-and-swap of a thread whose expected value the address holds; that one puts the
-- thread's node, which has no stamp yet, into the address and on top of the history. The addresses
-- are those that have had their first write.
pub update_atomic :
    {s t : System}
    → Reach s
    → Step s t
    → (a : Addr) → s.opened a ≡ true
    → Same s.world t.world a ⊎ ((i : ℕ) × Swapped s.world t.world (s.pc i) a)
update_atomic {s} r (access i) a o =
    elim (exec-field (s.pc i) s.world a (Reach-Inv r).base ((Reach-Inv r).threads i)) [
      | inl h ↦ inl h
      | inr h ↦ inr (i, h)
    ]
update_atomic {s} r (open_null b c) a o =
    let e : (b == a) ≡ false = ground arith in inl (write-field-other s.mem a b null e, refl)
update_atomic {s} r (open_new b p c ne g) a o =
    let e : (b == a) ≡ false = ground arith in
    inl (write-field-other (init_node s.mem p) a b p e ∙ unfold init_node in refl, rw e refl)
update_atomic {s} r (open_shared b d p n c i g) a o =
    let e : (b == a) ≡ false = ground arith in inl (write-field-other s.mem a b p e, rw e refl)
update_atomic r (make_node p b old c ne g) a o = inl (unfold init_node in refl, refl)
update_atomic r (call_update i b old new g) a o = inl (refl, refl)
update_atomic r (call_read i b) a o = inl (refl, refl)
update_atomic r (call_read_version i b u c l) a o = inl (refl, refl)
update_atomic r (call_snapshot i) a o = inl (refl, refl)

-- In every reachable state, each history is a version list: the address and the `nextv` fields lead
-- through it to NULL, its newest node alone may be without a stamp, and the stamps do not rise from
-- a node to the one before it and do not exceed the clock.
pub hist-sorted :
    {s : System}
    → Reach s
    → (a : Addr)
    → Linked s.mem.nextv (s.mem.field a) (s.hist a) × Stamps s.mem.ts s.mem.timestamp (s.hist a)
hist-sorted r a = ((Reach-Inv r).base.linked a, (Reach-Inv r).base.stamps a)

-- The pointer that the next access of a thread follows inside `initTS`.
abbrev follows : System → Pc → List Ptr
follows s (init_test a p k) = p ∷ []
follows s (init_cas a p cur k) = p ∷ []
follows s (update_reload a) = s.mem.field a ∷ []
follows s idle = []
follows s _ = []

-- In every reachable state, `initTS` is not called with NULL: neither where the code has tested its
-- argument, nor after a compare-and-swap that failed, where it has not.
pub init_ts-ne-null :
    {s : System} → Reach s → (i : ℕ) {p : Ptr} → follows s (s.pc i) ≡ p ∷ [] → p ≢ null
init_ts-ne-null {s} r i {p} e = go (s.pc i) ((Reach-Inv r).threads i) e
  where
    real : (a : Addr) (q : Ptr) → has q (s.hist a) ≡ true → q ≢ null
    real a q = has-ne-null s.mem.nextv (s.mem.field a) q (s.hist a) ((Reach-Inv r).base.linked a)

    go : (q : Pc) → Good s.world q → follows s q ≡ p ∷ [] → p ≢ null
    go (init_test a q k) g d = subst (λ x. x ≢ null) (cc) (real a q g.0)
    go (init_cas a q cur k) g d = subst (λ x. x ≢ null) (cc) (real a q g.0)
    go (update_reload a) g d =
        subst (λ x. x ≢ null) (cc)
          (real a (s.mem.field a) (field-has s.world (Reach-Inv r).base a g.0 g.1))
    go idle g d = cc
    go _ g d = cc
