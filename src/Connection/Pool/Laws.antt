-- ===== src/Connection/Pool/Laws.antt =====
-- No reader is lost, none is handed out twice, and no wake-up is lost.
use seekwel.Prelude.{
  ℕ, zero, suc, ◌≤◌, ◌≡◌, refl, ap, sym, subst, ◌⊎◌, inl, inr, List, [], ◌∷◌, ◌++◌, length,
  append_assoc, append-nil, arith,
}
use mathlib.Core.List.{Perm, perm_middle}
use mathlib.Core.List.Perm
use seekwel.Connection.Pool.{
  ReaderPool, attempt, notify_one, give_back, Step, checkout, resume, wake, drop, Reachable, here,
  step, full,
}

module _ {Conn : Type 0} where
  -- Every connection is idle or checked out, exactly once, and while a thread sleeps, each idle
  -- connection has a thread that was woken and will try to take one.
  pub record IsFair (conns : List Conn) (p : ReaderPool Conn) : Type 0 where
    pub all_there : Perm (p.conns ++ p.held) conns
    pub woken : (p.sleeping ≡ 0) ⊎ (length p.conns ≤ p.awake)

  -- The same, where the idle connections may outnumber the woken threads by one, that runs.
  record IsRunning (conns : List Conn) (p : ReaderPool Conn) : Type 0 where
    all_there : Perm (p.conns ++ p.held) conns
    woken : (p.sleeping ≡ 0) ⊎ (length p.conns ≤ suc p.awake)

  attempt-IsFair :
      (cs conns held : List Conn) (s a : ℕ)
      → IsRunning cs (record { conns = conns; held = held; sleeping = s; awake = a })
      → IsFair cs (attempt (record { conns = conns; held = held; sleeping = s; awake = a }))
  unfolding attempt
  attempt-IsFair cs [] held s a h = record { all_there = h.all_there; woken = inr (omega arith) }
  attempt-IsFair cs (c ∷ rest) held s a h = record {
    all_there = Perm.trans (perm_middle rest held) h.all_there;
    woken = ground arith;
  }

  -- The connection that comes back, moved from the middle of the held ones to the front.
  returned :
      (cs conns before after : List Conn) (c : Conn)
      → Perm (conns ++ (before ++ c ∷ after)) cs
      → Perm (c ∷ conns ++ (before ++ after)) cs
  returned cs conns before after c h =
      let moved = perm_middle {a = c} (conns ++ before) after in
      let left =
        subst (λ l. Perm l (c ∷ ((conns ++ before) ++ after)))
          (append_assoc conns before (c ∷ after)) moved in
      let both =
        subst (λ l. Perm (conns ++ (before ++ c ∷ after)) (c ∷ l)) (append_assoc conns before after)
          left in
      Perm.trans (Perm.symm both) h

  notify_one-IsFair :
      (cs conns held : List Conn) (s a : ℕ)
      → Perm (conns ++ held) cs
      → (s ≡ 0) ⊎ (length conns ≤ suc a)
      → IsFair cs (notify_one (record { conns = conns; held = held; sleeping = s; awake = a }))
  unfolding notify_one
  notify_one-IsFair cs conns held zero a h k = record { all_there = h; woken = inl refl }
  notify_one-IsFair cs conns held (suc s) a h k = record {
    all_there = h;
    woken = inr (ground arith);
  }

  give_back-IsFair :
      (cs : List Conn) (c : Conn) (before after : List Conn) (p : ReaderPool Conn)
      → p.held ≡ before ++ c ∷ after
      → IsFair cs p
      → IsFair cs (give_back c (before ++ after) p)
  unfolding give_back
  give_back-IsFair cs c before after p e h =
      notify_one-IsFair cs (c ∷ p.conns) (before ++ after) p.sleeping p.awake
        (returned cs p.conns before after c (subst (λ l. Perm (p.conns ++ l) cs) e h.all_there))
        (ground (arith, h.woken))

  Step-IsFair : (cs : List Conn) {p q : ReaderPool Conn} → Step p q → IsFair cs p → IsFair cs q
  Step-IsFair cs {p} checkout h =
      attempt-IsFair cs p.conns p.held p.sleeping p.awake
        (record { all_there = h.all_there; woken = ground (arith, h.woken) })
  Step-IsFair cs {p} (resume {n} e) h =
      attempt-IsFair cs p.conns p.held p.sleeping n
        (record { all_there = h.all_there; woken = ground (arith, h.woken) })
  Step-IsFair cs {p} (wake {n} e) h = record {
    all_there = h.all_there;
    woken = ground (arith, h.woken);
  }
  Step-IsFair cs {p} (drop c before after e) h = give_back-IsFair cs c before after p e h

  -- From a pool with these connections, every pool that steps lead to is fair: each connection is
  -- idle or checked out, exactly once, and while a thread sleeps each idle connection has a thread
  -- that was woken and will try to take one.
  pub Reachable-IsFair :
      (cs : List Conn) {p : ReaderPool Conn} → Reachable (full cs) p → IsFair cs p
  Reachable-IsFair cs here = record {
    all_there = subst (λ l. Perm l cs) (sym (append-nil cs)) (Perm.refl cs);
    woken = inl refl;
  }
  Reachable-IsFair cs (step r s) = Step-IsFair cs s (Reachable-IsFair cs r)

  -- The pool after a return and the step of the thread that it wakes.
  abbrev pub handed_over : Conn → List Conn → ℕ → ReaderPool Conn → ReaderPool Conn
  handed_over c others n p = record p { held = c ∷ others; sleeping = n }

  no_idle : (conns : List Conn) (a : ℕ) → length conns ≤ a → a ≡ 0 → conns ≡ []
  no_idle [] a h e = refl
  no_idle (c ∷ conns) a h e = absurd (omega arith)

  -- In a pool that steps lead to, where a thread sleeps and no woken thread is left to run, no
  -- connection is idle. The return of any that is checked out leaves it idle with one thread less
  -- asleep and that thread woken, and the step of the woken thread checks the connection out.
  pub sleeper_served :
      (cs conns before after : List Conn) (c : Conn) (n : ℕ)
      → let p : ReaderPool Conn = record {
        conns = conns;
        held = before ++ c ∷ after;
        sleeping = suc n;
        awake = 0;
      } in
        let others = before ++ after in
        Reachable (full cs) p
        → (conns ≡ [])
          × (give_back c others p
              ≡ record { conns = c ∷ []; held = others; sleeping = n; awake = 1 })
          × (attempt (record (give_back c others p) { awake = 0 }) ≡ handed_over c others n p)
          × Step (give_back c others p) (handed_over c others n p)
  unfolding give_back notify_one attempt
  sleeper_served cs conns before after c n r =
      let none_left = no_idle conns 0 (ground (arith, (Reachable-IsFair cs r).woken)) refl in
      (
        none_left,
        ap
            (λ (l : List Conn).
              let q : ReaderPool Conn = record {
                conns = c ∷ l;
                held = before ++ after;
                sleeping = n;
                awake = 1;
              } in
              q)
            none_left,
        refl,
        resume {n = 0} refl,
      )
