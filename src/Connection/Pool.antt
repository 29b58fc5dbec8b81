-- ===== src/Connection/Pool.antt =====
-- The pool of readers in src/connection.rs. A thread holds the pool's lock for one step: an attempt to
-- take a connection, or the return of one. `conns` has the connection that `pop` takes first.
pub mod Laws
use seekwel.Prelude.{
  ℕ, zero, suc, ◌+◌, ◌≡◌, Bool, true, false, Option, none, some, List, [], ◌∷◌, ◌++◌, Text, codes,
}
use seekwel.Errors.{Result, ok, err, ◌>>=◌}

-- `sleeping` threads are inside `Condvar::wait`; `awake` threads were woken, and have not run yet.
-- `held` are the connections that are checked out.
pub record ReaderPool (Conn : Type 0) : Type 0 where
  pub conns : List Conn
  pub held : List Conn
  pub sleeping : ℕ
  pub awake : ℕ

module _ {Conn : Type 0} where
  -- One round of the loop in `checkout`: `pop`, or `wait` where there is nothing to pop.
  unfoldable pub attempt : ReaderPool Conn → ReaderPool Conn
  attempt p = elim p.conns [
    | [] ↦ record p { sleeping = p.sleeping + 1 }
    | conn ∷ rest ↦ record p { conns = rest; held = conn ∷ p.held }
  ]

  -- `notify_one`
  notify_one : ReaderPool Conn → ReaderPool Conn
  notify_one p = elim p.sleeping [
    | zero ↦ p
    | suc n ↦ record p { sleeping = n; awake = p.awake + 1 }
  ]

  -- `drop` of the checkout that holds `conn`, where `others` are held besides.
  unfoldable pub give_back : Conn → List Conn → ReaderPool Conn → ReaderPool Conn
  unfolding notify_one
  give_back conn others p = notify_one (record p { conns = conn ∷ p.conns; held = others })

  -- A step of one thread. A thread in `wait` may wake without a notification.
  pub data Step (p : ReaderPool Conn) : ReaderPool Conn → Type 0 where
    checkout : Step p (attempt p)
    resume : {n : ℕ} → p.awake ≡ suc n → Step p (attempt (record p { awake = n }))
    wake : {n : ℕ} → p.sleeping ≡ suc n → Step p (record p { sleeping = n; awake = p.awake + 1 })
    drop :
        (conn : Conn) (before after : List Conn)
        → p.held ≡ before ++ conn ∷ after
        → Step p (give_back conn (before ++ after) p)

  -- The pool after any number of steps.
  pub data Reachable (start : ReaderPool Conn) : ReaderPool Conn → Type 0 where
    here : Reachable start start
    step : {p q : ReaderPool Conn} → Reachable start p → Step p q → Reachable start q

  -- The pool with these connections, before any checkout.
  abbrev pub full : List Conn → ReaderPool Conn
  full conns = record { conns = conns; held = []; sleeping = 0; awake = 0 }

-- `ReaderPool::file`: it opens the readers one after the other, each by `open` and
-- `configure_file_reader`. The last one is the first to be popped.
unfoldable pub open_readers :
    {S Conn : Type 0}
    → (ℕ → Result S Conn)
    → (Conn → Result S (Unit {0}))
    → ℕ
    → Result S (List Conn)
open_readers open_reader configure zero = ok []
open_readers open_reader configure (suc n) = do
  conns ← open_readers open_reader configure n
  conn ← open_reader n
  configured ← configure conn
  ok (conn ∷ conns)

abbrev pub default_file_readers : ℕ
default_file_readers = 4

unfoldable pub pool_file :
    {S Conn : Type 0}
    → (ℕ → Result S Conn)
    → (Conn → Result S (Unit {0}))
    → ℕ
    → Result S (ReaderPool Conn)
pool_file open_reader configure count =
    open_readers open_reader configure count >>= λ conns. ok (full conns)
