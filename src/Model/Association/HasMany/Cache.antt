-- ===== src/Model/Association/HasMany/Cache.antt =====
-- The cache of an association follows the children that are appended through it.
use seekwel.Prelude.{
  ◌≡◌, refl, ap, ◌∙◌, Option, none, some, List, [], ◌∷◌, ◌++◌, append_assoc, append-nil,
}
use seekwel.Errors.{Result, ok, err}
use seekwel.Connection.Value.{Value}
use seekwel.Connection.Transaction.{World}
use seekwel.Connection.Act.{Sqlite}
use seekwel.Query.Plan.{ModelInfo}
use seekwel.Model.Association.HasMany.{
  HasMany, append, after_append, push_cached, load, load_with, after_load,
}

-- What an append returned, if it did return a child.
success : {S Child : Type 0} → Option (Result S Child) → List Child
success (some (ok child)) = child ∷ []
success (some (err e)) = []
success none = []

module _ {S V D Child Builder : Type 0} where
  -- Appends one after the other, whether or not each succeeds: the children that they return, and
  -- what they leave.
  unfoldable pub append_each :
      List Builder
      → HasMany S V D Child Builder
      → World D
      → List Child × World D × HasMany S V D Child Builder
  unfolding success
  append_each [] h w = ([], w, h)
  append_each (b ∷ bs) h w =
      let (r, w', h') = append b h w in
      let (children, end, left) = append_each bs h' w' in (success r ++ children, end, left)

  after_append-cached :
      (h : HasMany S V D Child Builder) (r : Option (Result S Child) × World D)
      (children : List Child)
      → h.cached ≡ some children
      → (after_append h r).2.cached ≡ some (children ++ success (after_append h r).0)
  unfolding after_append push_cached success
  after_append-cached h (some (ok child), w) children e = rw e refl
  after_append-cached h (some (err x), w) children e = rw (append-nil children) e
  after_append-cached h (none, w) children e = rw (append-nil children) e

  append_each-cached :
      (bs : List Builder) (h : HasMany S V D Child Builder) (w : World D) (children : List Child)
      → h.cached ≡ some children
      → (append_each bs h w).2.cached ≡ some (children ++ (append_each bs h w).0)
  unfolding append_each append
  append_each-cached [] h w children e = rw (append-nil children) e
  append_each-cached (b ∷ bs) h w children e =
      let (r, w', h') = append b h w in
      append_each-cached bs h' w' (children ++ success r) (after_append-cached h _ children e)
      ∙ ap some (append_assoc children (success r) (append_each bs h' w').0)

module _ {S R Row D Child Builder : Type 0} (sqlite : Sqlite S R Row D) (model : ModelInfo)
    (from_row : Row → Result S Child) where
  load-cached :
      (h : HasMany S (Value R) D Child Builder) (w : World D) (children : List Child)
      → h.cached ≡ some children
      → load sqlite model from_row h w ≡ (some (ok children), w, h)
  unfolding load load_with
  load-cached h w children e = rw e refl

  after_load-ok :
      (h : HasMany S (Value R) D Child Builder) (r : Option (Result S (List Child)) × World D)
      (children : List Child)
      → (after_load sqlite model from_row h r).0 ≡ some (ok children)
      → (after_load sqlite model from_row h r).2.cached ≡ some children
  unfolding after_load
  after_load-ok h (some (ok xs), w) children e = cc
  after_load-ok h (some (err x), w) children e = cc
  after_load-ok h (none, w) children e = cc

  load_with-ok :
      (c : Option (List Child)) (h : HasMany S (Value R) D Child Builder) (w : World D)
      (children : List Child)
      → h.cached ≡ c
      → (load_with sqlite model from_row c h w).0 ≡ some (ok children)
      → (load_with sqlite model from_row c h w).2.cached ≡ some children
  unfolding load_with
  load_with-ok (some xs) h w children k e = cc
  load_with-ok none h w children k e = after_load-ok h _ children e

  load-ok :
      (h : HasMany S (Value R) D Child Builder) (w : World D) (children : List Child)
      → (load sqlite model from_row h w).0 ≡ some (ok children)
      → (load sqlite model from_row h w).2.cached ≡ some children
  unfolding load
  load-ok h w children e = load_with-ok h.cached h w children refl e

  -- After a load that returned children, and then appends of which each may fail, a load runs no
  -- statement, changes nothing, and returns those children with the appended ones behind them.
  pub load-append_each :
      (bs : List Builder) (h : HasMany S (Value R) D Child Builder) (w : World D)
      (children : List Child)
      → (load sqlite model from_row h w).0 ≡ some (ok children)
      → let loaded = load sqlite model from_row h w in
        let appended = append_each bs loaded.2 loaded.1 in
        load sqlite model from_row appended.2 appended.1
        ≡ (some (ok (children ++ appended.0)), appended.1, appended.2)
  load-append_each bs h w children e =
      let loaded = load sqlite model from_row h w in
      load-cached (append_each bs loaded.2 loaded.1).2 (append_each bs loaded.2 loaded.1).1
        (children ++ (append_each bs loaded.2 loaded.1).0)
        (append_each-cached bs loaded.2 loaded.1 children (load-ok h w children e))
