-- ===== src/Storage/Hashes/Sets.antt =====
-- The hashes of a list of snapshots.
use rpglot.Prelude.{
  ℕ, zero, suc, true, some, List, [], ◌∷◌, ◌++◌, ◌≡◌, ◌⊎◌, inl, inr, arith, get_elem?,
}
use rpglot.Model.Snapshot.{Snapshot}
use rpglot.Storage.Hashes.{contains, insert_each}

contains-append :
    (a b : List ℕ) (hash : ℕ)
    → (contains a hash ≡ true) ⊎ (contains b hash ≡ true)
    → contains (a ++ b) hash ≡ true
unfolding contains
contains-append [] b hash h = ground arith
contains-append (x ∷ a) b hash h = ground (arith, contains-append a b hash)

-- The hashes of one item are among those of all.
pub contains-insert_each :
    (f : Snapshot → List ℕ) (items : List Snapshot) (i hash : ℕ) (s : Snapshot)
    → get_elem? items i ≡ some s
    → contains (f s) hash ≡ true
    → contains (insert_each f items) hash ≡ true
unfolding insert_each
contains-insert_each f [] i hash s h used = cc
contains-insert_each f (a ∷ items) zero hash s h used =
    contains-append (f a) (insert_each f items) hash (inl (ground arith))
contains-insert_each f (a ∷ items) (suc i) hash s h used =
    contains-append (f a) (insert_each f items) hash
      (inr (contains-insert_each f items i hash s h used))
