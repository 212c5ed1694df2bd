-- ===== src/Store/Save/Order.antt =====
-- internal/store/store.go: the orders in which two saves read and write.
use homelab_homepage.Prelude.{ℕ, ◌≡◌, refl, arith, nat_eq, ℕ_discrete}
use homelab_homepage.Store.Save.{
  File, whole, outside, Saving, quiet, Reach, update, marshal, lock, write_tmp, rename, here, next,
}

module _ {D : Type 0} (Valid : D → Type 0) where
  -- From data that is saved by two goroutines with an update to valid data between, there is a run
  -- after which both saves are over, the data is the new one, and the disk has the whole text of
  -- the old one.
  pub stale_save :
      (old new : D) (file : File D)
      → Valid new
      → (t : Saving D) × Reach Valid (quiet old file) t
        × (t.current ≡ new)
        × (t.disk ≡ whole old)
        × ((i : ℕ) → t.stage i ≡ outside)
  unfolding ℕ_discrete
  stale_save old new file ok = (
    _,
    next
        (next
          (next
            (next
              (next
                (next (next (next (next here (marshal 0 refl)) (update new ok)) (marshal 1 refl))
                  (lock 1 new refl refl))
                (write_tmp 1 new refl))
              (rename 1 new refl))
            (lock 0 old refl refl))
          (write_tmp 0 old refl))
        (rename 0 old refl),
    refl,
    refl,
    λ i. ground arith,
  )
