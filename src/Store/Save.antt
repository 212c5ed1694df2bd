-- ===== src/Store/Save.antt =====
-- `Save` of internal/store/store.go, run by several goroutines at once. A save reads the data under
-- the lock of the store, and writes the file under a lock of its own: `config.json.tmp` first, and
-- then a rename. The data is any type `D`; a marshalled text stands for the data it was made of.
pub mod Order
use homelab_homepage.Prelude.{
  ℕ, ◌≡◌, refl, Option, none, some, arith, ◌==◌, nat_eq, if◌then◌else◌, ◌⊎◌, inl, inr,
}

-- A file that is being written is torn until the write is complete.
pub data File (D : Type 0) : Type 0 where
  absent torn : File D
  whole : D → File D

-- Where a goroutine stands in `Save`.
pub data Stage (D : Type 0) : Type 0 where
  outside : Stage D
  marshalled : D → Stage D
  writing : D → Stage D
  written : D → Stage D

-- `current` is s.d, `tmp` and `disk` are the two files; `holder` has saveMu.
pub record Saving (D : Type 0) : Type 0 where
  pub current : D
  pub tmp : File D
  pub disk : File D
  pub holder : Option ℕ
  pub stage : ℕ → Stage D

abbrev pub at_stage : {D : Type 0} → ℕ → Stage D → (ℕ → Stage D) → ℕ → Stage D
at_stage i s f j = if i == j then s else f j

-- All goroutines are outside of `Save`.
abbrev pub quiet : {D : Type 0} → D → File D → Saving D
quiet d file = record {
  current = d;
  tmp = absent;
  disk = file;
  holder = none;
  stage = λ _. outside;
}

-- The updates of the store write data that meets `Valid`.
module _ {D : Type 0} (Valid : D → Type 0) where
  -- One step of one goroutine. A write or rename that fails gives up the lock.
  pub data Step (s : Saving D) : Saving D → Type 0 where
    update : (d : D) → Valid d → Step s (record s { current = d })
    marshal :
        (i : ℕ)
        → s.stage i ≡ outside
        → Step s (record s { stage = at_stage i (marshalled s.current) s.stage })
    lock :
        (i : ℕ) (d : D)
        → s.stage i ≡ marshalled d
        → s.holder ≡ none
        → Step s (record s { holder = some i; stage = at_stage i (writing d) s.stage })
    open_tmp : (i : ℕ) (d : D) → s.stage i ≡ writing d → Step s (record s { tmp = torn })
    write_tmp :
        (i : ℕ) (d : D)
        → s.stage i ≡ writing d
        → Step s (record s { tmp = whole d; stage = at_stage i (written d) s.stage })
    write_fails :
        (i : ℕ) (d : D)
        → s.stage i ≡ writing d
        → Step s (record s { holder = none; stage = at_stage i outside s.stage })
    rename :
        (i : ℕ) (d : D)
        → s.stage i ≡ written d
        → Step s (record s {
          tmp = absent;
          disk = s.tmp;
          holder = none;
          stage = at_stage i outside s.stage;
        })
    rename_fails :
        (i : ℕ) (d : D)
        → s.stage i ≡ written d
        → Step s (record s { holder = none; stage = at_stage i outside s.stage })

  pub data Reach (s : Saving D) : Saving D → Type 0 where
    here : Reach s s
    next : {t u : Saving D} → Reach s t → Step t u → Reach s u

  -- The data that a goroutine carries through `Save`.
  abbrev Carries : Stage D → Type 0
  Carries outside = Unit
  Carries (marshalled d) = Valid d
  Carries (writing d) = Valid d
  Carries (written d) = Valid d

  -- The file is the one of the start, or a complete text of valid data.
  abbrev pub IsWhole : File D → File D → Type 0
  IsWhole first file = (file ≡ first) ⊎ ((d : D) × (file ≡ whole d) × Valid d)

  -- A goroutine inside the locked part is the holder, and after its write the temporary file has
  -- what it marshalled.
  record IsLocked (first : File D) (s : Saving D) : Type 0 where
    valid : Valid s.current
    carries : (i : ℕ) → Carries (s.stage i)
    writers : (i : ℕ) (d : D) → s.stage i ≡ writing d → s.holder ≡ some i
    renamers : (i : ℕ) (d : D) → s.stage i ≡ written d → (s.holder ≡ some i) × (s.tmp ≡ whole d)
    on_disk : IsWhole first s.disk

  carried :
      (first : File D) (s : Saving D) (i : ℕ) (st : Stage D)
      → IsLocked first s
      → s.stage i ≡ st
      → Carries st
  carried first s i st v e = rw (← e) (v.carries i)

  at_stage-Carries :
      (i : ℕ) (st : Stage D) (f : ℕ → Stage D)
      → Carries st
      → ((j : ℕ) → Carries (f j))
      → (j : ℕ) → Carries (at_stage i st f j)
  at_stage-Carries i st f h k j = ground (arith, h, k j)

  Step-IsLocked : {first : File D} {s t : Saving D} → IsLocked first s → Step s t → IsLocked first t
  Step-IsLocked {first} {s} v (update d ok) = record {
    valid = ok;
    carries = v.carries;
    writers = v.writers;
    renamers = v.renamers;
    on_disk = v.on_disk;
  }
  Step-IsLocked {first} {s} v (marshal i e) = record {
    valid = v.valid;
    carries = at_stage-Carries i _ _ v.valid v.carries;
    writers = λ j d h. ground (arith, h, v.writers j d);
    renamers = λ j d h. ground (arith, h, v.renamers j d);
    on_disk = v.on_disk;
  }
  Step-IsLocked {first} {s} v (lock i d e f) = record {
    valid = v.valid;
    carries = at_stage-Carries i _ _ (carried first s i (marshalled d) v e) v.carries;
    writers = λ j c h. ground (arith, h, v.writers j c);
    renamers = λ j c h. ground (arith, h, v.renamers j c);
    on_disk = v.on_disk;
  }
  Step-IsLocked {first} {s} v (open_tmp i d e) = record {
    valid = v.valid;
    carries = v.carries;
    writers = v.writers;
    renamers = λ j c h. ground (arith, h, v.renamers j c, v.writers i d);
    on_disk = v.on_disk;
  }
  Step-IsLocked {first} {s} v (write_tmp i d e) = record {
    valid = v.valid;
    carries = at_stage-Carries i _ _ (carried first s i (writing d) v e) v.carries;
    writers = λ j c h. ground (arith, h, v.writers j c);
    renamers = λ j c h. ground (arith, h, v.renamers j c, v.writers i d);
    on_disk = v.on_disk;
  }
  Step-IsLocked {first} {s} v (write_fails i d e) = record {
    valid = v.valid;
    carries = at_stage-Carries i _ _ tt v.carries;
    writers = λ j c h. ground (arith, h, v.writers j c, v.writers i d);
    renamers = λ j c h. ground (arith, h, v.renamers j c, v.writers i d);
    on_disk = v.on_disk;
  }
  Step-IsLocked {first} {s} v (rename i d e) = record {
    valid = v.valid;
    carries = at_stage-Carries i _ _ tt v.carries;
    writers = λ j c h. ground (arith, h, v.writers j c, v.renamers i d);
    renamers = λ j c h. ground (arith, h, v.renamers j c, v.renamers i d);
    on_disk = inr (d, (v.renamers i d e).1, carried first s i (written d) v e);
  }
  Step-IsLocked {first} {s} v (rename_fails i d e) = record {
    valid = v.valid;
    carries = at_stage-Carries i _ _ tt v.carries;
    writers = λ j c h. ground (arith, h, v.writers j c, v.renamers i d);
    renamers = λ j c h. ground (arith, h, v.renamers j c, v.renamers i d);
    on_disk = v.on_disk;
  }

  Reach-IsLocked :
      {first : File D} {s t : Saving D} → IsLocked first s → Reach s t → IsLocked first t
  Reach-IsLocked v here = v
  Reach-IsLocked v (next r st) = Step-IsLocked (Reach-IsLocked v r) st

  quiet-IsLocked : (d : D) (file : File D) → Valid d → IsLocked file (quiet d file)
  quiet-IsLocked d file ok = record {
    valid = ok;
    carries = λ i. tt;
    writers = λ i c h. cc;
    renamers = λ i c h. cc;
    on_disk = inl refl;
  }

  -- However saves and updates interleave and whichever writes fail, if the data is valid at the
  -- start and after each update, the file on disk is at every moment the one of the start or the
  -- complete text of valid data.
  pub disk-IsWhole :
      (d : D) (file : File D) (t : Saving D)
      → Valid d
      → Reach (quiet d file) t
      → IsWhole file t.disk
  disk-IsWhole d file t ok r = (Reach-IsLocked (quiet-IsLocked d file ok) r).on_disk
