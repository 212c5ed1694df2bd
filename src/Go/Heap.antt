-- ===== src/Go/Heap.antt =====
-- Memory for the objects of one type. A pointer is an address; Go's pointers never dangle and
-- fresh memory is zeroed, so every address has a content.
use homelab_homepage.Prelude.{ℕ, ◌+◌, ◌==◌, if◌then◌else◌, nat_eq}

abbrev pub Ref : Type 0
Ref = ℕ

pub record Heap {ℓ} (A : Type ℓ) : Type ℓ where
  pub next : ℕ
  pub cell : Ref → A

module _ {ℓ} {A : Type ℓ} where
  -- `&A{…}`; the new object has the address `h.next`
  abbrev pub alloc : A → Heap A → Heap A
  alloc a h = record { next = h.next + 1; cell = λ p. if h.next == p then a else h.cell p }

  -- `*p = a`
  abbrev pub write : Ref → A → Heap A → Heap A
  write p a h = record h { cell = λ q. if p == q then a else h.cell q }
