-- ===== src/GpMm.antt =====
-- locknsnoop/common/gp_mm.h: the memory manager that the initiators of the TLM-2.0 programs share. It
-- keeps the transactions that were freed in a doubly linked list, whose first entries are those that
-- are empty at the time.
--
-- A pointer to an `access` is the number of the entry, in the order in which `new` made them, and one
-- to a transaction its number likewise; a null pointer is `none`. `reset`, the transaction's own, has
-- no part in the list.
pub mod Stack
pub mod Destructor
pub mod Tests
use psa.Prelude.{ℕ, ◌+◌, Option, none, some, List, [], ◌∷◌, update}

pub record Access : Type 0 where
  pub trans : Option ℕ
  pub next : Option ℕ
  pub prev : Option ℕ

-- The members of `gp_mm`, the entries in memory, and how many entries and transactions there are.
pub record GpMm : Type 0 where
  pub free_list : Option ℕ
  pub empties : Option ℕ
  pub entries : ℕ → Access
  pub made : ℕ
  pub made_trans : ℕ

-- The constructor
abbrev pub new_mm : GpMm
new_mm = record {
  free_list = none;
  empties = none;
  entries = λ i. record { trans = none; next = none; prev = none };
  made = 0;
  made_trans = 0;
}

-- `gp_mm::allocate`
unfoldable pub allocate : GpMm → Option ℕ × GpMm
allocate m = elim m.free_list [
  | none ↦ (some m.made_trans, record m { made_trans = m.made_trans + 1 })
  | some a ↦ ((m.entries a).trans, record m { empties = some a; free_list = (m.entries a).next })
]

-- `if (free_list) free_list->prev = empties`
abbrev link_back : (ℕ → Access) → Option ℕ → ℕ → ℕ → Access
link_back entries none n = entries
link_back entries (some f) n = update entries f (record (entries f) { prev = some n })

-- The new entry of `free`, where there is no empty one
abbrev new_entry : GpMm → GpMm
new_entry m = record m {
  entries =
      link_back (update m.entries m.made (record { trans = none; next = m.free_list; prev = none }))
        m.free_list m.made;
  empties = some m.made;
  made = m.made + 1;
}

-- The end of `free`, with the first empty entry
fill : GpMm → ℕ → ℕ → GpMm
fill m a trans = record m {
  free_list = some a;
  entries = update m.entries a (record (m.entries a) { trans = some trans });
  empties = (m.entries a).prev;
}

-- `gp_mm::free`
unfoldable pub free : GpMm → ℕ → GpMm
unfolding fill
free m trans = elim m.empties [ none ↦ fill (new_entry m) m.made trans | some a ↦ fill m a trans ]

pub data Operation : Type 0 where
  allocates : Operation
  frees : (trans : ℕ) → Operation

-- What a sequence of calls hands out, and the manager after it
unfoldable pub calls : GpMm → List Operation → List (Option ℕ) × GpMm
calls m [] = ([], m)
calls m (allocates ∷ ops) =
    let (t, m') = allocate m in let (ts, m'') = calls m' ops in (t ∷ ts, m'')
calls m (frees trans ∷ ops) = calls (free m trans) ops
