-- ===== src/Disk.antt =====
-- kernel/bio.c as kernel/log.c sees it, over one disk: `bread` returns a locked buffer with the
-- block's contents, `bwrite` writes a buffer to the disk, `bpin` and `bunpin` count who keeps a
-- buffer; no buffer is recycled here. A block is 1024 bytes, read as 256 words. `writes` is what
-- the disk has been told to write, in order, for the analysis of crashes.
pub mod Laws
use noy_hadar.Base.{ℕ, ◌+◌, ◌-◌, Option, none, some, List, [], ◌∷◌, ◌++◌, foldl, update}

abbrev pub Block : Type 0
Block = ℕ → ℕ

abbrev pub Disk : Type 0
Disk = ℕ → Block

abbrev pub Writes : Type 0
Writes = List (ℕ × Block)

pub record Store : Type 0 where
  pub disk : Disk
  pub cache : ℕ → Option Block
  pub pins : ℕ → ℕ
  pub writes : Writes

-- The contents of a block as the kernel sees them.
abbrev pub view : Store → ℕ → Block
view s b = elim (s.cache b) [ some d ↦ d | none ↦ s.disk b ]

-- A block that is not cached is read from the disk.
unfoldable pub bread : ℕ → Store → Block × Store
bread b s = elim (s.cache b) [
  | some d ↦ (d, s)
  | none ↦ (s.disk b, record s { cache = update s.cache b (some (s.disk b)) })
]

-- An assignment to the data of a locked buffer.
unfoldable pub set_data : ℕ → Block → Store → Store
set_data b d s = record s { cache = update s.cache b (some d) }

-- The buffer's data goes to the disk.
unfoldable pub bwrite : ℕ → Store → Store
bwrite b s = record s {
  disk = update s.disk b (view s b);
  writes = s.writes ++ ((b, view s b) ∷ []);
}

unfoldable pub bpin : ℕ → Store → Store
bpin b s = record s { pins = update s.pins b (s.pins b + 1) }

unfoldable pub bunpin : ℕ → Store → Store
bunpin b s = record s { pins = update s.pins b (s.pins b - 1) }

-- The disk after some writes.
unfoldable pub apply_writes : Writes → Disk → Disk
apply_writes [] d = d
apply_writes ((b, x) ∷ ws) d = apply_writes ws (update d b x)

-- The machine after a restart: nothing is cached.
unfoldable pub boot : Disk → Store
boot d = record { disk = d; cache = λ _. none; pins = λ _. 0; writes = [] }
