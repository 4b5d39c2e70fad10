-- ===== src/Decompress/Split.antt =====
-- The parser on an input that comes in two parts: two calls of BZ2_decompress, with the locals saved
-- by the first one and restored by the second.
use libqbz.Base.{ℕ, List, ◌++◌, Bool}
use libqbz.Base.{◌≡◌}
use libqbz.Bits.{byte_bits}
use libqbz.Bits.Reader.{Reader}
use libqbz.Bits.Reader.Laws.{contents}
use libqbz.Decompress.Types.{Locals}
use libqbz.Decompress.Types.{zero_saved, restore}
use libqbz.Decompress.Parse.{Outcome, waiting, stopped, at_tables, asserted, spent, parse}
use libqbz.Decompress.Leave.{view, view_stopped, view_inside}

-- the reader with more input after what it has, and with a new buffer of input
abbrev pub extended : Reader → List ℕ → Reader
extended r ys = record r { next_in = r.next_in ++ ys }

abbrev pub refilled : Reader → List ℕ → Reader
refilled r ys = record r { next_in = ys }

-- `o`, the outcome with the input `ys` more, goes on from the outcome without it.
abbrev pub Resumes : (ℕ → Bool) → List ℕ → Outcome → Outcome → Type 0
Resumes alloc ys (waiting s w t) o = view o ≡ view (parse alloc s w (refilled t ys))
Resumes alloc ys (stopped c s w t) o = view o ≡ view_stopped c s w (contents t ++ byte_bits ys)
Resumes alloc ys (at_tables s v t) o = view o ≡ view_inside s v (contents t ++ byte_bits ys)
Resumes alloc ys asserted o = ⊥
Resumes alloc ys spent o = ⊥

-- where a stream begins, all locals are zero
abbrev Zeroed : Locals → Type 0
Zeroed v = v ≡ restore zero_saved
