-- ===== src/Memory/Words.antt =====
-- The checked word accesses of sys/memory.c.
use the_loc_os.Base.{ℕ, ◌<◌, ◌≡◌, arith, ltb, ◌==◌, ◌&&◌, if◌then◌else◌}
use the_loc_os.Memory.{PhysicalMemory, read_word, write_word, store}

-- A word read back after a write: the value where the address was the written one and lies in the
-- memory, and what was there before elsewhere; a read outside the memory gives 0.
pub read_word-write_word :
    (pm : PhysicalMemory) (a v b : ℕ)
    → read_word (write_word pm a v) b ≡ (if a == b && ltb a 4194304 then v else read_word pm b)
unfolding read_word write_word
read_word-write_word pm a v b = ground arith

pub write_word-store :
    (pm : PhysicalMemory) (a v : ℕ) → a < 4194304 → write_word pm a v ≡ store pm a v
unfolding write_word
write_word-store pm a v h = ground arith
