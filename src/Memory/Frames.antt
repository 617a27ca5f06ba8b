-- ===== src/Memory/Frames.antt =====
-- The frame allocator of sys/memory.c: its bitmap, its counter and its search.
pub mod Search
pub mod Boot
pub mod Room
pub mod Tests
use the_loc_os.Base.{
  ℕ, zero, suc, ◌+◌, ◌-◌, ◌≤◌, ◌<◌, ◌^◌, ◌≡◌, refl, arith, Option, some, true, update, for_range,
  ◌==◌, ltb, leb, if◌then◌else◌, for_range_inv,
}
use native.Mathlib.Numerals.{add-one}
use the_loc_os.Memory.{
  PhysicalMemory, is_frame_allocated, allocate_frame, free_frame, allocate_from,
  create_physical_memory, kernel_frames, total_frames,
}

-- how many of the first `n` entries are marked
pub count_used : ℕ → (ℕ → ℕ) → ℕ
count_used zero f = 0
count_used (suc n) f = count_used n f + f n

count_used-update_ge :
    (n : ℕ) (f : ℕ → ℕ) (i v : ℕ) → n ≤ i → count_used n (update f i v) ≡ count_used n f
unfolding count_used
count_used-update_ge zero f i v h = refl
count_used-update_ge (suc n) f i v h = ground (arith, count_used-update_ge n f i v)

pub count_used-update :
    (n : ℕ) (f : ℕ → ℕ) (i v : ℕ) → i < n → count_used n (update f i v) + f i ≡ count_used n f + v
unfolding count_used
count_used-update zero f i v h = elim h [ ]
count_used-update (suc n) f i v h =
    ground (arith, count_used-update n f i v, count_used-update_ge n f i v)

pub count_used-le : (n : ℕ) (f : ℕ → ℕ) → ((i : ℕ) → f i ≤ 1) → count_used n f ≤ n
unfolding count_used
count_used-le zero f h = omega arith
count_used-le (suc n) f h = omega (arith, count_used-le n f h, h n)

-- The bitmap holds zeros and ones, the kernel's frames are marked, and the counter counts the marks.
pub record IsValid (pm : PhysicalMemory) : Type 0 where
  pub bits : (i : ℕ) → pm.frame_bitmap i ≤ 1
  pub reserved : (i : ℕ) → i < 256 → pm.frame_bitmap i ≡ 1
  pub counted : pm.total_allocated_frames ≡ count_used 4096 pm.frame_bitmap

pub total-le : {pm : PhysicalMemory} → IsValid pm → pm.total_allocated_frames ≤ 4096
total-le {pm} v = omega (arith, v.counted, count_used-le 4096 pm.frame_bitmap v.bits)

-- is_frame_allocated reads the bitmap.
pub is_frame_allocated_lem :
    (pm : PhysicalMemory) (i : ℕ) → i < 4096 → is_frame_allocated pm i ≡ pm.frame_bitmap i
unfolding is_frame_allocated
is_frame_allocated_lem pm i h = ground arith

-- the marks, one more
pub count_used-suc : (n : ℕ) (f : ℕ → ℕ) → count_used (n + 1) f ≡ count_used n f + f n
unfolding count_used
count_used-suc n f = rw add-one refl

pub count_used-zero : (f : ℕ → ℕ) → count_used 0 f ≡ 0
unfolding count_used
count_used-zero f = refl
