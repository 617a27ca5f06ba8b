-- ===== src/Memory/Frames/Boot.antt =====
-- The memory that `create_physical_memory` hands out.
use the_loc_os.Base.{
  ℕ, zero, suc, ◌≡◌, refl, arith, some, true, false, Bool, ltb, update, for_range_inv,
  if◌then◌else◌,
}
use Prim.Native.Nat.{min}
use mathlib.Core.Option.{some-injective}
use mathlib.Core.Path.{subst}
use the_loc_os.Memory.{PhysicalMemory, create_physical_memory, kernel_bitmap, boot_memory}
use the_loc_os.Memory.Frames.{IsValid, count_used}

abbrev Marks : ℕ → (ℕ → ℕ) → Type 0
Marks k f = (j : ℕ) → f j ≡ (if ltb j k then 1 else 0)

kernel_bitmap-Marks : (n : ℕ) → Marks n (kernel_bitmap n)
kernel_bitmap-Marks n =
    for_range_inv Marks (λ i bitmap. update bitmap i 1) (λ i f m j. ground (arith, m j)) n 0 n
      (λ i. 0) (omega arith) (λ j. ground arith)

count_used-Marks : (n k : ℕ) (f : ℕ → ℕ) → Marks k f → count_used n f ≡ min n k
unfolding count_used
count_used-Marks zero k f m = omega arith
count_used-Marks (suc n) k f m = ground (arith, m n, count_used-Marks n k f m)

-- a consistent memory, empty but for the 256 frames of the kernel
pub record IsFresh (pm : PhysicalMemory) : Type 0 where
  pub valid : IsValid pm
  pub marks : (i : ℕ) → pm.frame_bitmap i ≡ (if ltb i 256 then 1 else 0)
  pub zeros : (a : ℕ) → pm.memory a ≡ 0
  pub kernel_free : pm.next_kernel_frame ≡ 0

boot_memory-IsFresh : (f : ℕ → ℕ) → Marks 256 f → IsFresh (boot_memory f)
boot_memory-IsFresh f m = record {
  valid = record {
    bits = λ i. ground (arith, m i);
    reserved = λ i h. ground (arith, m i);
    counted = omega (arith, count_used-Marks 4096 256 f m);
  };
  marks = m;
  zeros = λ a. refl;
  kernel_free = refl;
}

-- When its allocations succeed, create_physical_memory returns a memory whose bitmap and counter
-- are consistent, with exactly the 256 kernel frames in use, all words zero and all of the kernel
-- space free.
pub create_physical_memory-IsFresh :
    {pm : PhysicalMemory} (structure_ok memory_ok bitmap_ok : Bool)
    → create_physical_memory structure_ok memory_ok bitmap_ok ≡ some pm
    → IsFresh pm
unfolding create_physical_memory
create_physical_memory-IsFresh false memory_ok bitmap_ok e = cc
create_physical_memory-IsFresh true false bitmap_ok e = cc
create_physical_memory-IsFresh true true false e = cc
create_physical_memory-IsFresh true true true e =
    subst IsFresh (some-injective _ _ e) (boot_memory-IsFresh _ (kernel_bitmap-Marks 256))
