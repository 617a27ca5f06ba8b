-- ===== src/Memory/Frames/Tests.antt =====
-- The theorems on the frame allocator and on words, on a memory fresh from `create_physical_memory`.
use the_loc_os.Base.{for_range, ◌≡◌, ◌⊎◌, refl, arith, some, true}
use the_loc_os.Memory.{
  PhysicalMemory, kernel_bitmap, boot_memory, create_physical_memory, allocate_from, allocate_frame,
  free_frame, is_frame_allocated,
}
use the_loc_os.Memory.Frames.{IsValid}
use the_loc_os.Memory.Frames.Boot.{create_physical_memory-IsFresh}
use the_loc_os.Memory.Frames.Search.{Takes, Full, allocate_frame_cases, free_frame-allocate_frame}

abbrev pub fresh_memory : PhysicalMemory
fresh_memory = boot_memory (kernel_bitmap 256)

created : create_physical_memory true true true ≡ some fresh_memory
unfolding create_physical_memory
created = refl

pub fresh-IsValid : IsValid fresh_memory
fresh-IsValid = (create_physical_memory-IsFresh true true true created).valid

allocated : (allocate_frame fresh_memory).0 ≡ 256
unfolding allocate_frame allocate_from for_range
allocated = refl

second_frame : (allocate_frame (allocate_frame fresh_memory).1).0 ≡ 257
unfolding allocate_frame allocate_from for_range
second_frame = refl

kernel_frame_kept : is_frame_allocated (free_frame fresh_memory 12) 12 ≡ 1
unfolding is_frame_allocated free_frame for_range
kernel_frame_kept = refl

allocate_frame_cases_example :
    Takes 3840 256 fresh_memory (allocate_frame fresh_memory)
    ⊎ Full 3840 256 fresh_memory (allocate_frame fresh_memory)
allocate_frame_cases_example = allocate_frame_cases fresh_memory

free_frame-allocate_frame_example :
    free_frame (allocate_frame fresh_memory).1 (allocate_frame fresh_memory).0 ≡ fresh_memory
free_frame-allocate_frame_example =
    free_frame-allocate_frame fresh-IsValid (omega (arith, allocated))
