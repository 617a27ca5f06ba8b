-- ===== src/Memory/Frames/Room.antt =====
-- When `allocate_frame` finds a frame, by the counter of the allocator.
use the_loc_os.Base.{
  ℕ, zero, suc, ◌<◌, ◌≤◌, ◌≡◌, refl, arith, ◌∙◌, inl, inr, update, Bool-cases, ltb,
}
use the_loc_os.Memory.{PhysicalMemory, allocate_frame}
use the_loc_os.Memory.Frames.{IsValid, count_used, count_used-le, count_used-update}
use the_loc_os.Memory.Frames.Search.{Takes, Full, allocate_frame_cases}

pub count_used-ones : (n : ℕ) (f : ℕ → ℕ) → ((i : ℕ) → i < n → f i ≡ 1) → count_used n f ≡ n
unfolding count_used
count_used-ones zero f h = refl
count_used-ones (suc n) f h =
    omega (arith, h n (omega arith), count_used-ones n f (λ i l. h i (omega arith)))

Full-total :
    {pm : PhysicalMemory} {out : ℕ × PhysicalMemory}
    → IsValid pm
    → Full 3840 256 pm out
    → pm.total_allocated_frames ≡ 4096
Full-total {pm} v f =
    v.counted
    ∙ count_used-ones 4096 pm.frame_bitmap (λ i l. elim (Bool-cases (ltb i 256)) [
      | inl t ↦ v.reserved i (ground arith)
      | inr t ↦ omega (arith, v.bits i, f.used i (ground arith) (omega arith))
    ])

Takes-total :
    {pm : PhysicalMemory} {out : ℕ × PhysicalMemory}
    → IsValid pm
    → Takes 3840 256 pm out
    → pm.total_allocated_frames < 4096
Takes-total {pm} {out} v t = omega (
  arith,
  v.counted,
  count_used-update 4096 pm.frame_bitmap out.0 1 t.high,
  count_used-le 4096 (update pm.frame_bitmap out.0 1) (λ j. ground (arith, v.bits j)),
)

-- With a frame left, allocate_frame takes one.
pub allocate_frame-room :
    {pm : PhysicalMemory}
    → IsValid pm
    → pm.total_allocated_frames < 4096
    → Takes 3840 256 pm (allocate_frame pm)
allocate_frame-room {pm} v h = elim (allocate_frame_cases pm) [
  | inl t ↦ t
  | inr f ↦ absurd (omega (arith, Full-total v f))
]

-- With none left, it returns 0 and changes nothing.
pub allocate_frame-exhausted :
    {pm : PhysicalMemory}
    → IsValid pm
    → 4096 ≤ pm.total_allocated_frames
    → allocate_frame pm ≡ (0, pm)
allocate_frame-exhausted {pm} v h = elim (allocate_frame_cases pm) [
  | inl t ↦ absurd (omega (arith, Takes-total v t))
  | inr f ↦ f.failed
]
