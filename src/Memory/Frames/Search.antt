-- ===== src/Memory/Frames/Search.antt =====
-- What the search loop of `allocate_frame` finds, and what `allocate_frame` and `free_frame` do to
-- a valid bitmap.
use the_loc_os.Base.{
  ℕ, zero, suc, ◌+◌, ◌-◌, ◌%◌, ◌^◌, ◌≤◌, ◌<◌, ◌≡◌, ◌≢◌, ◌⊎◌, inl, inr, refl, arith, ◌==◌, update,
  Bool-cases, fun_ext, ap, ◌∙◌,
}
use mathlib.Core.Path.{ap₂}
use the_loc_os.Memory.{PhysicalMemory, allocate_frame, free_frame, allocate_from}
use the_loc_os.Memory.Frames.{IsValid, count_used-update, total-le}

-- the memory with frame `i` marked
abbrev pub take_frame : PhysicalMemory → ℕ → PhysicalMemory
take_frame pm i = record pm {
  frame_bitmap = update pm.frame_bitmap i 1;
  total_allocated_frames = (pm.total_allocated_frames + 1) % 2 ^ 32;
}

-- the first free frame among the `n` from `i`, taken
pub record Takes (n i : ℕ) (pm : PhysicalMemory) (out : ℕ × PhysicalMemory) : Type 0 where
  pub low : i ≤ out.0
  pub high : out.0 < i + n
  pub free : pm.frame_bitmap out.0 ≡ 0
  pub first : (j : ℕ) → i ≤ j → j < out.0 → pm.frame_bitmap j ≢ 0
  pub taken : out.1 ≡ take_frame pm out.0

-- no free frame among the `n` from `i`, and nothing changed
pub record Full (n i : ℕ) (pm : PhysicalMemory) (out : ℕ × PhysicalMemory) : Type 0 where
  pub failed : out ≡ (0, pm)
  pub used : (j : ℕ) → i ≤ j → j < i + n → pm.frame_bitmap j ≢ 0

allocate_from-cases :
    (n i : ℕ) (pm : PhysicalMemory)
    → Takes n i pm (allocate_from n i pm) ⊎ Full n i pm (allocate_from n i pm)
unfolding allocate_from
allocate_from-cases zero i pm = inr (record { failed = refl; used = λ j h k. absurd (omega arith) })
allocate_from-cases (suc n) i pm = elim (Bool-cases (pm.frame_bitmap i == 0)) [
  | inl e ↦ rw e (
      inl (record {
        low = omega arith;
        high = omega arith;
        free = ground arith;
        first = λ j h k. absurd (omega arith);
        taken = refl;
      }))
  | inr e ↦ rw e (elim (allocate_from-cases n (i + 1) pm) [
    | inl t ↦ inl (record {
      low = omega (arith, t.low);
      high = omega (arith, t.high);
      free = t.free;
      first = λ j h k. ground (arith, t.first j);
      taken = t.taken;
    })
    | inr f ↦ inr (record { failed = f.failed; used = λ j h k. ground (arith, f.used j) })
  ])
]

-- allocate_frame takes the lowest free frame of user space, 256 to 4095, marks it and counts it,
-- and changes nothing else; when every user frame is in use it returns 0 and changes nothing.
pub allocate_frame_cases :
    (pm : PhysicalMemory)
    → Takes 3840 256 pm (allocate_frame pm) ⊎ Full 3840 256 pm (allocate_frame pm)
unfolding allocate_frame
allocate_frame_cases pm = allocate_from-cases 3840 256 pm

pub take_frame-IsValid :
    {pm : PhysicalMemory} (i : ℕ)
    → IsValid pm
    → 256 ≤ i
    → i < 4096
    → pm.frame_bitmap i ≡ 0
    → IsValid (take_frame pm i)
take_frame-IsValid {pm} i v lo hi free = record {
  bits = λ j. ground (arith, v.bits j);
  reserved = λ j h. ground (arith, v.reserved j h);
  counted = omega (arith, v.counted, total-le v, count_used-update 4096 pm.frame_bitmap i 1 hi);
}

-- allocate_frame keeps the bitmap and its counter consistent.
pub allocate_frame-IsValid : {pm : PhysicalMemory} → IsValid pm → IsValid (allocate_frame pm).1
allocate_frame-IsValid {pm} v = elim (allocate_frame_cases pm) [
  | inl t ↦ rw t.taken (take_frame-IsValid _ v t.low t.high t.free)
  | inr f ↦ rw f.failed v
]

-- the memory with frame `i` given back
abbrev pub give_back : PhysicalMemory → ℕ → PhysicalMemory
give_back pm i = record pm {
  frame_bitmap = update pm.frame_bitmap i 0;
  total_allocated_frames = (pm.total_allocated_frames + 2 ^ 32 - 1) % 2 ^ 32;
}

free_frame_cases :
    (pm : PhysicalMemory) (n : ℕ)
    → (free_frame pm n ≡ pm)
      ⊎ ((256 ≤ n) × (n < 4096) × (pm.frame_bitmap n ≡ 1) × (free_frame pm n ≡ give_back pm n))
unfolding free_frame
free_frame_cases pm n = ground arith

give_back-IsValid :
    {pm : PhysicalMemory} (i : ℕ)
    → IsValid pm
    → 256 ≤ i
    → i < 4096
    → pm.frame_bitmap i ≡ 1
    → IsValid (give_back pm i)
give_back-IsValid {pm} i v lo hi used = record {
  bits = λ j. ground (arith, v.bits j);
  reserved = λ j h. ground (arith, v.reserved j h);
  counted = omega (arith, v.counted, total-le v, count_used-update 4096 pm.frame_bitmap i 0 hi);
}

-- free_frame keeps the bitmap and its counter consistent, whatever number it is given.
pub free_frame-IsValid : {pm : PhysicalMemory} (n : ℕ) → IsValid pm → IsValid (free_frame pm n)
free_frame-IsValid {pm} n v = elim (free_frame_cases pm n) [
  | inl e ↦ rw e v
  | inr (lo, hi, used, e) ↦ rw e (give_back-IsValid n v lo hi used)
]

give_back-take_frame :
    {pm : PhysicalMemory} (i : ℕ)
    → IsValid pm
    → pm.frame_bitmap i ≡ 0
    → give_back (take_frame pm i) i ≡ pm
give_back-take_frame {pm} i v free =
    ap₂ (λ b t. record pm { frame_bitmap = b; total_allocated_frames = t })
      (fun_ext λ j. ground arith) (omega (arith, total-le v))

free_frame-take_frame :
    (pm : PhysicalMemory) (i : ℕ)
    → 256 ≤ i
    → i < 4096
    → free_frame (take_frame pm i) i ≡ give_back (take_frame pm i) i
unfolding free_frame
free_frame-take_frame pm i lo hi = ground arith

-- A frame that allocate_frame returned is given back by free_frame: the memory is again what it
-- was, its bitmap and its counter included.
pub free_frame-allocate_frame :
    {pm : PhysicalMemory}
    → IsValid pm
    → (allocate_frame pm).0 ≢ 0
    → free_frame (allocate_frame pm).1 (allocate_frame pm).0 ≡ pm
free_frame-allocate_frame {pm} v ok = elim (allocate_frame_cases pm) [
  | inl t ↦ rw t.taken (free_frame-take_frame pm _ t.low t.high ∙ give_back-take_frame _ v t.free)
  | inr f ↦ absurd (ok (ap (λ (o : ℕ × PhysicalMemory). o.0) f.failed))
]
