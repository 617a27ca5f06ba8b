-- ===== src/Loader/Fill.antt =====
-- What the loop over the pages comes to: all of them are loaded, or no frame is left.
use the_loc_os.Base.{
  ℕ, zero, suc, ◌+◌, ◌<◌, ◌≤◌, ◌≡◌, refl, arith, true, false, Bool-cases, ltb, inl, inr,
}
use mathlib.Core.Path.{subst}
use the_loc_os.Memory.{PhysicalMemory, allocate_frame}
use the_loc_os.Memory.Frames.{total-le}
use the_loc_os.Memory.Frames.Search.{Takes, take_frame}
use the_loc_os.Memory.Frames.Room.{allocate_frame-room, allocate_frame-exhausted}
use the_loc_os.Loader.{
  Program, load_page, load_pages, code_start_word, code_end_word, data_start_word, data_end_word,
}
use the_loc_os.Loader.Pages.{Loaded, next-Loaded}

module _ (program : Program) (t : ℕ) where
  load_pages-suc :
      (n page : ℕ) (pm : PhysicalMemory)
      → Takes 3840 256 pm (allocate_frame pm)
      → load_pages program t (suc n) page pm
        ≡ load_pages program t n
            (page + 1)
            (load_page program t page (allocate_frame pm).0 (take_frame pm (allocate_frame pm).0))
  unfolding load_pages
  load_pages-suc n page pm k = ground (arith, k.low, k.taken)

  load_pages-stops :
      (n page : ℕ) (pm : PhysicalMemory)
      → allocate_frame pm ≡ (0, pm)
      → load_pages program t (suc n) page pm ≡ (false, pm)
  unfolding load_pages
  load_pages-stops n page pm e = rw e refl

  module _ {pm0 : PhysicalMemory}
      (hc : code_start_word program.header ≤ code_end_word program.header)
      (hd : data_start_word program.header ≤ data_end_word program.header) where
    pub load_pages-Loaded :
        (n page last : ℕ) (pm : PhysicalMemory)
        → page + n ≡ last
        → Loaded program t pm0 page pm
        → t + last ≤ 262144
        → pm0.total_allocated_frames + last ≤ 4096
        → let (done, out) = load_pages program t n page pm in
          (done ≡ true) × Loaded program t pm0 last out
    unfolding load_pages
    load_pages-Loaded zero page last pm e ld h h' =
        (refl, subst (λ m. Loaded program t pm0 m pm) (omega arith) ld)
    load_pages-Loaded (suc n) page last pm e ld h h' =
        let k = allocate_frame-room ld.valid (omega (arith, ld.total)) in
        let ld' = next-Loaded (allocate_frame pm).0 hc hd ld (omega arith) k.low k.high k.free in
        rw (load_pages-suc n page pm k)
          (load_pages-Loaded n (page + 1) last _ (omega arith) ld' h h')

    -- Where fewer frames are left than there are pages, all are in use afterwards, by the pages that
    -- could be loaded.
    pub load_pages-fails :
        (n page last : ℕ) (pm : PhysicalMemory)
        → page + n ≡ last
        → Loaded program t pm0 page pm
        → t + last ≤ 262144
        → 4096 < pm0.total_allocated_frames + last
        → let (done, out) = load_pages program t n page pm in
          (done ≡ false)
          × (out.total_allocated_frames ≡ 4096)
          × ((loaded : ℕ) × (loaded ≤ last) × Loaded program t pm0 loaded out)
    load_pages-fails zero page last pm e ld h h' =
        absurd (omega (arith, ld.total, total-le ld.valid))
    load_pages-fails (suc n) page last pm e ld h h' =
        elim (Bool-cases (ltb pm.total_allocated_frames 4096)) [
          | inl b ↦
              let k = allocate_frame-room ld.valid (ground arith) in
              let ld' =
                next-Loaded (allocate_frame pm).0 hc hd ld (omega arith) k.low k.high k.free in
              rw (load_pages-suc n page pm k)
                (load_pages-fails n (page + 1) last _ (omega arith) ld' h h')
          | inr b ↦
              let m : 4096 ≤ pm.total_allocated_frames = ground arith in
              rw (load_pages-stops n page pm (allocate_frame-exhausted ld.valid m))
                (refl, omega (arith, total-le ld.valid), (page, omega arith, ld))
        ]
