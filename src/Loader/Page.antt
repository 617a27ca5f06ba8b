-- ===== src/Loader/Page.antt =====
-- What the loader writes into the frame of one page.
use the_loc_os.Base.{
  ℕ, ◌+◌, ◌-◌, ◌*◌, ◌<◌, ◌≤◌, ◌≡◌, refl, sym, ap, ◌∙◌, fun_ext, arith, ◌&&◌, ltb, leb, ◌==◌,
  if◌then◌else◌, update, for_range, for_range_inv, Bool-cases, inl, inr,
}
use the_loc_os.Memory.{PhysicalMemory, write_word}
use the_loc_os.Memory.Words.{write_word-store}
use the_loc_os.Loader.{
  Program, clear_frame, copy_segment, map_page, load_page, code_start_word, code_end_word,
  data_start_word, data_end_word,
}

-- `pm'` is `pm` with the words `g`.
pub record Stores (pm : PhysicalMemory) (g : ℕ → ℕ) (pm' : PhysicalMemory) : Type 0 where
  pub words : (a : ℕ) → pm'.memory a ≡ g a
  pub rest : pm' ≡ record pm { memory = pm'.memory }

-- the word `k` of the address space of a program
unfoldable pub image : Program → ℕ → ℕ
image program k =
    let header = program.header in
    if leb (data_start_word header) k && ltb k (data_end_word header)
    then program.data_segment (k - data_start_word header)
    else if leb (code_start_word header) k && ltb k (code_end_word header)
    then program.code_segment (k - code_start_word header)
    else 0

Stores-write_word :
    {pm m : PhysicalMemory} {g : ℕ → ℕ} (g' : ℕ → ℕ) (a v : ℕ)
    → a < 4194304
    → Stores pm g m
    → ((j : ℕ) → g' j ≡ (if j == a then v else g j))
    → Stores pm g' (write_word m a v)
Stores-write_word {pm} {m} g' a v h s e = rw (write_word-store m a v h) (record {
  words = λ j. ground (arith, s.words j, e j);
  rest = ap (λ (q : PhysicalMemory). record q { memory = update m.memory a v }) s.rest;
})

-- the same words by another function
pub Stores-same :
    {pm m : PhysicalMemory} {g : ℕ → ℕ} (g' : ℕ → ℕ)
    → Stores pm g m
    → ((a : ℕ) → g' a ≡ g a)
    → Stores pm g' m
Stores-same g' s e = record { words = λ a. s.words a ∙ sym (e a); rest = s.rest }

pub Stores-trans :
    {pm m m' : PhysicalMemory} {g : ℕ → ℕ} (g' : (ℕ → ℕ) → ℕ → ℕ)
    → Stores pm g m
    → Stores m (g' m.memory) m'
    → Stores pm (g' g) m'
Stores-trans {pm} {m} {m'} {g} g' s s' = record {
  words = λ a. s'.words a ∙ ap (λ (f : ℕ → ℕ). g' f a) (fun_ext s.words);
  rest = s'.rest ∙ ap (λ (q : PhysicalMemory). record q { memory = m'.memory }) s.rest;
}

-- the words of a frame at `b`, from those of a page and those that there were
abbrev in_frame : ℕ → (ℕ → ℕ) → (ℕ → ℕ) → ℕ → ℕ
in_frame b new old a = if leb b a && ltb a (b + 1024) then new (a - b) else old a

clear_frame-Stores :
    (b : ℕ) (pm : PhysicalMemory)
    → b + 1024 ≤ 4194304
    → Stores pm (in_frame b (λ k. 0) pm.memory) (clear_frame b pm)
unfolding clear_frame
clear_frame-Stores b pm h =
    Stores-same (in_frame b (λ k. 0) pm.memory)
      (for_range_inv
        (λ i m. i ≤ 1024 → Stores pm (λ a. if leb b a && ltb a (b + i) then 0 else pm.memory a) m)
        (λ j m. write_word m (b + j) 0)
        (λ i m s l.
          Stores-write_word _ (b + i) 0 (omega arith) (s (omega arith)) (λ a. ground arith))
        1024 0 1024 pm (omega arith) (λ l. record { words = λ a. ground arith; rest = refl })
        (omega arith))
      (λ a. refl)

place :
    (segment : ℕ → ℕ) (start q b i a : ℕ)
    → q ≤ i
    → a ≡ b + (i - q)
    → segment (q + (a - b) - start) ≡ segment (i - start)
place segment start q b i a h e = ap segment (omega arith)

-- the words from `s` to before `e` of a page that starts at word `q`
copy-Stores :
    (segment : ℕ → ℕ) (start q b s e : ℕ) (pm : PhysicalMemory)
    → q ≤ s
    → s ≤ e
    → e ≤ q + 1024
    → b + 1024 ≤ 4194304
    → Stores pm
        (λ a.
          if leb (b + (s - q)) a && ltb a (b + (e - q))
          then segment (q + (a - b) - start)
          else pm.memory a)
        (for_range (e - s) s (λ word m. write_word m (b + (word - q)) (segment (word - start))) pm)
copy-Stores segment start q b s e pm hq hs he hb =
    (for_range_inv
      (λ i m.
        i ≤ e
        → (s ≤ i)
          × Stores pm
              (λ a.
                if leb (b + (s - q)) a && ltb a (b + (i - q))
                then segment (q + (a - b) - start)
                else pm.memory a)
              m)
      (λ word m. write_word m (b + (word - q)) (segment (word - start)))
      (λ i m p l.
        let (le, st) = p (omega arith) in
        (
          omega arith,
          Stores-write_word _ (b + (i - q)) _ (omega arith) st
              (λ a. ground (arith, place segment start q b i a)),
        ))
      (e - s) s e pm (omega arith)
      (λ l. (omega arith, record { words = λ a. ground arith; rest = refl })) (omega arith)).1

-- the words of the segment that lie in the page, in the frame at `b`
abbrev copied : (ℕ → ℕ) → ℕ → ℕ → ℕ → ℕ → (ℕ → ℕ) → ℕ → ℕ
copied segment start stop q b old a =
    if leb b a && ltb a (b + 1024) && leb start (q + (a - b)) && ltb (q + (a - b)) stop
    then segment (q + (a - b) - start)
    else old a

copy_segment-Stores :
    (segment : ℕ → ℕ) (start stop q b : ℕ) (pm : PhysicalMemory)
    → start ≤ stop
    → b + 1024 ≤ 4194304
    → Stores pm (copied segment start stop q b pm.memory) (copy_segment segment start stop q b pm)
unfolding copy_segment
copy_segment-Stores segment start stop q b pm h hb =
    elim (Bool-cases (ltb start (q + 1024) && ltb q stop)) [
      | inl t ↦ rw t (
          Stores-same (copied segment start stop q b pm.memory)
            (copy-Stores segment start q b (if ltb q start then start else q)
              (if ltb stop (q + 1024) then stop else q + 1024) pm (ground arith) (ground arith)
              (ground arith) hb)
            (λ a. ground arith))
      | inr f ↦ rw f (record { words = λ a. ground arith; rest = refl })
    ]

layers :
    (f g old : ℕ → ℕ) (cs ce ds de q b a : ℕ)
    → (if leb b a && ltb a (b + 1024)
        then if leb ds (q + (a - b)) && ltb (q + (a - b)) de
          then g (q + (a - b) - ds)
          else if leb cs (q + (a - b)) && ltb (q + (a - b)) ce
          then f (q + (a - b) - cs)
          else 0
        else old a)
      ≡ copied g ds de q b (copied f cs ce q b (in_frame b (λ k. 0) old)) a
layers f g old cs ce ds de q b a = elim (Bool-cases (leb b a && ltb a (b + 1024))) [
  | inl t ↦ rw t (elim (Bool-cases (leb ds (q + (a - b)) && ltb (q + (a - b)) de)) [
    | inl u ↦ rw u refl
    | inr u ↦ rw u refl
  ])
  | inr t ↦ rw t refl
]

-- The words of the page's frame are those of the program's image; the others stay.
pub load_page-Stores :
    (program : Program) (t page frame : ℕ) (pm : PhysicalMemory)
    → code_start_word program.header ≤ code_end_word program.header
    → data_start_word program.header ≤ data_end_word program.header
    → frame < 4096
    → Stores
        (map_page t page frame pm)
        (λ a.
          if leb (frame * 1024) a && ltb a (frame * 1024 + 1024)
          then image program (page * 1024 + (a - frame * 1024))
          else (map_page t page frame pm).memory a)
        (load_page program t page frame pm)
unfolding load_page image
load_page-Stores program t page frame pm hc hd hf =
    let header = program.header in
    let b = frame * 1024 in
    let q = page * 1024 in
    let code = copied program.code_segment (code_start_word header) (code_end_word header) q b in
    let dat = copied program.data_segment (data_start_word header) (data_end_word header) q b in
    Stores-same _
      (Stores-trans dat
        (Stores-trans code (clear_frame-Stores b (map_page t page frame pm) (omega arith))
          (copy_segment-Stores program.code_segment _ _ q b _ hc (omega arith)))
        (copy_segment-Stores program.data_segment _ _ q b _ hd (omega arith)))
      (λ a.
        layers program.code_segment program.data_segment (map_page t page frame pm).memory
          (code_start_word header) (code_end_word header) (data_start_word header)
          (data_end_word header) q b a)
