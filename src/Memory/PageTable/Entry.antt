-- ===== src/Memory/PageTable/Entry.antt =====
-- Page table entries and the words that hold them.
use the_loc_os.Base.{ℕ, ◌+◌, ◌^◌, ◌<◌, ◌≡◌, ◌≢◌, refl, ap, arith}
use the_loc_os.Memory.{PhysicalMemory}
use the_loc_os.Memory.PageTable.{PageTableEntry, decode, encode, get_entry, set_entry, mark_written}

-- the values that the bit fields can hold
pub record Fits (e : PageTableEntry) : Type 0 where
  pub frame_number : e.frame_number < 4096
  pub present : e.present < 2
  pub rw_bit : e.rw_bit < 2
  pub user : e.user < 2
  pub accessed : e.accessed < 2
  pub dirty : e.dirty < 2
  pub reserved : e.reserved < 32768

-- A page table entry whose fields fit is read back from its word as it was stored.
pub decode-encode : (e : PageTableEntry) → Fits e → decode (encode e) ≡ e
unfolding decode encode
decode-encode e f = ground arith

-- A 32-bit word is the encoding of the entry that it decodes to: no bit is left out.
pub encode-decode : (w : ℕ) → w < 2 ^ 32 → encode (decode w) ≡ w
unfolding decode encode
encode-decode w h = omega arith

pub encode-lt : (e : PageTableEntry) → encode e < 2 ^ 32
unfolding encode
encode-lt e = omega arith

pub decode-Fits : (w : ℕ) → Fits (decode w)
unfolding decode
decode-Fits w = omega arith

-- an entry's frame and presence are untouched by its accessed and dirty bits
pub mark_entry :
    (w : ℕ)
    → let e = decode (encode (record (decode w) { dirty = 1; accessed = 1 })) in
      (e.frame_number ≡ (decode w).frame_number)
      × (e.present ≡ (decode w).present)
      × (e.dirty ≡ 1)
      × (e.accessed ≡ 1)
unfolding decode encode
mark_entry w = omega arith

-- Marking one entry as written keeps the frame and the presence of every entry of every table.
pub get_entry-mark_written :
    (pm : PhysicalMemory) (t i t' i' : ℕ)
    → let e = get_entry (mark_written pm t i) t' i' in
      (e.frame_number ≡ (get_entry pm t' i').frame_number)
      × (e.present ≡ (get_entry pm t' i').present)
unfolding get_entry set_entry mark_written
get_entry-mark_written pm t i t' i' = ground (arith, mark_entry (pm.memory (t + i)))

-- an entry is read back as it was assigned
pub get_entry-set_entry :
    (pm : PhysicalMemory) (t i : ℕ) (e : PageTableEntry)
    → Fits e
    → get_entry (set_entry pm t i e) t i ≡ e
unfolding get_entry set_entry
get_entry-set_entry pm t i e f = ground (arith, decode-encode e f)

-- an assignment to an entry touches its word only
pub set_entry-memory :
    (pm : PhysicalMemory) (t i a : ℕ) (e : PageTableEntry)
    → a ≢ t + i
    → (set_entry pm t i e).memory a ≡ pm.memory a
unfolding set_entry
set_entry-memory pm t i a e h = ground arith

pub get_entry-ext :
    (m m' : PhysicalMemory) (t i : ℕ)
    → m.memory (t + i) ≡ m'.memory (t + i)
    → get_entry m t i ≡ get_entry m' t i
unfolding get_entry
get_entry-ext m m' t i h = ap decode h

pub get_entry-Fits : (pm : PhysicalMemory) (t i : ℕ) → Fits (get_entry pm t i)
unfolding get_entry
get_entry-Fits pm t i = decode-Fits (pm.memory (t + i))

pub set_entry-rest :
    (pm : PhysicalMemory) (t i : ℕ) (e : PageTableEntry)
    → set_entry pm t i e ≡ record pm { memory = (set_entry pm t i e).memory }
unfolding set_entry
set_entry-rest pm t i e = refl
