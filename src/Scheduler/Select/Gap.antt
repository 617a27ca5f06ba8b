-- ===== src/Scheduler/Select/Gap.antt =====
-- The removal of a process from the middle of the ready queue, as the BFS policy makes it.
use the_loc_os.Base.{
  ℕ, zero, suc, ◌+◌, ◌-◌, ◌≤◌, ◌<◌, ◌≡◌, ap, ◌∙◌, arith, ltb, leb, if◌then◌else◌, update, ℤ, pos,
  negsuc, pos_part, neg_part, ◌+ℤ◌, ◌-ℤ◌, rem_ℤ, listing-erase_at, erase_at,
}
use mathlib.Core.Path.{ap₂}
use the_loc_os.Queue.{Ptr, ProcessQueue}
use the_loc_os.Queue.Ring.{IsValid, entry, wrap, mod-wrap}
use the_loc_os.Queue.Fifo.{contents}
use the_loc_os.Scheduler.Select.{close_gap, remove_slot}

-- how many steps round the ring lead from slot `cur` to slot `p`
abbrev distance : ℕ → ℕ → ℕ → ℕ
distance cap cur p = if leb cur p then p - cur else p + cap - cur

-- The loop moves into each of the `n` slots from `cur` on, going round, what the next slot held.
close_gap_lem :
    (n cap cur p : ℕ) (q : ℕ → Ptr)
    → n < cap
    → cur < cap
    → p < cap
    → close_gap n cap cur q p ≡ (if ltb (distance cap cur p) n then q (wrap cap (p + 1)) else q p)
unfolding close_gap
close_gap_lem zero cap cur p q hn hc hp = ground arith
close_gap_lem (suc n) cap cur p q hn hc hp = rw (mod-wrap (cur + 1) cap (omega arith)) (
    ground
      (arith, close_gap_lem n cap (wrap cap (cur + 1)) p (update q cur (q (wrap cap (cur + 1))))))

-- distances do not depend on where the front is
distance_offsets :
    (cap front m i : ℕ)
    → front < cap
    → m < cap
    → i < cap
    → distance cap (wrap cap (front + m)) (wrap cap (front + i)) ≡ distance cap m i
distance_offsets cap front m i hf hm hi = ground arith

pub next_offset :
    (cap front i : ℕ)
    → front < cap
    → i < cap
    → wrap cap (wrap cap (front + i) + 1) ≡ wrap cap (front + (i + 1))
next_offset cap front i hf hi = ground arith

module _ {pq : ProcessQueue} (m : ℕ) (v : IsValid pq) (within : m < pq.current_size) where
  abbrev slot : ℕ
  slot = wrap pq.max_capacity (pq.front + m)

  entry-remove_slot :
      (i : ℕ)
      → i < pq.current_size
      → entry (remove_slot pq slot) i ≡ (
          if ltb (distance pq.max_capacity m i) (pq.current_size - 1)
          then entry pq (i + 1)
          else entry pq i)
  unfolding remove_slot
  entry-remove_slot i h =
      close_gap_lem (pq.current_size - 1) pq.max_capacity slot (wrap pq.max_capacity (pq.front + i))
        pq.queue (omega arith) (ground arith) (ground arith)
      ∙ ap₂ (λ d e. if ltb d (pq.current_size - 1) then pq.queue e else entry pq i)
          (distance_offsets pq.max_capacity pq.front m i v.front_in (omega arith) (omega arith))
          (next_offset pq.max_capacity pq.front i v.front_in (omega arith))

  -- Where the size of the queue and the place of the process exceed the capacity by at most one,
  -- the removal takes out that process and keeps the others in their order.
  pub contents-remove_slot :
      pq.current_size + m ≤ pq.max_capacity + 1
      → contents (remove_slot pq slot) ≡ erase_at (contents pq) m
  unfolding remove_slot
  contents-remove_slot room =
      listing-erase_at pq.current_size m (entry pq) (entry (remove_slot pq slot)) within
        (λ i h. ground (arith, entry-remove_slot i)) (λ i h k. ground (arith, entry-remove_slot i))

  -- Where the size of the queue and the place of the removed process together exceed the capacity
  -- by two or more, the shift goes round the ring: the second process of the queue overwrites the
  -- first one.
  pub remove_slot-overwrites :
      pq.max_capacity + 2 ≤ pq.current_size + m → entry (remove_slot pq slot) 0 ≡ entry pq 1
  remove_slot-overwrites over = ground (arith, entry-remove_slot 0)

prev_rear :
    (r : ℤ) (cap : ℕ)
    → neg_part r ≤ 1
    → pos_part r < cap
    → let r' = rem_ℤ (r -ℤ pos 1 +ℤ pos cap) cap in
      (neg_part r' ≡ 0)
      × (pos_part r' < cap)
      × (wrap cap (pos_part r' + 1) ≡ wrap cap (pos_part r + cap - neg_part r))
unfolding rem_ℤ ◌+ℤ◌ ◌-ℤ◌
prev_rear (pos zero) cap lo hi = ground (arith, mod-wrap (cap - 1) cap)
prev_rear (pos (suc n)) cap lo hi = ground (arith, mod-wrap (n + cap) cap)
prev_rear (negsuc zero) zero lo hi = absurd (omega arith)
prev_rear (negsuc zero) (suc zero) lo hi = omega arith
prev_rear (negsuc zero) (suc (suc cap)) lo hi = ground (arith, mod-wrap cap (suc (suc cap)))
prev_rear (negsuc (suc n)) cap lo hi = absurd (omega arith)

-- one step back round the ring
rear_back :
    (cap rp rn x : ℕ)
    → rn ≤ 1
    → rp < cap
    → 0 < x
    → x < cap + cap
    → wrap cap (rp + 1 - rn) ≡ wrap cap x
    → wrap cap (rp + cap - rn) ≡ wrap cap (x - 1)
rear_back cap rp rn x lo hi px hx e = ground arith

-- The removal of a process from the middle of the queue keeps it valid, wherever the process
-- stands.
pub remove_slot-IsValid :
    {pq : ProcessQueue} (min_idx : ℕ)
    → IsValid pq
    → 0 < pq.current_size
    → IsValid (remove_slot pq min_idx)
unfolding remove_slot
remove_slot-IsValid {pq} min_idx v some_left =
    let r = prev_rear pq.rear pq.max_capacity v.rear_low v.rear_high in
    record {
      front_in = v.front_in;
      size_in = omega (arith, v.size_in);
      rear_low = omega (arith, r.0);
      rear_high = r.1;
      rear_next =
          ap (wrap pq.max_capacity) (omega (arith, r.0))
          ∙ r.2
          ∙ rear_back pq.max_capacity (pos_part pq.rear) (neg_part pq.rear)
              (pq.front + pq.current_size) v.rear_low v.rear_high (omega arith) (omega arith)
              v.rear_next
          ∙ ap (wrap pq.max_capacity) (omega arith);
    }
