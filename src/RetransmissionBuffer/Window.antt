-- ===== src/RetransmissionBuffer/Window.antt =====
-- The buffer as the map from the last `size` sequence numbers to their file positions.
use native.Mathlib.Decide.{dec_lt}
use native.Mathlib.Nat.{mod-add-mod, mod-eq_of_lt, mod-eq-sub-mod, mod-lt}
use nasdaq_moldudp64_feed_si.Prelude.{
  ℕ, ◌+◌, ◌-◌, ◌%◌, ◌^◌, ◌≤◌, ◌<◌, bit_and, ◌≡◌, refl, ap, ◌∙◌, subst, ◌≢◌, ◌&&◌, length, get_elem?,
  set, length-set, length-replicate, get_elem?-set_self, get_elem?-set_ne, get_elem?-replicate,
  replicate, none, some, ltb, leb, if◌then◌else◌, arith,
}
use nasdaq_moldudp64_feed_si.Prelude.Bits.{bit_and_pred}
use nasdaq_moldudp64_feed_si.Exception.{ok}
use nasdaq_moldudp64_feed_si.RetransmissionBuffer.{
  MessageRecord, zero_record, RetransmissionBuffer, make, index_for, push, checked_position,
  file_position_for,
}

-- The buffer after the messages 1 to `n` were pushed in order, message `s` at `position s`.
pub record Retains (b : RetransmissionBuffer) (capacity n : ℕ) (position : ℕ → ℕ) : Type 0 where
  pub positive : 0 < capacity
  pub slots : length b.buffer ≡ capacity
  pub index : (s : ℕ) → index_for b s ≡ s % capacity
  pub written : b.write_seq ≡ n
  pub recent :
      (s : ℕ)
      → 1 ≤ s
      → s ≤ n
      → n < s + capacity
      → get_elem? b.buffer (s % capacity)
        ≡ some (record { sequence_number = s; file_position = position s })
  pub untouched : n < capacity → get_elem? b.buffer 0 ≡ some zero_record

-- Fewer than `z` steps do not lead back to the same remainder.
mod-add-ne : (z s d : ℕ) → 0 < d → d < z → (s + d) % z ≢ s % z
mod-add-ne z s d some_steps few e = elim (dec_lt (s % z + d) z) [
  | yes below ↦ omega (arith, e, mod-add-mod s z d, mod-eq_of_lt below)
  | no over ↦ omega (
    arith,
    e,
    mod-add-mod s z d,
    mod-lt s {m = z} (omega arith),
    mod-eq-sub-mod {n = s % z + d} {m = z} (omega arith),
    mod-eq_of_lt {n = s % z + d - z} {m = z} (omega (arith, mod-lt s {m = z} (omega arith))),
  )
]

-- Masking and division find the same slot.
make-index :
    (capacity : ℕ) {b : RetransmissionBuffer} (s : ℕ)
    → capacity < 2 ^ 64
    → make capacity ≡ ok b
    → index_for b s ≡ s % capacity
unfolding make index_for
make-index capacity {b} s small e =
    ground (arith, bit_and_pred capacity s, length-replicate capacity zero_record)

make_parts :
    (capacity : ℕ) {b : RetransmissionBuffer}
    → make capacity ≡ ok b
    → (0 < capacity) × (b.buffer ≡ replicate capacity zero_record) × (b.write_seq ≡ 0)
unfolding make
make_parts capacity e = ground arith

-- A buffer that the constructor returns retains nothing.
pub make-Retains :
    (capacity : ℕ) (position : ℕ → ℕ) {b : RetransmissionBuffer}
    → capacity < 2 ^ 64
    → make capacity ≡ ok b
    → Retains b capacity 0 position
make-Retains capacity position {b} small e =
    let (positive, same, zero_seq) = make_parts capacity e in
    record {
      positive = positive;
      slots = ap length same ∙ length-replicate capacity zero_record;
      index = λ s. make-index capacity s small e;
      written = zero_seq;
      recent = λ s lo hi near. absurd (omega arith);
      untouched =
          λ _. ap (λ l. get_elem? l 0) same ∙ get_elem?-replicate capacity zero_record 0 positive;
    }

index_for-push :
    (m : MessageRecord) (b : RetransmissionBuffer) (s : ℕ) → index_for (push m b) s ≡ index_for b s
unfolding push index_for
index_for-push m b s =
    ap (λ n. if b.use_mask then bit_and s b.mask else s % n)
      (length-set b.buffer (index_for b m.sequence_number) m)

module _ {b : RetransmissionBuffer} {capacity n : ℕ} {position : ℕ → ℕ}
    (r : Retains b capacity n position) where
  abbrev record_of : ℕ → MessageRecord
  record_of s = record { sequence_number = s; file_position = position s }

  abbrev pushed : RetransmissionBuffer
  pushed = push (record_of (n + 1)) b

  slot_of :
      (i : ℕ)
      → get_elem? pushed.buffer i
        ≡ get_elem? (set b.buffer ((n + 1) % capacity) (record_of (n + 1))) i
  unfolding push
  slot_of i = ap (λ j. get_elem? (set b.buffer j (record_of (n + 1))) i) (r.index (n + 1))

  slot_new : get_elem? pushed.buffer ((n + 1) % capacity) ≡ some (record_of (n + 1))
  slot_new =
      slot_of ((n + 1) % capacity)
      ∙ get_elem?-set_self b.buffer ((n + 1) % capacity) (record_of (n + 1))
          (omega (arith, r.slots, mod-lt (n + 1) r.positive))

  slot_old : (i : ℕ) → (n + 1) % capacity ≢ i → get_elem? pushed.buffer i ≡ get_elem? b.buffer i
  slot_old i ne =
      slot_of i ∙ get_elem?-set_ne b.buffer ((n + 1) % capacity) i (record_of (n + 1)) ne

  -- Of the records that are recent after the push, the older ones lie in other slots.
  pub apart : (s : ℕ) → s ≤ n → n + 1 < s + capacity → (n + 1) % capacity ≢ s % capacity
  apart s old near e =
      mod-add-ne capacity s (n + 1 - s) (omega arith) (omega arith)
        (ap (λ k. k % capacity) (omega arith) ∙ e)

  recent-push :
      (s : ℕ)
      → 1 ≤ s
      → s ≤ n + 1
      → n + 1 < s + capacity
      → get_elem? pushed.buffer (s % capacity) ≡ some (record_of s)
  recent-push s lo hi near = elim (dec_lt n s) [
    | yes new ↦
        subst (λ k. get_elem? pushed.buffer (k % capacity) ≡ some (record_of k)) (omega arith)
          slot_new
    | no old ↦
        slot_old (s % capacity) (apart s (omega arith) near)
        ∙ r.recent s lo (omega arith) (omega arith)
  ]

  -- Pushing message `n + 1` after the first `n` retains the first `n + 1`.
  pub push-Retains :
      Retains
        (push (record { sequence_number = n + 1; file_position = position (n + 1) }) b)
        capacity
        (n + 1)
        position
  push-Retains = record {
    positive = r.positive;
    slots = unfold push in (length-set b.buffer (index_for b (n + 1)) _ ∙ r.slots);
    index = λ s. index_for-push (record_of (n + 1)) b s ∙ r.index s;
    written = unfold push in refl;
    recent = recent-push;
    untouched = λ h.
        slot_old 0 (omega (arith, mod-eq_of_lt {n = n + 1} {m = capacity} h))
        ∙ r.untouched (omega arith);
  }

  -- The slot of every sequence number lies inside the buffer.
  pub index_in_range : (s : ℕ) → index_for b s < length b.buffer
  index_in_range s = omega (arith, r.index s, r.slots, mod-lt s r.positive)

  entry_at :
      (s : ℕ)
      → checked_position s (get_elem? b.buffer (index_for b s))
        ≡ checked_position s (get_elem? b.buffer (s % capacity))
  entry_at s = ap (λ i. checked_position s (get_elem? b.buffer i)) (r.index s)

  checked_recent :
      (s : ℕ)
      → 1 ≤ s
      → s ≤ n
      → n < s + capacity
      → checked_position s (get_elem? b.buffer (index_for b s)) ≡ some (position s)
  unfolding checked_position
  checked_recent s lo hi near =
      entry_at s ∙ ap (checked_position s) (r.recent s lo hi near) ∙ ground arith

  -- After `n` messages, a sequence number of at least 1 is found at its file position exactly if
  -- it is one of the last `capacity`; any other is not found. The sums fit 64 bits.
  pub file_position_for-window :
      (s : ℕ)
      → 1 ≤ s
      → s < 2 ^ 64
      → n + capacity < 2 ^ 64
      → file_position_for s b
        ≡ (if leb s n && ltb n (s + capacity) then some (position s) else none)
  unfolding file_position_for
  file_position_for-window s lo small room = ground (arith, r.written, r.slots, checked_recent s)

  -- Sequence number 0 was never pushed, and yet it is found, at file position 0, from the first
  -- message on until the buffer has been filled once.
  pub file_position_for-zero :
      0 < n → n < capacity → capacity < 2 ^ 64 → file_position_for 0 b ≡ some 0
  unfolding file_position_for
  file_position_for-zero some_sent not_full fits = ground (arith, r.written, r.slots, zero_slot)
    where
      zero_slot : checked_position 0 (get_elem? b.buffer (index_for b 0)) ≡ some 0
      zero_slot =
          entry_at 0
          ∙ ap (λ i. checked_position 0 (get_elem? b.buffer i))
              (mod-eq_of_lt {n = 0} {m = capacity} r.positive)
          ∙ ap (checked_position 0) (r.untouched not_full)
          ∙ unfold checked_position in refl
