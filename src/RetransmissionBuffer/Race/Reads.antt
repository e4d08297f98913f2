-- ===== src/RetransmissionBuffer/Race/Reads.antt =====
-- What a reader finds while messages are pushed.
use nasdaq_moldudp64_feed_si.Prelude.{
  ℕ, ◌+◌, ◌^◌, ◌≤◌, ◌<◌, ◌≡◌, ◌≢◌, refl, sym, ap, ◌∙◌, subst, Bool, true, false, length, get_elem?,
  ◌%◌, bit_and, List, set, set-set, length-set, get_elem?-set_ne, ap₂, Option, none, some, ◌==◌,
  if◌then◌else◌, Bool-cases, ◌⊎◌, inl, inr, arith,
}
use nasdaq_moldudp64_feed_si.RetransmissionBuffer.{
  MessageRecord, RetransmissionBuffer, index_for, push,
}
use nasdaq_moldudp64_feed_si.RetransmissionBuffer.Window.{Retains, push-Retains, apart}
use nasdaq_moldudp64_feed_si.RetransmissionBuffer.Race.{
  store_at, copy_record, publish, Reader, asking, accepted, matched, finished, after_load,
  after_compare, after_read, System, message_record, Step, tears, copies, publishes, loads,
  compares, reads, Steps, stop, go,
}

-- The two steps of the writer make up a `push`.
publish-copy_record :
    (m : MessageRecord) (b : RetransmissionBuffer) → publish m (copy_record m b) ≡ push m b
unfolding publish copy_record push
publish-copy_record m b = refl

is_some-none : {A : Type 0} {a : A} → some a ≢ none
is_some-none e = cc

module _ (position : ℕ → ℕ) (seq_num capacity before : ℕ) (positive : 1 ≤ seq_num) where
  -- What the reader has established, when `m` records were copied and the copying of `n` has begun;
  -- `before` were pushed before.
  abbrev Knows : Reader → ℕ → ℕ → Type 0
  Knows asking m n = Unit {0}
  Knows accepted m n = seq_num ≤ m
  Knows matched m n = seq_num ≤ m
  Knows (finished none) m n = n < seq_num + capacity → n + capacity < 2 ^ 64 → before < seq_num
  Knows (finished (some p)) m n = n < seq_num + capacity → p ≡ position seq_num

  Knows-later : (r : Reader) (m n m' n' : ℕ) → m ≤ m' → n ≤ n' → Knows r m n → Knows r m' n'
  Knows-later asking m n m' n' copied begun k = tt
  Knows-later accepted m n m' n' copied begun k = omega arith
  Knows-later matched m n m' n' copied begun k = omega arith
  Knows-later (finished none) m n m' n' copied begun k = λ h small. k (omega arith) (omega arith)
  Knows-later (finished (some p)) m n m' n' copied begun k = λ h. k (omega arith)

  Knows-checked :
      (t : Bool) (m n : ℕ)
      → (t ≡ true → Knows (finished none) m n)
      → (t ≡ false → seq_num ≤ m)
      → Knows (if t then finished none else accepted) m n
  Knows-checked true m n refused h = refused refl
  Knows-checked false m n refused h = h refl

  Knows-after_load :
      (b : RetransmissionBuffer) (m n : ℕ)
      → length b.buffer ≡ capacity
      → b.write_seq ≤ m
      → m ≤ n
      → before ≤ b.write_seq
      → Knows (after_load seq_num b) m n
  unfolding after_load
  Knows-after_load b m n slots h more since =
      Knows-checked _ m n (λ e near small. ground arith) (λ e. ground arith)

  Knows-after_compare :
      (o : Option MessageRecord) (m n : ℕ)
      → seq_num ≤ m
      → (n < seq_num + capacity → o ≡ some (message_record position seq_num))
      → Knows (after_compare seq_num o) m n
  unfolding after_compare
  Knows-after_compare none m n reached h = λ near small. absurd (is_some-none (sym (h near)))
  Knows-after_compare (some entry) m n reached h =
      elim (Bool-cases (entry.sequence_number == seq_num)) [
        | inl same ↦ rw same reached
        | inr other ↦ rw other (λ near small. absurd (different other (same_number (h near))))
      ]
    where
      same_number :
          some entry ≡ some (message_record position seq_num) → entry.sequence_number ≡ seq_num
      same_number e = cc

      different : (entry.sequence_number == seq_num) ≡ false → entry.sequence_number ≢ seq_num
      different e same = ground arith

  Knows-after_read :
      (o : Option MessageRecord) (m n : ℕ)
      → (n < seq_num + capacity → o ≡ some (message_record position seq_num))
      → Knows (after_read o) m n
  unfolding after_read
  Knows-after_read none m n h = λ near small. absurd (is_some-none (sym (h near)))
  Knows-after_read (some entry) m n h = λ near. same_position (h near)
    where
      same_position :
          some entry ≡ some (message_record position seq_num)
          → entry.file_position ≡ position seq_num
      same_position e = cc

  -- The slots `l`: those of the messages copied; while one is being copied, anything in its slot.
  data Slots (clean : RetransmissionBuffer) (m n : ℕ) : List MessageRecord → Type 0 where
    whole : n ≡ m → Slots clean m n clean.buffer
    torn :
        (entry : MessageRecord)
        → n ≡ m + 1
        → Slots clean m n (set clean.buffer (index_for clean (m + 1)) entry)

  -- `clean` is the buffer behind the last complete copy.
  record IsValid (w : System) : Type 0 where
    clean : RetransmissionBuffer
    settled : Retains clean capacity w.copied position
    entries : List MessageRecord
    slots : Slots clean w.copied w.begun entries
    shape : w.buffer ≡ record clean { buffer = entries; write_seq = w.buffer.write_seq }
    published : w.buffer.write_seq ≤ w.copied
    since : before ≤ w.buffer.write_seq
    knows : Knows w.reader w.copied w.begun

  length-Slots :
      {clean : RetransmissionBuffer} {m n : ℕ} {l : List MessageRecord}
      → Slots clean m n l
      → length l ≡ length clean.buffer
  length-Slots (whole e) = refl
  length-Slots {clean} {m} (torn entry e) = length-set clean.buffer (index_for clean (m + 1)) entry

  begun-Slots :
      {clean : RetransmissionBuffer} {m n : ℕ} {l : List MessageRecord}
      → Slots clean m n l
      → (m ≤ n) × (n ≤ m + 1)
  begun-Slots (whole e) = (omega arith, omega arith)
  begun-Slots (torn entry e) = (omega arith, omega arith)

  -- Another write to the slot that is being copied.
  set-Slots :
      {clean : RetransmissionBuffer} {m n : ℕ} {l : List MessageRecord} (entry : MessageRecord)
      → Slots clean m n l
      → set l (index_for clean (m + 1)) entry ≡ set clean.buffer (index_for clean (m + 1)) entry
  set-Slots entry (whole e) = refl
  set-Slots {clean} {m} entry (torn old e) =
      set-set clean.buffer (index_for clean (m + 1)) old entry

  -- Until its slot is written again, the record of a message that was copied is found.
  found-Slots :
      {clean : RetransmissionBuffer} {m n : ℕ} {l : List MessageRecord}
      → Retains clean capacity m position
      → Slots clean m n l
      → seq_num ≤ m
      → n < seq_num + capacity
      → get_elem? l (seq_num % capacity) ≡ some (message_record position seq_num)
  found-Slots r (whole e) reached near = r.recent seq_num positive reached (omega arith)
  found-Slots {clean} {m} r (torn entry e) reached near =
      get_elem?-set_ne clean.buffer (index_for clean (m + 1)) (seq_num % capacity) entry
        (λ same. apart r seq_num reached (omega arith) (sym (r.index (m + 1)) ∙ same))
      ∙ r.recent seq_num positive reached (omega arith)

  -- The slot of a number does not depend on what the slots hold.
  same_index :
      (clean : RetransmissionBuffer) (l : List MessageRecord) (k s : ℕ)
      → length l ≡ length clean.buffer
      → index_for (record clean { buffer = l; write_seq = k }) s ≡ index_for clean s
  unfolding index_for
  same_index clean l k s e = ap (λ n. if clean.use_mask then bit_and s clean.mask else s % n) e

  index-IsValid : {w : System} (v : IsValid w) (s : ℕ) → index_for w.buffer s ≡ index_for v.clean s
  index-IsValid {w} v s =
      ap (λ b. index_for b s) v.shape
      ∙ same_index v.clean v.entries w.buffer.write_seq s (length-Slots v.slots)

  slot :
      {w : System} (v : IsValid w)
      → seq_num ≤ w.copied
      → w.begun < seq_num + capacity
      → get_elem? w.buffer.buffer (index_for w.buffer seq_num)
        ≡ some (message_record position seq_num)
  slot {w} v reached near =
      ap₂ get_elem? (ap (λ b. b.buffer) v.shape) (index-IsValid v seq_num ∙ v.settled.index seq_num)
      ∙ found-Slots v.settled v.slots reached near

  capacity-IsValid : {w : System} (v : IsValid w) → length w.buffer.buffer ≡ capacity
  capacity-IsValid v = ap (λ b. length b.buffer) v.shape ∙ length-Slots v.slots ∙ v.settled.slots

  -- The buffer after a write to the slot of the next message.
  written :
      {w : System} (v : IsValid w) (entry : MessageRecord)
      → store_at (w.copied + 1) entry w.buffer ≡ record v.clean {
        buffer = set v.clean.buffer (index_for v.clean (w.copied + 1)) entry;
        write_seq = w.buffer.write_seq;
      }
  unfolding store_at
  written {w} v entry =
      ap₂
        (λ (b : RetransmissionBuffer) (l : List MessageRecord). record b {
          buffer = l;
          write_seq = w.buffer.write_seq;
        })
        v.shape
        (ap₂ (λ l i. set l i entry) (ap (λ b. b.buffer) v.shape) (index-IsValid v (w.copied + 1))
          ∙ set-Slots entry v.slots)

  Step-IsValid : {w w' : System} → Step position seq_num w w' → IsValid w → IsValid w'
  unfolding store_at copy_record publish push
  Step-IsValid (tears {w} entry settled) v = record {
    clean = v.clean;
    settled = v.settled;
    entries = set v.clean.buffer (index_for v.clean (w.copied + 1)) entry;
    slots = torn entry refl;
    shape = written v entry;
    published = v.published;
    since = v.since;
    knows =
        Knows-later w.reader w.copied w.begun w.copied (w.copied + 1) (omega arith)
          (begun-Slots v.slots).1 v.knows;
  }
  Step-IsValid (copies {w} settled) v = record {
    clean = push (message_record position (w.copied + 1)) v.clean;
    settled = push-Retains v.settled;
    entries =
        set v.clean.buffer (index_for v.clean (w.copied + 1))
          (message_record position (w.copied + 1));
    slots = whole refl;
    shape = written v (message_record position (w.copied + 1));
    published = omega (arith, v.published);
    since = v.since;
    knows =
        Knows-later w.reader w.copied w.begun (w.copied + 1) (w.copied + 1) (omega arith)
          (begun-Slots v.slots).1 v.knows;
  }
  Step-IsValid (publishes {w} e) v = record {
    clean = v.clean;
    settled = v.settled;
    entries = v.entries;
    slots = v.slots;
    shape = ap (λ (b : RetransmissionBuffer). record b { write_seq = w.copied }) v.shape;
    published = omega arith;
    since = omega (arith, v.since, v.published);
    knows = v.knows;
  }
  Step-IsValid (loads {w} e) v = record {
    clean = v.clean;
    settled = v.settled;
    entries = v.entries;
    slots = v.slots;
    shape = v.shape;
    published = v.published;
    since = v.since;
    knows =
        Knows-after_load w.buffer w.copied w.begun (capacity-IsValid v) v.published
          (begun-Slots v.slots).0 v.since;
  }
  Step-IsValid (compares {w} e) v = record {
    clean = v.clean;
    settled = v.settled;
    entries = v.entries;
    slots = v.slots;
    shape = v.shape;
    published = v.published;
    since = v.since;
    knows =
        let reached = subst (λ r. Knows r w.copied w.begun) e v.knows in
        Knows-after_compare _ w.copied w.begun reached (slot v reached);
  }
  Step-IsValid (reads {w} e) v = record {
    clean = v.clean;
    settled = v.settled;
    entries = v.entries;
    slots = v.slots;
    shape = v.shape;
    published = v.published;
    since = v.since;
    knows =
        Knows-after_read _ w.copied w.begun
          (slot v (subst (λ r. Knows r w.copied w.begun) e v.knows));
  }

  Steps-IsValid : {w w' : System} → Steps position seq_num w w' → IsValid w → IsValid w'
  Steps-IsValid stop v = v
  Steps-IsValid (go step steps) v = Steps-IsValid steps (Step-IsValid step v)

module _ (position : ℕ → ℕ) (seq_num capacity n : ℕ) (positive : 1 ≤ seq_num)
    {b : RetransmissionBuffer} (r : Retains b capacity n position) where
  begin-IsValid :
      IsValid position seq_num capacity n positive
        (record { buffer = b; begun = n; copied = n; reader = asking })
  begin-IsValid = record {
    clean = b;
    settled = r;
    entries = b.buffer;
    slots = whole refl;
    shape = refl;
    published = omega (arith, r.written);
    since = omega (arith, r.written);
    knows = tt;
  }

  -- A reader that runs while messages are pushed, in any interleaving of their steps, with `n`
  -- pushed before it began. Suppose that, when it has returned, the copying of fewer than
  -- `capacity` messages behind the one asked for has begun. If it has found a position for the
  -- number (from 1 on), that is the position of the message; and if it has found none, the message
  -- had not been pushed before it began. The sums fit 64 bits.
  pub reader-finds :
      {w : System} (result : Option ℕ)
      → Steps position seq_num (record { buffer = b; begun = n; copied = n; reader = asking }) w
      → w.reader ≡ finished result
      → w.begun < seq_num + capacity
      → w.begun + capacity < 2 ^ 64
      → (result ≡ some (position seq_num)) ⊎ ((result ≡ none) × (n < seq_num))
  reader-finds {w} result steps returned near small = outcome result (
      subst (λ reader. Knows position seq_num capacity n positive reader w.copied w.begun) returned
        (Steps-IsValid position seq_num capacity n positive steps begin-IsValid).knows)
    where
      outcome :
          (o : Option ℕ)
          → Knows position seq_num capacity n positive (finished o) w.copied w.begun
          → (o ≡ some (position seq_num)) ⊎ ((o ≡ none) × (n < seq_num))
      outcome none k = inr (refl, k near small)
      outcome (some p) k = inl (ap some (k near))
