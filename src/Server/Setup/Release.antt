-- ===== src/Server/Setup/Release.antt =====
-- What the constructor of the server leaves, when it returns and when it throws.
use nasdaq_moldudp64_feed_si.Prelude.{
  ℕ, suc, ◌≡◌, sym, ap, ◌∙◌, subst, List, [], ◌∷◌, ◌++◌, length, replicate, set, get_elem?,
  get_elem?-behind, set-behind, append-nil, Option, none, some,
}
use nasdaq_moldudp64_feed_si.Prelude.Int.{ℤ, pos}
use nasdaq_moldudp64_feed_si.Exception.{Result, ok, throws, undefined}
use nasdaq_moldudp64_feed_si.FileDescriptor
use nasdaq_moldudp64_feed_si.FileDescriptor.{adopt}
use nasdaq_moldudp64_feed_si.FileDescriptor.Ownership
use nasdaq_moldudp64_feed_si.FileDescriptor.Ownership.{adopt-IsBalanced}
use nasdaq_moldudp64_feed_si.MemoryMappedFile
use nasdaq_moldudp64_feed_si.MemoryMappedFile.{
  MemoryMappedFile, Answers, gives, advised, cleanup, unmap, closed, destroy_object,
}
use nasdaq_moldudp64_feed_si.MemoryMappedFile.Ownership.{IsBalanced}
use nasdaq_moldudp64_feed_si.MemoryMappedFile.Operations.{Step-IsBalanced, destroys, cleanup-others}
use nasdaq_moldudp64_feed_si.MemoryMappedFile.Outcome.{Makes, Made}
use nasdaq_moldudp64_feed_si.System.{State, Action}
use nasdaq_moldudp64_feed_si.System.Guard.{
  IsOpen, IsClosed, Adds, Constructs, left, left-Adds, destroy-found, grown-Adds,
}
use nasdaq_moldudp64_feed_si.Server.Setup.{
  Construction, Spawn, Machine, released, release, behind_file,
}
use nasdaq_moldudp64_feed_si.Server.Setup.Pool.{Created}
use nasdaq_moldudp64_feed_si.System.Compose.{Returns}

-- The three descriptors of the server are open, and one more object owns a mapping.
pub record Opens (m m' : Machine) : Type 0 where
  pub files : Adds m.mappings.files m'.mappings.files 3 IsOpen
  pub object : MemoryMappedFile
  pub address : ℕ
  pub mapped_file : object.mapped_file ≡ some address
  pub behind : m'.mappings.objects ≡ m.mappings.objects ++ (some object ∷ [])

-- Every new descriptor object and every new mapped file is destroyed.
pub record Closes (m m' : Machine) : Type 0 where
  pub descriptors : ℕ
  pub files : Adds m.mappings.files m'.mappings.files descriptors IsClosed
  pub mapped_files : ℕ
  pub behind : m'.mappings.objects ≡ m.mappings.objects ++ replicate mapped_files none

abbrev pub Serves : Spawn → ℕ → Machine → Result Construction × Machine → Type 0
Serves spawn num m (ok construction, m') = Opens m m' × Created spawn num construction
Serves spawn num m (throws e, m') = Closes m m'
Serves spawn num m (undefined, m') = ⊥

module _ (m : Machine) (w : MemoryMappedFile.World) (made : Makes m.mappings w) where
  abbrev before : State
  before = record { calls = m.calls; world = m.mappings.files }

  abbrev after : State
  after = record { calls = m.calls; world = w.files }

  grown : after.world.objects ≡ before.world.objects ++ (some (pos made.fd) ∷ [])
  unfolding adopt
  grown = ap (λ (f : FileDescriptor.World). f.objects) made.adopts

  kept : Ownership.IsBalanced m.mappings.files → Ownership.IsBalanced w.files
  kept b =
      subst Ownership.IsBalanced (sym made.adopts)
        (adopt-IsBalanced (pos made.fd) m.mappings.files b)

  -- What an exception leaves of the mapped file.
  abbrev unwound : FileDescriptor.World → MemoryMappedFile.World
  unwound files = record w { files = files }

  abbrev left_files : FileDescriptor.World → FileDescriptor.World
  left_files files = left before after made.fd grown kept files

  abbrev destroyed : FileDescriptor.World → MemoryMappedFile.World
  destroyed files = record (cleanup made.object (unwound files)) {
    files = left_files files;
    objects = set (cleanup made.object (unwound files)).objects (length m.mappings.objects) none;
  }

  destroy-destroyed :
      (files : FileDescriptor.World) (new : List (Option ℤ))
      → files.objects ≡ w.files.objects ++ new
      → MemoryMappedFile.destroy (length m.mappings.objects) (unwound files) ≡ ok (destroyed files)
  unfolding MemoryMappedFile.destroy destroy_object closed
  destroy-destroyed files new e =
      ap (λ o. destroy_object (length m.mappings.objects) o (unwound files))
        (ap (λ os. get_elem? os (length m.mappings.objects)) made.behind
          ∙ get_elem?-behind m.mappings.objects [] (some made.object))
      ∙ ap
          (λ i.
            closed (length m.mappings.objects) (cleanup made.object (unwound files))
              (FileDescriptor.destroy i files))
          made.file
      ∙ ap (closed (length m.mappings.objects) (cleanup made.object (unwound files)))
          (destroy-found before after made.fd grown kept files new e)

  destroyed-behind :
      (files : FileDescriptor.World)
      → (destroyed files).objects ≡ m.mappings.objects ++ replicate 1 none
  destroyed-behind files =
      ap (λ os. set os (length m.mappings.objects) none)
        ((cleanup-others made.object (unwound files)).1 ∙ made.behind)
      ∙ set-behind m.mappings.objects [] (some made.object) none

  release-Serves :
      (spawn : Spawn) (num : ℕ) (p : Result Construction × State)
      → Constructs 2 after p
      → Returns (Created spawn num) p
      → Serves spawn num m (release (length m.mappings.objects) w p)
  unfolding release released
  release-Serves spawn num (ok construction, s) h r = (
    record {
      files = grown-Adds before after made.fd grown kept s.world h;
      object = made.object;
      address = made.address;
      mapped_file = made.mapped_file;
      behind = made.behind;
    },
    r,
  )
  release-Serves spawn num (undefined, s) h r = h
  release-Serves spawn num (throws e, s) (k, h) _ =
      subst (λ r. Serves spawn num m (released e s.calls (unwound s.world) r))
        (sym (destroy-destroyed s.world h.new h.behind))
        (record {
          descriptors = suc k;
          files = left-Adds before after made.fd grown kept s.world h;
          mapped_files = 1;
          behind = destroyed-behind s.world;
        })

  release-IsBalanced :
      (p : Result Construction × State)
      → Constructs 2 after p
      → IsBalanced w
      → IsBalanced (release (length m.mappings.objects) w p).1.mappings
  unfolding release released
  release-IsBalanced (ok construction, s) h b = (b.0, h.balanced b.1)
  release-IsBalanced (undefined, s) h b = absurd h
  release-IsBalanced (throws e, s) (k, h) b =
      let eq = destroy-destroyed s.world h.new h.behind in
      subst (λ r. IsBalanced (released e s.calls (unwound s.world) r).1.mappings) (sym eq)
        (Step-IsBalanced (destroys (length m.mappings.objects) eq) (b.0, h.balanced b.1))

pub behind_file-Serves :
    (spawn : Spawn) (num : ℕ) (rest : Action Construction) (m : Machine)
    (p : Result (Unit {0}) × MemoryMappedFile.World)
    → ((s : State) → Constructs 2 s (rest s))
    → ((s : State) → Returns (Created spawn num) (rest s))
    → Made m.mappings p
    → Serves spawn num m (behind_file rest m p)
unfolding behind_file
behind_file-Serves spawn num rest m (ok u, w) h r made =
    release-Serves m w made spawn num _ (h _) (r _)
behind_file-Serves spawn num rest m (throws e, w) h r made = record {
  descriptors = made.descriptors;
  files = made.files;
  mapped_files = 0;
  behind = made.objects ∙ sym (append-nil m.mappings.objects);
}
behind_file-Serves spawn num rest m (undefined, w) h r made = made

pub behind_file-IsBalanced :
    (rest : Action Construction) (m : Machine) (p : Result (Unit {0}) × MemoryMappedFile.World)
    → ((s : State) → Constructs 2 s (rest s))
    → Made m.mappings p
    → IsBalanced p.1
    → IsBalanced (behind_file rest m p).1.mappings
unfolding behind_file
behind_file-IsBalanced rest m (ok u, w) h made b = release-IsBalanced m w made _ (h _) b
behind_file-IsBalanced rest m (throws e, w) h made b = b
behind_file-IsBalanced rest m (undefined, w) h made b = b
