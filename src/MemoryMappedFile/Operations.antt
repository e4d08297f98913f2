-- ===== src/MemoryMappedFile/Operations.antt =====
-- Any sequence of operations keeps every mapping owned by one object or unmapped once.
use nasdaq_moldudp64_feed_si.Prelude.{
  ℕ, ◌+◌, ◌≡◌, ◌≢◌, refl, sym, ap, ◌∙◌, subst, Bool, List, [], length, set, get_elem?, Option, none,
  some, ◌==◌, if◌then◌else◌, Bool-cases, get_elem?-set_ne, inl, inr, arith,
}
use nasdaq_moldudp64_feed_si.Prelude.Counting.{count, owned, owned-append, owned-set}
use nasdaq_moldudp64_feed_si.Exception.{Result, ok, throws, undefined}
use nasdaq_moldudp64_feed_si.FileDescriptor
use nasdaq_moldudp64_feed_si.FileDescriptor.Ownership
use nasdaq_moldudp64_feed_si.MemoryMappedFile.{
  MemoryMappedFile, World, Answers, gives, advised, make, unmap, cleanup, emptied, moved, move_from,
  move_construct, assigned, assign_from, move_assign, closed, destroy_object, destroy,
}
use nasdaq_moldudp64_feed_si.MemoryMappedFile.Ownership.{
  same, holds_mapping, holds, IsBalanced, from_file-IsBalanced,
}

of_ok : {A : Type 0} {a b : A} → ◌≡◌ {A = Result A} (ok a) (ok b) → a ≡ b
of_ok e = cc

moved-IsBalanced :
    (other : ℕ) (object : MemoryMappedFile) (w : World) (r : Result FileDescriptor.World)
    {w' : World}
    → get_elem? w.objects other ≡ some (some object)
    → FileDescriptor.move_construct object.file w.files ≡ r
    → moved other object w r ≡ ok w'
    → IsBalanced w
    → IsBalanced w'
unfolding moved emptied
moved-IsBalanced other object w (ok files) at_other eq e b = subst IsBalanced (of_ok e) (
  λ x. omega (
    arith,
    b.0 x,
    owned-append holds x (set w.objects other (some (emptied object))) (some new),
    owned-set holds x w.objects other (some object) (some (emptied object)) at_other,
  ),
  FileDescriptor.Ownership.Step-IsBalanced (FileDescriptor.Ownership.move_constructs object.file eq)
      b.1,
)
  where
    new : MemoryMappedFile
    new = record object { file = length w.files.objects }
moved-IsBalanced other object w (throws e') at_other eq e b = cc
moved-IsBalanced other object w undefined at_other eq e b = cc

move_from-IsBalanced :
    (other : ℕ) (o : Option (Option MemoryMappedFile)) (w : World) {w' : World}
    → get_elem? w.objects other ≡ o
    → move_from other o w ≡ ok w'
    → IsBalanced w
    → IsBalanced w'
unfolding move_from
move_from-IsBalanced other (some (some object)) w at_other e b =
    moved-IsBalanced other object w _ at_other refl e b
move_from-IsBalanced other (some none) w at_other e b = cc
move_from-IsBalanced other none w at_other e b = cc

unmap-owned :
    (o : Option ℕ) (n : ℕ) (w : World) (x : ℕ × ℕ)
    → owned same x (unmap o n w).unmapped ≡ owned same x w.unmapped + holds_mapping x o n
unfolding unmap
unmap-owned none n w x = omega arith
unmap-owned (some address) n w x = omega arith

cleanup-owned :
    (old : MemoryMappedFile) (w : World) (x : ℕ × ℕ)
    → owned same x (cleanup old w).unmapped ≡ owned same x w.unmapped + holds x (some old)
unfolding cleanup
cleanup-owned old w x = unmap-owned old.mapped_file old.length w x

-- What `munmap` leaves alone.
unmap-others :
    (o : Option ℕ) (n : ℕ) (w : World)
    → ((unmap o n w).mapped ≡ w.mapped) × ((unmap o n w).objects ≡ w.objects)
unfolding unmap
unmap-others none n w = (refl, refl)
unmap-others (some address) n w = (refl, refl)

pub cleanup-others :
    (old : MemoryMappedFile) (w : World)
    → ((cleanup old w).mapped ≡ w.mapped) × ((cleanup old w).objects ≡ w.objects)
unfolding cleanup
cleanup-others old w = unmap-others old.mapped_file old.length w

assigned-IsBalanced :
    (this other : ℕ) (old object : MemoryMappedFile) (w : World) (r : Result FileDescriptor.World)
    {w' : World}
    → this ≢ other
    → get_elem? w.objects this ≡ some (some old)
    → get_elem? w.objects other ≡ some (some object)
    → FileDescriptor.move_assign old.file object.file w.files ≡ r
    → assigned this other old object (cleanup old w) r ≡ ok w'
    → IsBalanced w
    → IsBalanced w'
unfolding assigned emptied
assigned-IsBalanced this other old object w (ok files) apart at_this at_other eq e b =
    subst IsBalanced (of_ok e) (
      kept,
      FileDescriptor.Ownership.Step-IsBalanced
          (FileDescriptor.Ownership.move_assigns old.file object.file eq) b.1,
    )
  where
    left : List (Option MemoryMappedFile) → List (Option MemoryMappedFile)
    left os = set os other (some (emptied object))

    new : Option MemoryMappedFile
    new = some (record object { file = old.file })

    kept :
        (x : ℕ × ℕ)
        → owned same x (cleanup old w).mapped
          ≡ owned same x (cleanup old w).unmapped
            + owned holds x (set (left (cleanup old w).objects) this new)
    kept x = omega (
      arith,
      b.0 x,
      cleanup-owned old w x,
      ap (owned same x) (cleanup-others old w).0,
      ap (λ os. owned holds x (set (left os) this new)) (cleanup-others old w).1,
      owned-set holds x w.objects other (some object) (some (emptied object)) at_other,
      owned-set holds x (left w.objects) this (some old) new (
          get_elem?-set_ne w.objects other this (some (emptied object)) (λ s. apart (sym s))
          ∙ at_this),
    )
assigned-IsBalanced this other old object w (throws e') apart at_this at_other eq e b = cc
assigned-IsBalanced this other old object w undefined apart at_this at_other eq e b = cc

assign_from-IsBalanced :
    (this other : ℕ) (o p : Option (Option MemoryMappedFile)) (w : World) {w' : World}
    → get_elem? w.objects this ≡ o
    → get_elem? w.objects other ≡ p
    → assign_from this other o p w ≡ ok w'
    → IsBalanced w
    → IsBalanced w'
unfolding assign_from
assign_from-IsBalanced this other (some (some old)) (some (some object)) w at_this at_other e b =
    elim (Bool-cases (this == other)) [
      | inl same ↦ subst IsBalanced (of_ok (ap chosen (sym same) ∙ e)) b
      | inr different ↦
          assigned-IsBalanced this other old object w _ (ground arith) at_this at_other refl
            (ap chosen (sym different) ∙ e) b
    ]
  where
    chosen : Bool → Result World
    chosen t =
        if t
        then ok w
        else assigned this other old object (cleanup old w)
            (FileDescriptor.move_assign old.file object.file w.files)
assign_from-IsBalanced this other (some (some old)) (some none) w at_this at_other e b = cc
assign_from-IsBalanced this other (some (some old)) none w at_this at_other e b = cc
assign_from-IsBalanced this other (some none) p w at_this at_other e b = cc
assign_from-IsBalanced this other none p w at_this at_other e b = cc

closed-IsBalanced :
    (this : ℕ) (object : MemoryMappedFile) (w : World) (r : Result FileDescriptor.World)
    {w' : World}
    → get_elem? w.objects this ≡ some (some object)
    → FileDescriptor.destroy object.file w.files ≡ r
    → closed this (cleanup object w) r ≡ ok w'
    → IsBalanced w
    → IsBalanced w'
unfolding closed
closed-IsBalanced this object w (ok files) at_this eq e b = subst IsBalanced (of_ok e) (
  kept,
  FileDescriptor.Ownership.Step-IsBalanced (FileDescriptor.Ownership.destroys object.file eq) b.1,
)
  where
    kept :
        (x : ℕ × ℕ)
        → owned same x (cleanup object w).mapped
          ≡ owned same x (cleanup object w).unmapped
            + owned holds x (set (cleanup object w).objects this none)
    kept x = omega (
      arith,
      b.0 x,
      cleanup-owned object w x,
      ap (owned same x) (cleanup-others object w).0,
      ap (λ os. owned holds x (set os this none)) (cleanup-others object w).1,
      owned-set holds x w.objects this (some object) none at_this,
    )
closed-IsBalanced this object w (throws e') at_this eq e b = cc
closed-IsBalanced this object w undefined at_this eq e b = cc

destroy_object-IsBalanced :
    (this : ℕ) (o : Option (Option MemoryMappedFile)) (w : World) {w' : World}
    → get_elem? w.objects this ≡ o
    → destroy_object this o w ≡ ok w'
    → IsBalanced w
    → IsBalanced w'
unfolding destroy_object
destroy_object-IsBalanced this (some (some object)) w at_this e b =
    closed-IsBalanced this object w _ at_this refl e b
destroy_object-IsBalanced this (some none) w at_this e b = cc
destroy_object-IsBalanced this none w at_this e b = cc

-- One operation. The constructor may throw, unless it is `madvise` that fails.
pub data Step : World → World → Type 0 where
  makes :
      {w : World} (madvise_flags : ℕ) (a : Answers)
      → advised madvise_flags a.madvise ≡ gives tt
      → Step w (make madvise_flags a w).1
  move_constructs : {w w' : World} (other : ℕ) → move_construct other w ≡ ok w' → Step w w'
  move_assigns : {w w' : World} (this other : ℕ) → move_assign this other w ≡ ok w' → Step w w'
  destroys : {w w' : World} (this : ℕ) → destroy this w ≡ ok w' → Step w w'

-- Any sequence of them.
pub data Steps : World → World → Type 0 where
  stop : {w : World} → Steps w w
  go : {w w' w'' : World} → Step w w' → Steps w' w'' → Steps w w''

pub Step-IsBalanced : {w w' : World} → Step w w' → IsBalanced w → IsBalanced w'
unfolding make move_construct move_assign destroy
Step-IsBalanced {w} (makes madvise_flags a h) b =
    from_file-IsBalanced madvise_flags a (FileDescriptor.of_path a.path w.files) w refl h b
Step-IsBalanced {w} (move_constructs other e) b = move_from-IsBalanced other _ w refl e b
Step-IsBalanced {w} (move_assigns this other e) b =
    assign_from-IsBalanced this other _ _ w refl refl e b
Step-IsBalanced {w} (destroys this e) b = destroy_object-IsBalanced this _ w refl e b

Steps-IsBalanced : {w w' : World} → Steps w w' → IsBalanced w → IsBalanced w'
Steps-IsBalanced stop b = b
Steps-IsBalanced (go step steps) b = Steps-IsBalanced steps (Step-IsBalanced step b)

abbrev pub empty : World
empty = record { files = FileDescriptor.Ownership.empty; objects = []; mapped = []; unmapped = [] }

-- After any sequence of operations from no objects on, in which no constructor failed in `madvise`,
-- every mapping was made as often as it was unmapped plus the number of objects that own it, and
-- every descriptor was opened as often as it was closed plus the number of descriptor objects that
-- own it. The constructors in the sequence may have thrown.
pub Steps-mapped :
    {w : World} (x : ℕ × ℕ) (fd : ℕ)
    → Steps empty w
    → (owned same x w.mapped ≡ owned same x w.unmapped + owned holds x w.objects)
      × (count fd w.files.opened
          ≡ count fd w.files.closed + FileDescriptor.Ownership.owned fd w.files.objects)
Steps-mapped x fd steps =
    let b = Steps-IsBalanced steps ((λ y. refl), (λ y. refl)) in (b.0 x, b.1 fd)
