-- ===== src/System/Guard.antt =====
-- What constructors leave behind of descriptors, when they return and when they throw.
use nasdaq_moldudp64_feed_si.Prelude.{
  ℕ, suc, ◌≡◌, ◌≢◌, refl, sym, ap, ◌∙◌, subst, List, [], ◌∷◌, ◌++◌, length, set, get_elem?,
  get_elem?-behind, set-behind, Option, none, some, append-nil, append_assoc, All, arith,
}
use nasdaq_moldudp64_feed_si.Prelude.Int.{ℤ, pos, negsuc}
use nasdaq_moldudp64_feed_si.Exception.{Result, ok, throws, undefined, system_error}
use nasdaq_moldudp64_feed_si.FileDescriptor.{World, adopt, of_syscall, destroy, destroyed, cleanup}
use nasdaq_moldudp64_feed_si.FileDescriptor.Ownership.{
  IsBalanced, adopt-IsBalanced, destroyed-IsBalanced,
}
use nasdaq_moldudp64_feed_si.System.Attempt.{Follows, IsDefined}
use nasdaq_moldudp64_feed_si.System.{
  Call, Kernel, State, Action, lift, ◌>>=◌, unwind, unwound, guarded, adopted, open_descriptor,
}

-- The action leaves the descriptors alone, and does not end in undefined behaviour.
abbrev pub Keeps : {A : Type 0} → State → Result A × State → Type 0
Keeps s (ok a, s') = s'.world ≡ s.world
Keeps s (throws e, s') = s'.world ≡ s.world
Keeps s (undefined, s') = ⊥

bind-cases :
    {A B : Type 0} (s : State) (f : A → Action B) (p : Result A × State)
    → Keeps s p
    → ((a : A) (t : State) → t.world ≡ s.world → Keeps t (f a t))
    → Keeps {A = B} s
        (elim p.0 [ ok a ↦ f a p.1 | throws e ↦ (throws e, p.1) | undefined ↦ (undefined, p.1) ])
bind-cases s f (throws e, s') k next = k
bind-cases s f (undefined, s') k next = k
bind-cases {B = B} s f (ok a, s') k next = carried (f a s') (next a s' k)
  where
    carried : (q : Result B × State) → Keeps s' q → Keeps s q
    carried (ok b, t) e = e ∙ k
    carried (throws x, t) e = e ∙ k
    carried (undefined, t) e = e

pub bind-Keeps :
    {A B : Type 0} (s : State) (m : Action A) (f : A → Action B)
    → Keeps s (m s)
    → ((a : A) (t : State) → t.world ≡ s.world → Keeps t (f a t))
    → Keeps s ((m >>= f) s)
bind-Keeps s m f k next = bind-cases s f (m s) k next

pub Follows-Keeps :
    {A : Type 0} (kernel : Kernel) (s : State) (m : Action A) (cs : List Call)
    → Follows kernel s m cs
    → Keeps s (m s)
Follows-Keeps {A} kernel s m cs h = by_result (m s) (ap (λ (t : State). t.world) h.made) h.defined
  where
    by_result : (p : Result A × State) → p.1.world ≡ s.world → IsDefined p.0 → Keeps s p
    by_result (ok a, t) e d = e
    by_result (throws x, t) e d = e
    by_result (undefined, t) e d = d

pub lift-Keeps : {A : Type 0} (s : State) (r : Result A) → r ≢ undefined → Keeps s (lift r s)
lift-Keeps s (ok a) h = refl
lift-Keeps s (throws e) h = refl
lift-Keeps s undefined h = h refl

abbrev pub IsOpen : Option ℤ → Type 0
IsOpen o = (fd : ℕ) × (o ≡ some (pos fd))

abbrev pub IsClosed : Option ℤ → Type 0
IsClosed o = o ≡ none

-- What follows the older objects, which stay as they are.
pub record Adds (w w' : World) (n : ℕ) (P : Option ℤ → Type 0) : Type 0 where
  pub new : List (Option ℤ)
  pub as_many : length new ≡ n
  pub behind : w'.objects ≡ w.objects ++ new
  pub each : All P new
  pub balanced : IsBalanced w → IsBalanced w'

-- A constructor with `n` descriptors returns with all of them open, or throws with all of them closed.
abbrev pub Constructs : {A : Type 0} → ℕ → State → Result A × State → Type 0
Constructs n s (ok a, s') = Adds s.world s'.world n IsOpen
Constructs n s (throws e, s') = (k : ℕ) × Adds s.world s'.world k IsClosed
Constructs n s (undefined, s') = ⊥

pub Keeps-Constructs :
    {A : Type 0} (s : State) (p : Result A × State) → Keeps s p → Constructs 0 s p
Keeps-Constructs s (ok a, s') k = record {
  new = [];
  as_many = refl;
  behind = ap (λ (w : World). w.objects) k ∙ sym (append-nil s.world.objects);
  each = tt;
  balanced = subst IsBalanced (sym k);
}
Keeps-Constructs s (throws e, s') k = (
  0,
  record {
    new = [];
    as_many = refl;
    behind = ap (λ (w : World). w.objects) k ∙ sym (append-nil s.world.objects);
    each = tt;
    balanced = subst IsBalanced (sym k);
  },
)
Keeps-Constructs s (undefined, s') k = k

-- `t` has one object more than `s`, which owns `fd`.
module _ (s t : State) (fd : ℕ) (grown : t.world.objects ≡ s.world.objects ++ (some (pos fd) ∷ []))
    (kept : IsBalanced s.world → IsBalanced t.world) where
  behind-both :
      (w : World) (new : List (Option ℤ))
      → w.objects ≡ t.world.objects ++ new
      → w.objects ≡ s.world.objects ++ (some (pos fd) ∷ new)
  behind-both w new e =
      e ∙ ap (λ os. os ++ new) grown ∙ append_assoc s.world.objects (some (pos fd) ∷ []) new

  -- The object that is destroyed while an exception leaves.
  found :
      (w : World) (new : List (Option ℤ))
      → w.objects ≡ t.world.objects ++ new
      → get_elem? w.objects (length s.world.objects) ≡ some (some (pos fd))
  found w new e =
      ap (λ os. get_elem? os (length s.world.objects)) (behind-both w new e)
      ∙ get_elem?-behind s.world.objects new (some (pos fd))

  -- What `destroy` leaves.
  abbrev pub left : World → World
  left w = record w {
    objects = set w.objects (length s.world.objects) none;
    closed = fd ∷ w.closed;
  }

  pub destroy-found :
      (w : World) (new : List (Option ℤ))
      → w.objects ≡ t.world.objects ++ new
      → destroy (length s.world.objects) w ≡ ok (left w)
  unfolding destroy destroyed cleanup
  destroy-found w new e = ap (λ o. destroyed (length s.world.objects) o w) (found w new e)

  pub left-Adds :
      (w : World) {k : ℕ} → Adds t.world w k IsClosed → Adds s.world (left w) (suc k) IsClosed
  unfolding destroyed destroy
  left-Adds w h = record {
    new = none ∷ h.new;
    as_many = ap suc h.as_many;
    behind =
        ap (λ os. set os (length s.world.objects) none) (behind-both w h.new h.behind)
        ∙ set-behind s.world.objects h.new (some (pos fd)) none;
    each = (refl, h.each);
    balanced = λ b.
        destroyed-IsBalanced (length s.world.objects) _ w refl (destroy-found w h.new h.behind)
          (h.balanced (kept b));
  }

  pub grown-Adds : (w : World) {n : ℕ} → Adds t.world w n IsOpen → Adds s.world w (suc n) IsOpen
  grown-Adds w h = record {
    new = some (pos fd) ∷ h.new;
    as_many = ap suc h.as_many;
    behind = behind-both w h.new h.behind;
    each = ((fd, refl), h.each);
    balanced = λ b. h.balanced (kept b);
  }

  pub unwind-Constructs :
      {A : Type 0} (n : ℕ) (p : Result A × State)
      → Constructs n t p
      → Constructs (suc n) s (unwind (length s.world.objects) p)
  unfolding unwind unwound
  unwind-Constructs n (ok a, s') h = grown-Adds s'.world h
  unwind-Constructs n (undefined, s') h = h
  unwind-Constructs {A} n (throws e, s') (k, h) =
      subst (λ r. Constructs {A = A} (suc n) s (unwound e s' r))
        (sym (destroy-found s'.world h.new h.behind)) (suc k, left-Adds s'.world h)

of_syscall-pos : (fd errno : ℕ) (w : World) → of_syscall (pos fd) errno w ≡ ok (adopt (pos fd) w)
unfolding of_syscall
of_syscall-pos fd errno w = ground arith

of_syscall-negsuc :
    (m errno : ℕ) (w : World) → of_syscall (negsuc m) errno w ≡ throws (system_error errno)
unfolding of_syscall
of_syscall-negsuc m errno w = ground arith

-- A constructor that first opens a descriptor, and guards the rest by it.
pub guarded-Constructs :
    {A : Type 0} (kernel : Kernel) (c : Call) (n : ℕ) (s : State) (f : ℕ → Action A)
    → ((t : State) → Constructs n t (f (length s.world.objects) t))
    → Constructs (suc n) s ((open_descriptor kernel c >>= λ object. guarded object (f object)) s)
unfolding open_descriptor adopted guarded adopt
guarded-Constructs {A} kernel c n s f rest =
    by_result (kernel s.calls c).result (kernel s.calls c).errno
  where
    made : List Call
    made = s.calls ++ (c ∷ [])

    begun : ℕ → State
    begun fd = record { calls = made; world = adopt (pos fd) s.world }

    grown_by : (fd : ℕ) → (begun fd).world.objects ≡ s.world.objects ++ (some (pos fd) ∷ [])
    grown_by fd = refl

    after : Result World → Result A × State
    after opened =
        let p = adopted s.world opened (record s { calls = made }) in
        elim p.0 [
          | ok object ↦ guarded object (f object) p.1
          | throws e ↦ (throws e, p.1)
          | undefined ↦ (undefined, p.1)
        ]

    by_result :
        (result : ℤ) (errno : ℕ) → Constructs (suc n) s (after (of_syscall result errno s.world))
    by_result (pos fd) errno =
        subst (λ r. Constructs (suc n) s (after r)) (sym (of_syscall-pos fd errno s.world))
          (unwind-Constructs s (begun fd) fd (grown_by fd) (adopt-IsBalanced (pos fd) s.world) n
            (f (length s.world.objects) (begun fd)) (rest (begun fd)))
    by_result (negsuc m) errno =
        subst (λ r. Constructs (suc n) s (after r)) (sym (of_syscall-negsuc m errno s.world))
          (
            0,
            record {
              new = [];
              as_many = refl;
              behind = sym (append-nil s.world.objects);
              each = tt;
              balanced = λ b. b;
            },
          )
