-- ===== src/FileDescriptor/Ownership.antt =====
-- Every descriptor that an object got is either still owned by one object or was closed once.
use nasdaq_moldudp64_feed_si.Prelude.{
  ℕ, ◌+◌, ◌≡◌, ◌≢◌, refl, sym, ap, ◌∙◌, subst, Bool, true, false, not, ◌||◌, List, [], set,
  get_elem?, Option, none, some, ◌==◌, if◌then◌else◌, Bool-cases, get_elem?-set_ne, inl, inr, arith,
}
use nasdaq_moldudp64_feed_si.Prelude.Counting
use nasdaq_moldudp64_feed_si.Prelude.Counting.{one, count, owned-append, owned-set}
use nasdaq_moldudp64_feed_si.Prelude.Int.{ℤ, pos, negsuc}
use nasdaq_moldudp64_feed_si.Exception.{Exception, Result, ok, throws}
use nasdaq_moldudp64_feed_si.FileDescriptor.{
  World, PathInfo, adopt, construct, of_fd, of_path, of_syscall, cleanup, moved, move_construct,
  assigned, move_assign, destroyed, destroy,
}

abbrev pub holds : ℕ → Option ℤ → ℕ
holds x (some (pos fd)) = one x fd
holds x (some (negsuc n)) = 0
holds x none = 0

-- How many objects own the descriptor.
abbrev pub owned : ℕ → List (Option ℤ) → ℕ
owned = Counting.owned holds

abbrev pub IsBalanced : World → Type 0
IsBalanced w = (x : ℕ) → count x w.opened ≡ count x w.closed + owned x w.objects

pub adopt-IsBalanced : (fd : ℤ) (w : World) → IsBalanced w → IsBalanced (adopt fd w)
unfolding adopt
adopt-IsBalanced (pos fd) w b x = omega (arith, b x, owned-append holds x w.objects (some (pos fd)))
adopt-IsBalanced (negsuc n) w b x =
    omega (arith, b x, owned-append holds x w.objects (some (negsuc n)))

of_ok : {A : Type 0} {a b : A} → ◌≡◌ {A = Result A} (ok a) (ok b) → a ≡ b
of_ok e = cc

-- What is constructed, unless an exception is thrown.
of_check :
    {A : Type 0} (t : Bool) (ex : Exception) {a b : A}
    → ◌≡◌ {A = Result A} (if t then throws ex else ok a) (ok b)
    → a ≡ b
of_check true ex e = cc
of_check false ex e = of_ok e

-- Behind a check that did not throw.
of_second :
    {A : Type 0} (t : Bool) (ex : Exception) {r : Result A} {b : A}
    → (if t then throws ex else r) ≡ ok b
    → r ≡ ok b
of_second true ex e = cc
of_second false ex e = e

moved-IsBalanced :
    (other : ℕ) (o : Option (Option ℤ)) (w : World) {w' : World}
    → get_elem? w.objects other ≡ o
    → moved o other w ≡ ok w'
    → IsBalanced w
    → IsBalanced w'
unfolding moved
moved-IsBalanced other (some (some fd)) w at_other e b = subst IsBalanced (of_ok e) λ x. omega (
  arith,
  b x,
  owned-append holds x (set w.objects other (some (negsuc 0))) (some fd),
  owned-set holds x w.objects other (some fd) (some (negsuc 0)) at_other,
)
moved-IsBalanced other (some none) w at_other e b = cc
moved-IsBalanced other none w at_other e b = cc

pub destroyed-IsBalanced :
    (this : ℕ) (o : Option (Option ℤ)) (w : World) {w' : World}
    → get_elem? w.objects this ≡ o
    → destroyed this o w ≡ ok w'
    → IsBalanced w
    → IsBalanced w'
unfolding destroyed cleanup
destroyed-IsBalanced this (some (some fd)) w at_this e b =
    subst IsBalanced (of_ok e) (kept fd at_this)
  where
    kept :
        (fd : ℤ)
        → get_elem? w.objects this ≡ some (some fd)
        → IsBalanced (record (cleanup fd w) { objects = set (cleanup fd w).objects this none })
    kept (pos n) h x = omega (arith, b x, owned-set holds x w.objects this (some (pos n)) none h)
    kept (negsuc n) h x =
        omega (arith, b x, owned-set holds x w.objects this (some (negsuc n)) none h)
destroyed-IsBalanced this (some none) w at_this e b = cc
destroyed-IsBalanced this none w at_this e b = cc

-- A descriptor moves from one object to another, which closes the one it had.
assigned-apart :
    (this other : ℕ) (old fd : ℤ) (w : World)
    → this ≢ other
    → get_elem? w.objects this ≡ some (some old)
    → get_elem? w.objects other ≡ some (some fd)
    → IsBalanced w
    → IsBalanced (record (cleanup old w) {
      objects = set (set (cleanup old w).objects other (some (negsuc 0))) this (some fd);
    })
unfolding cleanup
assigned-apart this other (pos n) fd w apart at_this at_other b x = omega (
  arith,
  b x,
  owned-set holds x w.objects other (some fd) (some (negsuc 0)) at_other,
  owned-set holds x (set w.objects other (some (negsuc 0))) this (some (pos n)) (some fd)
      (get_elem?-set_ne w.objects other this (some (negsuc 0)) (λ e. apart (sym e)) ∙ at_this),
)
assigned-apart this other (negsuc n) fd w apart at_this at_other b x = omega (
  arith,
  b x,
  owned-set holds x w.objects other (some fd) (some (negsuc 0)) at_other,
  owned-set holds x (set w.objects other (some (negsuc 0))) this (some (negsuc n)) (some fd)
      (get_elem?-set_ne w.objects other this (some (negsuc 0)) (λ e. apart (sym e)) ∙ at_this),
)

assigned-IsBalanced :
    (this other : ℕ) (o p : Option (Option ℤ)) (w : World) {w' : World}
    → get_elem? w.objects this ≡ o
    → get_elem? w.objects other ≡ p
    → assigned this other o p w ≡ ok w'
    → IsBalanced w
    → IsBalanced w'
unfolding assigned
assigned-IsBalanced this other (some (some old)) (some (some fd)) w at_this at_other e b =
    elim (Bool-cases (this == other)) [
      | inl same ↦
          subst IsBalanced (of_ok (ap (λ t. if t then ok w else ok changed) (sym same) ∙ e)) b
      | inr different ↦
          subst IsBalanced (of_ok (ap (λ t. if t then ok w else ok changed) (sym different) ∙ e))
            (assigned-apart this other old fd w (ground arith) at_this at_other b)
    ]
  where
    changed : World
    changed = record (cleanup old w) {
      objects = set (set (cleanup old w).objects other (some (negsuc 0))) this (some fd);
    }
assigned-IsBalanced this other (some (some old)) (some none) w at_this at_other e b = cc
assigned-IsBalanced this other (some (some old)) none w at_this at_other e b = cc
assigned-IsBalanced this other (some none) p w at_this at_other e b = cc
assigned-IsBalanced this other none p w at_this at_other e b = cc

-- One operation that returns.
pub data Step : World → World → Type 0 where
  constructs : {w : World} → Step w (construct w)
  takes_fd : {w w' : World} (fd : ℤ) → of_fd fd w ≡ ok w' → Step w w'
  opens_path : {w w' : World} (path : PathInfo) → of_path path w ≡ ok w' → Step w w'
  calls : {w w' : World} (result : ℤ) (errno : ℕ) → of_syscall result errno w ≡ ok w' → Step w w'
  move_constructs : {w w' : World} (other : ℕ) → move_construct other w ≡ ok w' → Step w w'
  move_assigns : {w w' : World} (this other : ℕ) → move_assign this other w ≡ ok w' → Step w w'
  destroys : {w w' : World} (this : ℕ) → destroy this w ≡ ok w' → Step w w'

-- Any sequence of them.
pub data Steps : World → World → Type 0 where
  stop : {w : World} → Steps w w
  go : {w w' w'' : World} → Step w w' → Steps w' w'' → Steps w w''

pub Step-IsBalanced : {w w' : World} → Step w w' → IsBalanced w → IsBalanced w'
unfolding construct of_fd of_path of_syscall move_construct move_assign destroy
Step-IsBalanced {w} constructs b = adopt-IsBalanced (negsuc 0) w b
Step-IsBalanced {w} (takes_fd fd e) b = subst IsBalanced (of_check _ _ e) (adopt-IsBalanced fd w b)
Step-IsBalanced {w} (opens_path path e) b =
    subst IsBalanced (of_check _ _ (of_second (not path.exists || path.is_directory) _ e))
      (adopt-IsBalanced path.open_result w b)
Step-IsBalanced {w} (calls result errno e) b =
    subst IsBalanced (of_check _ _ e) (adopt-IsBalanced result w b)
Step-IsBalanced {w} (move_constructs other e) b = moved-IsBalanced other _ w refl e b
Step-IsBalanced {w} (move_assigns this other e) b =
    assigned-IsBalanced this other _ _ w refl refl e b
Step-IsBalanced {w} (destroys this e) b = destroyed-IsBalanced this _ w refl e b

Steps-IsBalanced : {w w' : World} → Steps w w' → IsBalanced w → IsBalanced w'
Steps-IsBalanced stop b = b
Steps-IsBalanced (go step steps) b = Steps-IsBalanced steps (Step-IsBalanced step b)

abbrev pub empty : World
empty = record { objects = []; opened = []; closed = [] }

-- After any sequence of operations that return, from no objects on, every descriptor was given to an
-- object as often as it was closed plus the number of objects that own it. So one that was given to an
-- object once is owned by one object or was closed once, and not both.
pub Steps-owned :
    {w : World} (x : ℕ) → Steps empty w → count x w.opened ≡ count x w.closed + owned x w.objects
Steps-owned x steps = Steps-IsBalanced steps (λ y. refl) x
