-- ===== src/System/Compose.antt =====
-- Constructors of members one after the other.
use nasdaq_moldudp64_feed_si.Prelude.{
  ℕ, suc, ◌≡◌, ◌≢◌, refl, sym, ap, ◌∙◌, subst, List, [], ◌∷◌, ◌++◌, length, Option, some, All,
  arith,
}
use nasdaq_moldudp64_feed_si.Prelude.Int.{ℤ, pos}
use nasdaq_moldudp64_feed_si.Exception.{Exception, Result, ok, throws, undefined}
use nasdaq_moldudp64_feed_si.FileDescriptor.{World, of_syscall, destroy}
use nasdaq_moldudp64_feed_si.System.{
  Call, Kernel, State, Action, lift, ◌>>=◌, unwind, unwound, guarded, adopted, open_descriptor,
}
use nasdaq_moldudp64_feed_si.System.Guard.{Keeps-Constructs, IsOpen, Constructs, unwind-Constructs}

-- What an action returns, if it returns.
abbrev pub Returns : {A : Type 0} → (A → Type 0) → Result A × State → Type 0
Returns P (ok a, t) = P a
Returns P _ = Unit {0}

pub bind-Returns :
    {A B : Type 0} (P : A → Type 0) (Q : B → Type 0) (s : State) (m : Action A) (f : A → Action B)
    → Returns P (m s)
    → ((a : A) (t : State) → P a → Returns Q (f a t))
    → Returns Q ((m >>= f) s)
bind-Returns {A} {B} P Q s m f h next = by_result (m s) h
  where
    by_result :
        (p : Result A × State)
        → Returns P p
        → Returns {A = B} Q (elim p.0 [
          | ok a ↦ f a p.1
          | throws e ↦ (throws e, p.1)
          | undefined ↦ (undefined, p.1)
        ])
    by_result (ok a, t) h = next a t h
    by_result (throws e, t) h = tt
    by_result (undefined, t) h = tt

pub guarded-Returns :
    {A : Type 0} (P : A → Type 0) (object : ℕ) (m : Action A) (s : State)
    → Returns P (m s)
    → Returns P (guarded object m s)
unfolding guarded unwind unwound
guarded-Returns {A} P object m s h = by_result (m s) h
  where
    by_destroy : (e : Exception) (t : State) (r : Result World) → Returns {A = A} P (unwound e t r)
    by_destroy e t (ok w) = tt
    by_destroy e t (throws e') = tt
    by_destroy e t undefined = tt

    by_result : (p : Result A × State) → Returns P p → Returns P (unwind object p)
    by_result (ok a, t) h = h
    by_result (throws e, t) h = by_destroy e t (destroy object t.world)
    by_result (undefined, t) h = tt

pub open_descriptor-Returns :
    (kernel : Kernel) (c : Call) (s : State)
    → Returns (λ object. object ≡ length s.world.objects) (open_descriptor kernel c s)
unfolding open_descriptor adopted
open_descriptor-Returns kernel c s =
    by_result (of_syscall (kernel s.calls c).result (kernel s.calls c).errno s.world)
  where
    by_result :
        (r : Result World)
        → Returns
            (λ object. object ≡ length s.world.objects)
            (adopted s.world r (record s { calls = s.calls ++ (c ∷ []) }))
    by_result (ok w) = refl
    by_result (throws e) = tt
    by_result undefined = tt

open_one :
    (os new : List (Option ℤ))
    → length new ≡ 1
    → All IsOpen new
    → (fd : ℕ) × (os ++ new ≡ os ++ (some (pos fd) ∷ []))
open_one os [] h all = absurd (omega (arith, h))
open_one os (o ∷ []) h ((fd, e), rest) = (fd, ap (λ p. os ++ (p ∷ [])) e)
open_one os (o ∷ p ∷ new) h all = absurd (omega (arith, h))

-- A constructor of an object with one descriptor, and the rest behind it.
pub then-Constructs :
    {A B : Type 0} (n : ℕ) (s : State) (m : Action A) (object : A → ℕ) (f : A → Action B)
    → Constructs 1 s (m s)
    → Returns (λ a. object a ≡ length s.world.objects) (m s)
    → ((a : A) (t : State) → Constructs n t (f a t))
    → Constructs (suc n) s ((m >>= λ a. guarded (object a) (f a)) s)
unfolding guarded
then-Constructs {A} {B} n s m object f h r rest = by_result (m s) h r
  where
    by_result :
        (p : Result A × State)
        → Constructs 1 s p
        → Returns (λ a. object a ≡ length s.world.objects) p
        → Constructs {A = B} (suc n) s (elim p.0 [
          | ok a ↦ guarded (object a) (f a) p.1
          | throws e ↦ (throws e, p.1)
          | undefined ↦ (undefined, p.1)
        ])
    by_result (ok a, t) h r =
        let (fd, e) = open_one s.world.objects h.new h.as_many h.each in
        subst (λ i. Constructs (suc n) s (unwind i (f a t))) (sym r)
          (unwind-Constructs s t fd (h.behind ∙ e) h.balanced n (f a t) (rest a t))
    by_result (throws e, t) h r = h
    by_result (undefined, t) h r = h

pub trivially : {A : Type 0} (p : Result A × State) → Returns (λ _. Unit {0}) p
trivially (ok a, t) = tt
trivially (throws e, t) = tt
trivially (undefined, t) = tt

-- A member whose constructor makes no system call.
pub lift-Constructs :
    {A B : Type 0} (n : ℕ) (s : State) (r : Result A) (f : A → Action B)
    → r ≢ undefined
    → ((a : A) → Constructs n s (f a s))
    → Constructs n s ((lift r >>= f) s)
lift-Constructs n s (ok a) f h rest = rest a
lift-Constructs {A} n s (throws e) f h rest = Keeps-Constructs {A = A} s (throws e, s) refl
lift-Constructs n s undefined f h rest = absurd (h refl)
