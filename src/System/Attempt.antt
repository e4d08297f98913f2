-- ===== src/System/Attempt.antt =====
-- Calls made in order up to the first that fails.
use mathlib.Core.Bool.{true≢false}
use nasdaq_moldudp64_feed_si.Prelude.{
  ℕ, ◌≡◌, refl, sym, ap, ◌∙◌, Bool, true, false, not, List, [], ◌∷◌, ◌++◌, if◌then◌else◌,
  Bool-cases, inl, inr, append-nil, append_assoc, arith,
}
use nasdaq_moldudp64_feed_si.Prelude.Int.{pos, ltb_ℤ}
use nasdaq_moldudp64_feed_si.Exception.{Result, ok, throws, undefined}
use nasdaq_moldudp64_feed_si.System.{
  Call, open_socket, create_epoll, create_event, set_option, parse_address, bind_socket, epoll_add,
  Reply, Kernel, State, Action, pure, ◌>>=◌, check, address_of,
}

-- Whether a reply is one of success: `inet_pton` returns 1, the others do not return -1.
abbrev pub succeeds : Call → Reply → Bool
succeeds (parse_address text) reply = ltb_ℤ (pos 0) reply.result
succeeds c reply = not (ltb_ℤ reply.result (pos 0))

abbrev pub is_ok : {A : Type 0} → Result A → Bool
is_ok (ok a) = true
is_ok (throws e) = false
is_ok undefined = false

-- No undefined behaviour.
abbrev pub IsDefined : {A : Type 0} → Result A → Type 0
IsDefined undefined = ⊥
IsDefined r = Unit {0}

module _ (kernel : Kernel) where
  -- The calls made, on top of the earlier ones, and whether all succeeded.
  abbrev pub attempt : List Call → List Call → List Call × Bool
  attempt [] made = (made, true)
  attempt (c ∷ cs) made =
      if succeeds c (kernel made c)
      then attempt cs (made ++ (c ∷ []))
      else (made ++ (c ∷ []), false)

  attempt-append :
      (cs ds made : List Call)
      → attempt (cs ++ ds) made
        ≡ (if (attempt cs made).1 then attempt ds (attempt cs made).0 else attempt cs made)
  attempt-append [] ds made = refl
  attempt-append (c ∷ cs) ds made = elim (Bool-cases (succeeds c (kernel made c))) [
    | inl good ↦ rw good (attempt-append cs ds (made ++ (c ∷ [])))
    | inr bad ↦ rw bad refl
  ]

  pub attempt-all :
      (cs made : List Call) → (attempt cs made).1 ≡ true → (attempt cs made).0 ≡ made ++ cs
  attempt-all [] made e = sym (append-nil made)
  attempt-all (c ∷ cs) made e = elim (Bool-cases (succeeds c (kernel made c))) [
    | inl good ↦ rw good (
        attempt-all cs (made ++ (c ∷ [])) (
          ap (λ b. (if b then attempt cs (made ++ (c ∷ [])) else (made ++ (c ∷ []), false)).1)
            (sym good)
          ∙ e)
        ∙ append_assoc made (c ∷ []) cs)
    | inr bad ↦ absurd (
        true≢false (
          sym e
          ∙ ap (λ b. (if b then attempt cs (made ++ (c ∷ [])) else (made ++ (c ∷ []), false)).1)
              bad))
  ]

  -- From the state `s` on, `m` makes the calls `cs` up to the first that fails, and throws exactly
  -- if one fails.
  pub record Follows {A : Type 0} (s : State) (m : Action A) (cs : List Call) : Type 0 where
    pub made : (m s).1 ≡ record s { calls = (attempt cs s.calls).0 }
    pub returns : is_ok (m s).0 ≡ (attempt cs s.calls).1
    pub defined : IsDefined (m s).0

  -- A call that is no `inet_pton`.
  abbrev pub IsPlain : Call → Type 0
  IsPlain (parse_address text) = ⊥
  IsPlain c = Unit {0}

  plain-succeeds : (c : Call) (r : Reply) → IsPlain c → succeeds c r ≡ not (ltb_ℤ r.result (pos 0))
  plain-succeeds (parse_address text) r h = absurd h
  plain-succeeds open_socket r h = refl
  plain-succeeds create_epoll r h = refl
  plain-succeeds create_event r h = refl
  plain-succeeds (set_option fd o v) r h = refl
  plain-succeeds (bind_socket fd a) r h = refl
  plain-succeeds (epoll_add e fd event) r h = refl

  pub check-Follows : (s : State) (c : Call) → IsPlain c → Follows s (check kernel c) (c ∷ [])
  unfolding check
  check-Follows s c h = elim (Bool-cases (ltb_ℤ (kernel s.calls c).result (pos 0))) [
    | inl bad ↦ record {
      made = rw (plain-succeeds c (kernel s.calls c) h, bad) refl;
      returns = rw (plain-succeeds c (kernel s.calls c) h, bad) refl;
      defined = rw bad tt;
    }
    | inr good ↦ record {
      made = rw (plain-succeeds c (kernel s.calls c) h, good) refl;
      returns = rw (plain-succeeds c (kernel s.calls c) h, good) refl;
      defined = rw good tt;
    }
  ]

  pub address_of-Follows :
      (s : State) (text : List ℕ) → Follows s (address_of kernel text) (parse_address text ∷ [])
  unfolding address_of
  address_of-Follows s text = record {
    made = ground arith;
    returns = ground arith;
    defined = ground arith;
  }

  -- The end of an action that follows `cs`.
  abbrev Ends : {A : Type 0} → State → List Call → Result A × State → Type 0
  Ends s cs p =
      (p.1 ≡ record s { calls = (attempt cs s.calls).0 })
      × (is_ok p.0 ≡ (attempt cs s.calls).1)
      × IsDefined p.0

  stopped-Ends :
      {A B : Type 0} (s : State) (cs ds : List Call) (r : Result A) (r' : Result B) (s' : State)
      → is_ok r ≡ false
      → is_ok r' ≡ false
      → IsDefined r'
      → Ends s cs (r, s')
      → Ends s (cs ++ ds) (r', s')
  stopped-Ends s cs ds r r' s' bad bad' fine (made, returns, _) =
      let ends : attempt (cs ++ ds) s.calls ≡ attempt cs s.calls =
        attempt-append cs ds s.calls
        ∙ ap (λ b. if b then attempt ds (attempt cs s.calls).0 else attempt cs s.calls)
            (sym returns ∙ bad) in
      (
        made ∙ ap (λ (h : List Call × Bool). record s { calls = h.0 }) (sym ends),
        bad' ∙ sym bad ∙ returns ∙ ap (λ (h : List Call × Bool). h.1) (sym ends),
        fine,
      )

  bind-Ends :
      {A B : Type 0} (s : State) (cs ds : List Call) (f : A → Action B) (p : Result A × State)
      → Ends s cs p
      → ((a : A) → p.0 ≡ ok a → Ends p.1 ds (f a p.1))
      → Ends {A = B} s
          (cs ++ ds)
          (elim p.0 [ ok a ↦ f a p.1 | throws e ↦ (throws e, p.1) | undefined ↦ (undefined, p.1) ])
  bind-Ends {A} {B} s cs ds f (throws e, s') first second =
      stopped-Ends {A = A} {B = B} s cs ds (throws e) (throws e) s' refl refl tt first
  bind-Ends s cs ds f (undefined, s') first second = absurd first.2
  bind-Ends s cs ds f (ok a, s') (made, returns, _) second =
      let goes : attempt (cs ++ ds) s.calls ≡ attempt ds s'.calls =
        attempt-append cs ds s.calls
        ∙ ap (λ b. if b then attempt ds (attempt cs s.calls).0 else attempt cs s.calls)
            (sym returns)
        ∙ ap (λ (t : State). attempt ds t.calls) (sym made) in
      let (made', returns', fine) = second a refl in
      (
        made'
            ∙ ap (λ (h : List Call × Bool). record s' { calls = h.0 }) (sym goes)
            ∙ ap (λ (t : State). record t { calls = (attempt (cs ++ ds) s.calls).0 }) made,
        returns' ∙ ap (λ (h : List Call × Bool). h.1) (sym goes),
        fine,
      )

  -- Two actions, one after the other, where the second is known from what the first returns.
  pub bind-Follows :
      {A B : Type 0} {s : State} {m : Action A} {cs ds : List Call} (f : A → Action B)
      → Follows s m cs
      → ((a : A) → (m s).0 ≡ ok a → Follows (m s).1 (f a) ds)
      → Follows s (m >>= f) (cs ++ ds)
  bind-Follows {s} {m} {cs} {ds} f first second =
      let (made, returns, defined) =
        bind-Ends s cs ds f (m s) (first.made, first.returns, first.defined)
          (λ a e. ((second a e).made, (second a e).returns, (second a e).defined)) in
      record { made = made; returns = returns; defined = defined }

  -- An action that makes no call and does not throw.
  pub pure-Follows : {A : Type 0} (s : State) (a : A) → Follows s (pure a) []
  pure-Follows s a = record { made = refl; returns = refl; defined = tt }

  pub address_of-value :
      (s : State) (text : List ℕ) {a : ℕ}
      → (address_of kernel text s).0 ≡ ok a
      → a ≡ (kernel s.calls (parse_address text)).address
  unfolding address_of
  address_of-value s text e = ground arith
