-- ===== src/PacketBuilder/Bounds.antt =====
-- Any use of a builder keeps its datagrams within the MTU.
use nasdaq_moldudp64_feed_si.Prelude.{
  ℕ, ◌^◌, ◌≤◌, ◌<◌, ◌≡◌, sym, ap, ◌∙◌, subst, List, [], ◌∷◌, ◌++◌, length, length-append, inl, inr,
  arith,
}
use nasdaq_moldudp64_feed_si.Exception.{ok}
use nasdaq_moldudp64_feed_si.BinaryIo.{Endian}
use nasdaq_moldudp64_feed_si.PacketBuilder.{
  Config, PacketBuilder, make, try_add, finalize, reset, datagram,
}
use nasdaq_moldudp64_feed_si.PacketBuilder.Contents.{
  total_size, total_size-append, Holds, make-Holds, reset-Holds, try_add_outcome, finalize-Holds,
  length-datagram-le,
}

-- What a client does with a builder.
pub data Operation : Type 0 where
  resets : ℕ → Operation
  adds : List ℕ → Operation
  finalizes : Operation

abbrev apply : Endian → Operation → PacketBuilder → PacketBuilder
apply host (resets seq) b = reset host seq b
apply host (adds m) b = (try_add m b).1
apply host finalizes b = finalize host b

abbrev pub apply_all : Endian → List Operation → PacketBuilder → PacketBuilder
apply_all host [] b = b
apply_all host (o ∷ os) b = apply_all host os (apply host o b)

-- A builder of the MTU `mtu`; each of its messages has at least one byte.
record Keeps (b : PacketBuilder) (mtu : ℕ) : Type 0 where
  name : List ℕ
  seq : ℕ
  messages : List (List ℕ)
  holds : Holds b name seq messages
  nonempty : length messages ≤ total_size messages
  same_mtu : b.mtu ≡ mtu

few : {b : PacketBuilder} {mtu : ℕ} (k : Keeps b mtu) → mtu < 2 ^ 64 → length k.messages < 2 ^ 64
few k small = omega (arith, k.holds.room, k.nonempty, k.same_mtu)

same_mtu-try_add : (m : List ℕ) (b : PacketBuilder) → (try_add m b).1.mtu ≡ b.mtu
unfolding try_add
same_mtu-try_add m b = ground arith

apply-Keeps :
    (host : Endian) (o : Operation) {b : PacketBuilder} {mtu : ℕ}
    → mtu < 2 ^ 64
    → Keeps b mtu
    → Keeps (apply host o b) mtu
apply-Keeps host (resets seq) small k = record {
  name = k.name;
  seq = seq;
  messages = [];
  holds = reset-Holds host seq k.holds;
  nonempty = omega arith;
  same_mtu = unfold reset in k.same_mtu;
}
apply-Keeps host finalizes small k = record {
  name = k.name;
  seq = k.seq;
  messages = k.messages;
  holds = finalize-Holds host k.holds (few k small);
  nonempty = k.nonempty;
  same_mtu = unfold finalize in k.same_mtu;
}
apply-Keeps host (adds m) {b} {mtu} small k = elim (try_add_outcome m k.holds) [
  | inl (some_bytes, fits, accepted, held) ↦ record {
    name = k.name;
    seq = k.seq;
    messages = k.messages ++ (m ∷ []);
    holds = held;
    nonempty = omega (
      arith,
      k.nonempty,
      some_bytes,
      total_size-append k.messages (m ∷ []),
      length-append k.messages (m ∷ []),
    );
    same_mtu = same_mtu-try_add m b ∙ k.same_mtu;
  }
  | inr (why, same) ↦ subst (λ (x : PacketBuilder). Keeps x mtu) (ap (λ p. p.1) (sym same)) k
]

apply_all-Keeps :
    (host : Endian) (os : List Operation) {b : PacketBuilder} {mtu : ℕ}
    → mtu < 2 ^ 64
    → Keeps b mtu
    → Keeps (apply_all host os b) mtu
apply_all-Keeps host [] small k = k
apply_all-Keeps host (o ∷ os) small k = apply_all-Keeps host os small (apply-Keeps host o small k)

-- However a builder that was just made is used from there on, its messages accepted or refused, the
-- datagram of a packet that is finalized then is not larger than the configured MTU. The MTU fits 64
-- bits.
pub datagram-le-mtu :
    (host : Endian) (cfg : Config) (operations : List Operation) {b : PacketBuilder}
    → make cfg ≡ ok b
    → cfg.mtu < 2 ^ 64
    → length (datagram (finalize host (apply_all host operations b))) ≤ cfg.mtu
datagram-le-mtu host cfg operations {b} made small =
    let (h, same) = make-Holds cfg made in
    let k = apply_all-Keeps host operations small (record {
      name = cfg.session;
      seq = 0;
      messages = [];
      holds = h;
      nonempty = omega arith;
      same_mtu = same;
    }) in
    omega (arith, length-datagram-le host k.holds (few k small), k.same_mtu)
