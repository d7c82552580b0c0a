-- ===== src/Vita49/Types/Counts.antt =====
-- The packet counter over a run of packets, and the capacity of a packet.
use fers.Base.{ℕ, zero, suc, ◌+◌, ◌%◌, ◌≡◌, refl, List, [], ◌∷◌, arith, length}
use fers.Vita49.Types.{PacketCountSequencer, next, set_next, peek}

-- `n` calls of `next`: the counts handed out, and the counter after them.
unfoldable pub next_many : ℕ → PacketCountSequencer → List ℕ × PacketCountSequencer
next_many zero s = ([], s)
next_many (suc n) s =
    let (count, s') = next s in let (counts, s'') = next_many n s' in (count ∷ counts, s'')

-- The counts from `start` on, each the one before it plus one, modulo 16.
abbrev pub CountsFrom : ℕ → List ℕ → Type 0
CountsFrom start [] = Unit {0}
CountsFrom start (c ∷ cs) = (c ≡ start % 16) × CountsFrom (start + 1) cs

CountsFrom-mod :
    (start start' : ℕ) (cs : List ℕ)
    → start % 16 ≡ start' % 16
    → CountsFrom start cs
    → CountsFrom start' cs
CountsFrom-mod start start' [] e h = tt
CountsFrom-mod start start' (c ∷ cs) e h =
    (omega arith, CountsFrom-mod (start + 1) (start' + 1) cs (omega arith) h.1)

pub next-peek :
    (s : PacketCountSequencer) → ((next s).0 ≡ peek s) × (peek (next s).1 ≡ (peek s + 1) % 16)
unfolding next peek
next-peek s = (omega arith, omega arith)

pub peek-mod : (s : PacketCountSequencer) → peek s % 16 ≡ peek s
unfolding peek
peek-mod s = omega arith

next_many-peek :
    (n start : ℕ) (s : PacketCountSequencer)
    → peek s ≡ start % 16
    → let run = next_many n s in
      CountsFrom start run.0 × (length run.0 ≡ n) × (peek run.1 ≡ (start + n) % 16)
unfolding next_many
next_many-peek zero start s e = (tt, refl, omega arith)
next_many-peek (suc n) start s e =
    let step = next-peek s in
    let rest = next_many-peek n (start + 1) (next s).1 (omega arith) in
    ((omega arith, rest.0), omega arith, omega arith)

-- After the counter is set, any run of packets is numbered consecutively from there modulo 16, and
-- the counter then stands at the number after the last.
pub next_many-CountsFrom :
    (n start : ℕ)
    → let run = next_many n (set_next start) in
      CountsFrom start run.0 × (length run.0 ≡ n) × (peek run.1 ≡ (start + n) % 16)
unfolding peek set_next
next_many-CountsFrom n start = next_many-peek n start (set_next start) (omega arith)
