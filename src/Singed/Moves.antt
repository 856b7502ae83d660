-- ===== src/Singed/Moves.antt =====
-- A move of examples/singed_poison_trail between coordinates that are not negative.
use effect_ive_go.Base.{
  ℕ, zero, suc, ◌+◌, ◌-◌, ◌*◌, ◌≤◌, ◌<◌, ◌≡◌, inl, inr, if◌then◌else◌, leb, arith, Bool-cases,
}
use effect_ive_go.Singed.{
  modulus, half, add_int32, sub_int32, neg_int32, lt_int32, le_int32, next_coord,
}

-- The distance that is left.
abbrev pub distance : ℕ → ℕ → ℕ
distance a b = (a - b) + (b - a)

sub-forward : (a b : ℕ) → a ≤ b → b < half → sub_int32 b a ≡ b - a
unfolding sub_int32
sub-forward a b le lt = omega (arith, le, lt)

sub-backward : (a b : ℕ) → b < a → a < half → sub_int32 b a ≡ modulus - (a - b)
unfolding sub_int32
sub-backward a b le lt = omega (arith, le, lt)

pub next_coord-forward :
    (cur to speed : ℕ)
    → cur ≤ to
    → to < half
    → 0 < speed
    → speed < half
    → next_coord cur to speed ≡ (if leb speed (to - cur) then cur + speed else to)
unfolding next_coord le_int32 lt_int32 neg_int32 add_int32
next_coord-forward cur to speed le lt pos small = rw (sub-forward cur to le lt) (ground arith)

pub next_coord-backward :
    (cur to speed : ℕ)
    → to < cur
    → cur < half
    → 0 < speed
    → speed < half
    → next_coord cur to speed ≡ (if leb speed (cur - to) then cur - speed else to)
unfolding next_coord le_int32 lt_int32 neg_int32 add_int32
next_coord-backward cur to speed le lt pos small = rw (sub-backward cur to le lt) (ground arith)

-- One step towards the destination: a coordinate that is not negative, nearer by the speed.
pub record Nearer (cur to speed next : ℕ) : Type 0 where
  pub not_negative : next < half
  pub nearer : distance next to ≡ distance cur to - speed

next_coord-Nearer :
    (cur to speed : ℕ)
    → cur < half
    → to < half
    → 0 < speed
    → speed < half
    → Nearer cur to speed (next_coord cur to speed)
next_coord-Nearer cur to speed c t pos small = elim (Bool-cases (leb cur to)) [
  | inl up ↦
      let forward = next_coord-forward cur to speed (ground arith) t pos small in
      record { not_negative = ground (arith, forward); nearer = ground (arith, forward) }
  | inr down ↦
      let backward = next_coord-backward cur to speed (ground arith) c pos small in
      record { not_negative = ground (arith, backward); nearer = ground (arith, backward) }
]

-- The coordinate after some ticks of a move.
abbrev pub coord_after : ℕ → ℕ → ℕ → ℕ → ℕ
coord_after zero cur to speed = cur
coord_after (suc n) cur to speed = coord_after n (next_coord cur to speed) to speed

-- Between coordinates that are not negative, at a positive speed, a move is at its destination
-- after any number of ticks in which the speed covers the distance, and stays there.
pub coord_after-arrives :
    (n cur to speed : ℕ)
    → cur < half
    → to < half
    → 0 < speed
    → speed < half
    → distance cur to ≤ n * speed
    → coord_after n cur to speed ≡ to
coord_after-arrives zero cur to speed c t pos small le = omega (arith, le)
coord_after-arrives (suc n) cur to speed c t pos small le =
    let one = next_coord-Nearer cur to speed c t pos small in
    coord_after-arrives n (next_coord cur to speed) to speed one.not_negative t pos small
      (omega (arith, le, one.nearer))
