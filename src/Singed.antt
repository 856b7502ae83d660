-- ===== src/Singed.antt =====
-- examples/singed_poison_trail: coordinates, the jobs of an actor and its ticks.
--
-- An `int32` is its 32 bits as a number below `2 ^ 32`, so arithmetic wraps. A pointer to a
-- coordinate is the coordinate's value, as an actor has one coordinate and a move changes only
-- that. A string is the list of its code points.
pub mod Moves
pub mod Table
pub mod Game
pub mod Trail
mod Tests
use effect_ive_go.Base.{
  ℕ, ◌+◌, ◌-◌, ◌%◌, Bool, true, false, not, Option, none, some, List, [], ◌∷◌, ◌++◌, ◌==◌, ◌&&◌,
  ◌||◌, ltb, leb, if◌then◌else◌,
}
use effect_ive_go.Helper.{Outcome, ret, missing, fault, ◌>>=◌}

-- `2 ^ 32`, and `2 ^ 31`, from which on the bits stand for negative numbers.
abbrev pub modulus : ℕ
modulus = 4294967296

abbrev pub half : ℕ
half = 2147483648

unfoldable pub add_int32 : ℕ → ℕ → ℕ
add_int32 a b = (a + b) % modulus

unfoldable pub sub_int32 : ℕ → ℕ → ℕ
sub_int32 a b = (a + (modulus - b)) % modulus

unfoldable pub neg_int32 : ℕ → ℕ
neg_int32 a = (modulus - a) % modulus

-- `a < b` and `a <= b`.
unfoldable pub lt_int32 : ℕ → ℕ → Bool
lt_int32 a b = ltb ((a + half) % modulus) ((b + half) % modulus)

unfoldable pub le_int32 : ℕ → ℕ → Bool
le_int32 a b = leb ((a + half) % modulus) ((b + half) % modulus)

-- `Coordinate.Compare`.
unfoldable pub compare_coordinates : ℕ → ℕ → Bool
compare_coordinates c i = c == i

-- `Coordinate.CompareAndSwap`: whether it swapped, and the coordinate.
unfoldable pub compare_and_swap : ℕ → ℕ → ℕ → Bool × ℕ
compare_and_swap c old new = if c == old then (true, new) else (false, c)

-- `Coordinate.String`, Go's `string(x)` of an integer: the code point, or U+FFFD if it is none.
unfoldable pub string_of : ℕ → List ℕ
string_of x = if ltb x 55296 || (leb 57344 x && leb x 1114111) then x ∷ [] else 65533 ∷ []

-- `strings.Join` with "/".
unfoldable pub join : List (List ℕ) → List ℕ
join [] = []
join (s ∷ []) = s
join (s ∷ t ∷ ss) = s ++ 47 ∷ join (t ∷ ss)

-- The constant strings of keys.go.
pub record Words : Type 0 where
  pub environment_key : List ℕ
  pub coordinates : List ℕ
  pub ops : List ℕ
  pub hp : List ℕ
  pub adjust : List ℕ

unfoldable pub key_of_coordinates : Words → ℕ → List ℕ
unfolding string_of join
key_of_coordinates words coord =
    join ([] ∷ words.environment_key ∷ words.coordinates ∷ string_of coord ∷ [])

unfoldable pub key_of_adjust_hp : Words → ℕ → List ℕ
unfolding key_of_coordinates
key_of_adjust_hp words coord =
    join (key_of_coordinates words coord ∷ words.ops ∷ words.hp ∷ words.adjust ∷ [])

-- The function that `nextCoord` tabulates.
unfoldable pub next_coord : ℕ → ℕ → ℕ → ℕ
unfolding add_int32 sub_int32 neg_int32 lt_int32 le_int32
next_coord cur to speed =
    let remaining = sub_int32 to cur in
    if le_int32 speed remaining
    then add_int32 cur speed
    else (if lt_int32 (neg_int32 speed) remaining && lt_int32 remaining speed
        then add_int32 cur remaining
        else add_int32 cur (neg_int32 speed))

-- `normalizeCallback`, of the callbacks that a call has; `none` is nil.
unfoldable pub normalize_callback {ℓ} : {A : Type ℓ} → List A → Outcome (Option A)
normalize_callback [] = ret none
normalize_callback (cb ∷ []) = ret (some cb)
normalize_callback (_ ∷ _ ∷ _) = fault

-- The jobs, whose coordinate is the actor's: `move`, with the destination, the speed and the
-- callback, and `adjustHP`.
pub data Job (Cb : Type 0) : Type 0 where
  move : (to speed : ℕ) → Option Cb → Job Cb
  adjust_hp : Job Cb

module _ {Cb : Type 0} where
  abbrev pub new_move : ℕ → ℕ → Option Cb → Job Cb
  new_move to speed cb = move to speed cb

  abbrev pub new_adjust_hp : Job Cb
  new_adjust_hp = adjust_hp

pub record Actor (Cb : Type 0) : Type 0 where
  pub coordinate : ℕ
  pub jobs : List (Job Cb)
  pub closed : Bool

-- What callbacks do is `call`, on a state `W`.
module _ {Cb W : Type 0} (call : Cb → ℕ → W → Outcome W) where
  -- `m.cb(m.coord)`, which panics for nil.
  unfoldable pub call_back : Option Cb → ℕ → W → Outcome W
  call_back none coord w = fault
  call_back (some cb) coord w = call cb coord w

  -- `move.TickCallback`; `next` is `nextCoord`.
  unfoldable pub tick_move : (ℕ → ℕ → ℕ → ℕ) → ℕ → ℕ → Option Cb → ℕ → W → Outcome (ℕ × W)
  unfolding compare_and_swap call_back
  tick_move next to speed cb coord w =
      let coord' = (compare_and_swap coord coord (next coord to speed)).1 in
      call_back cb coord' w >>= λ w'. ret (coord', w')

  -- `TickCallback`; that of `adjustHP` performs `LoadEffects`, which panics.
  unfoldable pub tick_callback : (ℕ → ℕ → ℕ → ℕ) → Job Cb → ℕ → W → Outcome (ℕ × W)
  unfolding tick_move
  tick_callback next (move to speed cb) coord w = tick_move next to speed cb coord w
  tick_callback next adjust_hp coord w = fault

  -- `Done`.
  unfoldable pub is_done : Job Cb → ℕ → Bool
  unfolding compare_coordinates
  is_done (move to speed cb) coord = compare_coordinates coord to
  is_done adjust_hp coord = false

  -- The loop over the jobs of a tick: the ones that are done are left out of the new jobs.
  unfoldable pub tick_jobs :
      (ℕ → ℕ → ℕ → ℕ) → List (Job Cb) → List (Job Cb) → ℕ → W → Outcome (List (Job Cb) × ℕ × W)
  unfolding tick_callback is_done
  tick_jobs next [] new_jobs coord w = ret (new_jobs, coord, w)
  tick_jobs next (job ∷ jobs) new_jobs coord w =
      let skipped = tick_jobs next jobs new_jobs coord w in
      let ticked = tick_callback next job coord w >>= λ r.
      tick_jobs next jobs (new_jobs ++ job ∷ []) r.0 r.1 in
      if is_done job coord then skipped else ticked

  -- A tick of `NewActor`'s child, which makes an `adjustHP` for the next one.
  unfoldable pub tick : (ℕ → ℕ → ℕ → ℕ) → Actor Cb → W → Outcome (Actor Cb × W)
  unfolding tick_jobs
  tick next actor w = tick_jobs next actor.jobs (new_adjust_hp ∷ []) actor.coordinate w >>= λ r.
      ret (record actor { jobs = r.0; coordinate = r.1 }, r.2)

module _ {Cb : Type 0} where
  -- `NewActor`.
  unfoldable pub new_actor : Actor Cb
  new_actor = record { coordinate = 0; jobs = []; closed = false }

  -- `Actor.Move`.
  unfoldable pub actor_move : ℕ → ℕ → List Cb → Actor Cb → Outcome (Actor Cb)
  unfolding normalize_callback
  actor_move to speed callbacks actor = normalize_callback callbacks >>= λ cb.
      ret (record actor { jobs = actor.jobs ++ new_move to speed cb ∷ [] })

  -- `Actor.Close`: whether it calls `closeFn`.
  unfoldable pub close : Actor Cb → Bool × Actor Cb
  close actor = if actor.closed then (false, actor) else (true, record actor { closed = true })

-- `Singed`, whose callbacks look at `poisonTrail` when they run.
pub record Singed : Type 0 where
  pub actor : Actor Unit
  pub poison_trail : Bool

unfoldable pub new_singed : Singed
unfolding new_actor
new_singed = record { actor = new_actor; poison_trail = false }

unfoldable pub toggle_poison_trail : Singed → Singed
toggle_poison_trail s = record s { poison_trail = not s.poison_trail }

-- `Singed.Move`.
unfoldable pub singed_move : ℕ → ℕ → Singed → Outcome Singed
unfolding actor_move
singed_move to speed s =
    actor_move to speed (tt ∷ []) s.actor >>= λ actor. ret (record s { actor = actor })

-- The callback of `Singed.Move`; `trail` inserts the rate 0.8, which expires, under a
-- key with that prefix.
unfoldable pub trail_poison_if : {W : Type 0} → (List ℕ → W → W) → Words → Bool → ℕ → W → Outcome W
unfolding key_of_adjust_hp
trail_poison_if trail words true coord w = ret (trail (key_of_adjust_hp words coord) w)
trail_poison_if trail words false coord w = ret w
