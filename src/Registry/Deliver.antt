-- ===== src/Registry/Deliver.antt =====
-- `arbit` of effects/stream/stream.go: the goroutine that passes a source's messages to its sinks.
--
-- A channel is what it can take now, free places in its buffer and receivers that wait, and the
-- messages that it took. Contexts live.
use mathlib.Core.List.{append_assoc, append-nil}
use effect_ive_go.Base.{
  ℕ, suc, ◌-◌, ◌≤◌, ◌≡◌, ◌≢◌, refl, sym, ap, ◌∙◌, inl, inr, Bool, true, false, not, ◌&&◌, ◌||◌,
  Option, none, some, List, [], ◌∷◌, ◌++◌, ◌==◌, if◌then◌else◌, ltb, length, ℕ_discrete, arith,
  Bool-cases, ite, if_pos, if_neg,
}
use effect_ive_go.Helper.{Outcome, ret, fault, ◌>>=◌}
use effect_ive_go.Registry.{SinkDropPair, Registry, as_registered, put}

pub record Channel (T : Type 0) : Type 0 where
  pub room : ℕ
  pub sent : List T
  pub closed : Bool

-- Where a pair's message goes if every channel can take it.
abbrev pub chosen : Bool → SinkDropPair → ℕ
chosen pick pair = elim pair.dropped [
  | none ↦ pair.sink
  | some dropped ↦ if pick then dropped else pair.sink
]

unfoldable pub all_chosen : (ℕ → Bool) → ℕ → List SinkDropPair → List ℕ
all_chosen pick n [] = []
all_chosen pick n (pair ∷ pairs) = chosen (pick n) pair ∷ all_chosen pick (suc n) pairs

module _ {T : Type 0} where
  abbrev pub set_channel : ℕ → Channel T → (ℕ → Channel T) → ℕ → Channel T
  set_channel i c chans q = ite (ℕ_discrete i q) c (chans q)

  -- A case `ch <- v` of a `select` is ready if the channel can take it, or is closed.
  abbrev pub is_ready : ℕ → (ℕ → Channel T) → Bool
  is_ready i chans = (chans i).closed || ltb 0 (chans i).room

  -- A send to a closed channel panics.
  abbrev pub send : ℕ → T → (ℕ → Channel T) → Outcome (ℕ → Channel T)
  send i v chans =
      if (chans i).closed
      then fault
      else ret (
          set_channel i
            (record (chans i) { room = (chans i).room - 1; sent = (chans i).sent ++ v ∷ [] }) chans)

  -- The `select` for one pair. Of two ready cases it takes either: `pick` says whether it is
  -- `dropped`.
  unfoldable pub pass_to : Bool → Option ℕ → ℕ → T → (ℕ → Channel T) → Outcome (ℕ → Channel T)
  pass_to pick none sink v chans = if is_ready sink chans then send sink v chans else ret chans
  pass_to pick (some dropped) sink v chans =
      if is_ready dropped chans && (pick || not (is_ready sink chans))
      then send dropped v chans
      else (if is_ready sink chans then send sink v chans else ret chans)

  -- One message to all pairs; the picks are those of the pairs in turn.
  unfoldable pub pass_all :
      (ℕ → Bool) → ℕ → List SinkDropPair → T → (ℕ → Channel T) → Outcome (ℕ → Channel T)
  unfolding pass_to
  pass_all pick n [] v chans = ret chans
  pass_all pick n (pair ∷ pairs) v chans =
      pass_to (pick n) pair.dropped pair.sink v chans >>= pass_all pick (suc n) pairs v

  -- The body of the loop, on what the registry has now for the source.
  unfoldable pub pass_message :
      (ℕ → Bool) → Option (ℕ × List SinkDropPair) → T → (ℕ → Channel T) → Outcome (ℕ → Channel T)
  unfolding pass_all
  pass_message pick none v chans = ret chans
  pass_message pick (some (address, pairs)) v chans = pass_all pick 0 pairs v chans

  -- The end of `arbit`: to close a channel twice, or a nil one, is a panic.
  unfoldable pub close_channel : Option ℕ → (ℕ → Channel T) → Outcome (ℕ → Channel T)
  close_channel none chans = fault
  close_channel (some i) chans =
      if (chans i).closed
      then fault
      else ret (set_channel i (record (chans i) { closed = true }) chans)

  unfoldable pub close_all : List SinkDropPair → (ℕ → Channel T) → Outcome (ℕ → Channel T)
  unfolding close_channel
  close_all [] chans = ret chans
  close_all (pair ∷ pairs) chans =
      close_channel (some pair.sink) chans >>= λ c. close_channel pair.dropped c >>= close_all pairs

  -- The end of the source, with the list that was loaded for its last message: `CompareAndDelete`
  -- by its address, and the channels closed if it was the entry. Without a message there is no
  -- list.
  unfoldable pub arbit_end :
      ℕ
      → Option (ℕ × List SinkDropPair)
      → Registry
      → (ℕ → Channel T)
      → Outcome (Registry × (ℕ → Channel T))
  unfolding close_all
  arbit_end key none reg chans = ret (reg, chans)
  arbit_end key (some (address, pairs)) reg chans =
      let current : Bool = elim (as_registered (reg.entries key)) [
        | none ↦ false
        | some l ↦ l.0 == address
      ] in
      if current
      then (close_all pairs chans >>= λ c. ret (put key none reg, c))
      else ret (reg, chans)

  -- `arbit` on a source that is closed after these messages, each with the registry as it is then
  -- and with the picks for it; `loaded` is the variable `sinks`.
  unfoldable pub arbit :
      ℕ
      → List (T × Registry × (ℕ → Bool))
      → Option (ℕ × List SinkDropPair)
      → Registry
      → (ℕ → Channel T)
      → Outcome (Registry × (ℕ → Channel T))
  unfolding pass_message arbit_end
  arbit key [] loaded reg chans = arbit_end key loaded reg chans
  arbit key ((v, now, pick) ∷ messages) loaded reg chans =
      let sinks = as_registered (now.entries key) in
      pass_message pick sinks v chans >>= arbit key messages sinks reg

  -- The copies of a message that a channel gets if the message goes to these channels.
  unfoldable pub copies : T → ℕ → List ℕ → List T
  copies v c [] = []
  copies v c (i ∷ is) = let rest = copies v c is in if i == c then v ∷ rest else rest

-- Every channel is open and can take `n` more messages.
abbrev pub CanTake : {T : Type 0} → ℕ → (ℕ → Channel T) → Type 0
CanTake n chans = (c : ℕ) → ((chans c).closed ≡ false) × (n ≤ (chans c).room)

module _ {T : Type 0} where
  pass_to-chosen :
      (pick : Bool) (dropped : Option ℕ) (sink n : ℕ) (v : T) (chans : ℕ → Channel T)
      → CanTake (suc n) chans
      → pass_to pick dropped sink v chans
        ≡ send (chosen pick (record { sink = sink; dropped = dropped })) v chans
  unfolding pass_to
  pass_to-chosen pick none sink n v chans r =
      let s = r sink in
      let room : ltb 0 (chans sink).room ≡ true = ground (arith, s.1) in rw (s.0, room) refl
  pass_to-chosen pick (some d) sink n v chans r =
      let s = r sink in
      let t = r d in
      let room : ltb 0 (chans sink).room ≡ true = ground (arith, s.1) in
      let room' : ltb 0 (chans d).room ≡ true = ground (arith, t.1) in
      elim (Bool-cases pick) [
        | inl p ↦ rw (p, s.0, t.0, room, room') refl
        | inr p ↦ rw (p, s.0, t.0, room, room') refl
      ]

  copies-nil : (v : T) (c : ℕ) → copies v c [] ≡ []
  unfolding copies
  copies-nil v c = refl

  copies-own : (v : T) (c i : ℕ) → i ≡ c → copies v c (i ∷ []) ≡ v ∷ []
  unfolding copies
  copies-own v c i e = let t : (i == c) ≡ true = ground arith in rw t refl

  copies-other : (v : T) (c i : ℕ) → i ≢ c → copies v c (i ∷ []) ≡ []
  unfolding copies
  copies-other v c i ne = let f : (i == c) ≡ false = ground arith in rw f refl

  copies-cons :
      (v : T) (c i : ℕ) (is : List ℕ) → copies v c (i ∷ []) ++ copies v c is ≡ copies v c (i ∷ is)
  unfolding copies
  copies-cons v c i is = elim (Bool-cases (i == c)) [ inl t ↦ rw t refl | inr f ↦ rw f refl ]

  -- One more message in the channel `i`.
  record SentTo (i n : ℕ) (v : T) (chans : ℕ → Channel T) (r : Outcome (ℕ → Channel T))
      : Type 0 where
    after : ℕ → Channel T
    returns : r ≡ ret after
    can_take : CanTake n after
    took : (c : ℕ) → (after c).sent ≡ (chans c).sent ++ copies v c (i ∷ [])

  send-SentTo :
      (i n : ℕ) (v : T) (chans : ℕ → Channel T)
      → CanTake (suc n) chans
      → SentTo i n v chans (send i v chans)
  send-SentTo i n v chans r =
      let c' = record (chans i) { room = (chans i).room - 1; sent = (chans i).sent ++ v ∷ [] } in
      record {
        after = set_channel i c' chans;
        returns = rw (r i).0 refl;
        can_take = λ c. elim (ℕ_discrete i c) [
          | yes e ↦ rw (if_pos (ℕ_discrete i c) e c' (chans c)) ((r i).0, omega (arith, (r i).1))
          | no ne ↦ rw (if_neg (ℕ_discrete i c) ne c' (chans c)) ((r c).0, omega (arith, (r c).1))
        ];
        took = λ c. elim (ℕ_discrete i c) [
          | yes e ↦
              rw (if_pos (ℕ_discrete i c) e c' (chans c), copies-own v c i e)
                (ap (λ q. (chans q).sent ++ v ∷ []) e)
          | no ne ↦
              rw (if_neg (ℕ_discrete i c) ne c' (chans c), copies-other v c i ne)
                (sym (append-nil _))
        ];
      }

  pass_all-copies :
      (pick : ℕ → Bool) (n : ℕ) (pairs : List SinkDropPair) (v : T) (chans : ℕ → Channel T)
      → CanTake (length pairs) chans
      → (after : ℕ → Channel T) × (pass_all pick n pairs v chans ≡ ret after)
        × ((c : ℕ) → (after c).sent ≡ (chans c).sent ++ copies v c (all_chosen pick n pairs))
  unfolding pass_all all_chosen
  pass_all-copies pick n [] v chans r =
      (chans, refl, λ c. sym (ap (λ l. (chans c).sent ++ l) (copies-nil v c) ∙ append-nil _))
  pass_all-copies pick n (pair ∷ pairs) v chans r =
      let s = send-SentTo (chosen (pick n) pair) (length pairs) v chans r in
      let (after, returns, took) = pass_all-copies pick (suc n) pairs v s.after s.can_take in
      (
        after,
        rw
            (
              pass_to-chosen (pick n) pair.dropped pair.sink (length pairs) v chans r,
              s.returns,
              ◌>>=◌,
            )
            returns,
        λ c.
            took c
            ∙ ap (λ l. l ++ copies v c (all_chosen pick (suc n) pairs)) (s.took c)
            ∙ append_assoc (chans c).sent _ _
            ∙ ap (λ l. (chans c).sent ++ l)
                (copies-cons v c (chosen (pick n) pair) (all_chosen pick (suc n) pairs)),
      )

  -- `arbit` passes a message on while every channel is open and has room for as many messages as
  -- there are pairs: it does not panic, every pair passes exactly one copy, and each channel gets
  -- those of the pairs that chose it, after what it had. A pair with a channel for dropped messages
  -- chooses it by the pick of `select`, though its sink has room.
  pub pass_message-copies :
      (pick : ℕ → Bool) (address : ℕ) (pairs : List SinkDropPair) (v : T) (chans : ℕ → Channel T)
      → CanTake (length pairs) chans
      → (after : ℕ → Channel T) × (pass_message pick (some (address, pairs)) v chans ≡ ret after)
        × ((c : ℕ) → (after c).sent ≡ (chans c).sent ++ copies v c (all_chosen pick 0 pairs))
  unfolding pass_message
  pass_message-copies pick address pairs v chans r = pass_all-copies pick 0 pairs v chans r
