-- ===== src/Lease/Payloads.antt =====
-- The payloads of effects/lease/type.go and their constructors, which the effects of lease.go do
-- without.
use effect_ive_go.Base.{ℕ}

-- The interface is sealed: these four types and no other.
data Payload (K : Type 0) : Type 0 where
  register : (key : K) (num_owners : ℕ) → Payload K
  deregister : (key : K) → Payload K
  acquire : (key : K) → Payload K
  release : (key : K) → Payload K

module _ {K : Type 0} where
  abbrev deregister_of : K → Payload K
  deregister_of key = deregister key

  abbrev register_of : K → ℕ → Payload K
  register_of key num_owners = register key num_owners

  abbrev acquire_of : K → Payload K
  acquire_of key = acquire key

  abbrev release_of : K → Payload K
  release_of key = release key
