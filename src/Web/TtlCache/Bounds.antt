-- ===== src/Web/TtlCache/Bounds.antt =====
-- internal/web/ttlcache.go: the cap of the cache, and what it gives.
use homelab_homepage.Prelude.{
  ℕ, ◌+◌, ◌≤◌, zero, suc, String, ◌≡◌, ◌≢◌, refl, none, some, [], ◌∷◌, ltb, string_eq,
  if◌then◌else◌, length, arith, Bool-cases, inl, inr, ==_refl,
}
use homelab_homepage.Go.Map.{
  Map, lookup, insert, erase, NodupKeys, lookup-insert, lookup-erase, insert-NodupKeys,
  erase-NodupKeys,
}
use homelab_homepage.Web.TtlCache.{
  TtlEntry, TtlCache, get, sweep, oldest_of, evict_oldest, evict_times, evict_locked, quarter, set,
}

module _ {ℓ} {V : Type ℓ} where
  -- Every key is set once and is not the empty text, and the cap is not exceeded.
  abbrev pub IsBounded : TtlCache V → Type ℓ
  IsBounded c = NodupKeys c.m × (lookup "" c.m ≡ none) × (length c.m ≤ c.cap)

  length-insert :
      (k : String) (v : TtlEntry V) (m : Map (TtlEntry V)) → length (insert k v m) ≤ suc (length m)
  unfolding insert
  length-insert k v [] = ground arith
  length-insert k v (_ ∷ m) = ground (arith, length-insert k v m)

  length-erase : (k : String) (m : Map (TtlEntry V)) → length (erase k m) ≤ length m
  unfolding erase
  length-erase k [] = ground arith
  length-erase k (_ ∷ m) = ground (arith, length-erase k m)

  -- A key that is held is taken out.
  length-erase_held :
      (k : String) (m : Map (TtlEntry V)) → lookup k m ≢ none → suc (length (erase k m)) ≤ length m
  unfolding erase lookup
  length-erase_held k [] held = ground arith
  length-erase_held k (_ ∷ m) held = ground (arith, length-erase_held k m, length-erase k m)

  length-sweep : (now : ℕ) (m : Map (TtlEntry V)) → length (sweep now m) ≤ length m
  unfolding sweep
  length-sweep now [] = ground arith
  length-sweep now (_ ∷ m) = ground (arith, length-sweep now m)

  lookup-sweep :
      (now : ℕ) (k : String) (m : Map (TtlEntry V))
      → lookup k m ≡ none
      → lookup k (sweep now m) ≡ none
  unfolding sweep lookup
  lookup-sweep now k [] absent = refl
  lookup-sweep now k (_ ∷ m) absent = ground (arith, lookup-sweep now k m)

  sweep-NodupKeys : (now : ℕ) (m : Map (TtlEntry V)) → NodupKeys m → NodupKeys (sweep now m)
  unfolding sweep
  sweep-NodupKeys now [] u = tt
  sweep-NodupKeys now ((k, e) ∷ m) (fresh, u) =
      ground (arith, sweep-NodupKeys now m u, lookup-sweep now k m fresh)

  -- The search ends at a key of the map, or at the one it began with.
  oldest_of-held :
      (oldest : String) (exp : ℕ) (m : Map (TtlEntry V))
      → lookup (oldest_of oldest exp m) m ≡ none
      → oldest_of oldest exp m ≡ oldest
  unfolding oldest_of lookup
  oldest_of-held oldest exp [] absent = refl
  oldest_of-held oldest exp ((k, e) ∷ m) absent =
      ground (arith, oldest_of-held oldest exp m, oldest_of-held k e.expires m)

  oldest_of-named :
      (oldest : String) (exp : ℕ) (m : Map (TtlEntry V))
      → oldest ≢ ""
      → lookup "" m ≡ none
      → oldest_of oldest exp m ≢ ""
  unfolding oldest_of lookup
  oldest_of-named oldest exp [] named free = named
  oldest_of-named oldest exp ((k, e) ∷ m) named free =
      ground (arith, oldest_of-named oldest exp m, oldest_of-named k e.expires m)

  -- Each round takes an entry out while there is one.
  length-evict_oldest :
      (m : Map (TtlEntry V))
      → lookup "" m ≡ none
      → (length (evict_oldest m) ≤ length m)
        × (1 ≤ length m → suc (length (evict_oldest m)) ≤ length m)
  unfolding evict_oldest oldest_of lookup
  length-evict_oldest [] free = ground arith
  length-evict_oldest ((k, e) ∷ m) free =
      let oldest = oldest_of k e.expires m in
      ground (
        arith,
        oldest_of-named k e.expires m,
        oldest_of-held k e.expires m,
        length-erase oldest ((k, e) ∷ m),
        length-erase_held oldest ((k, e) ∷ m),
      )

  -- An eviction keeps no entry that was not there.
  evict_oldest-keeps :
      (m : Map (TtlEntry V))
      → NodupKeys m
      → (lookup "" m ≡ none)
      → NodupKeys (evict_oldest m) × (lookup "" (evict_oldest m) ≡ none)
  unfolding evict_oldest
  evict_oldest-keeps m u free =
      ground (arith, erase-NodupKeys (oldest_of "" 0 m) m u, lookup-erase "" (oldest_of "" 0 m) m)

  evict_times_bounded :
      (n : ℕ) (m : Map (TtlEntry V))
      → NodupKeys m
      → lookup "" m ≡ none
      → NodupKeys (evict_times n m)
        × (lookup "" (evict_times n m) ≡ none)
        × (length (evict_times n m) ≤ length m)
        × (1 ≤ n → 1 ≤ length m → suc (length (evict_times n m)) ≤ length m)
  unfolding evict_times
  evict_times_bounded zero m u free = (u, free, ground arith, ground arith)
  evict_times_bounded (suc n) m u free =
      let (u', free') = evict_oldest-keeps m u free in
      let (u2, free2, shorter, _) = evict_times_bounded n (evict_oldest m) u' free' in
      let (le, lt) = length-evict_oldest m free in (u2, free2, ground arith, ground arith)

  evict_locked-IsBounded :
      (now : ℕ) (c : TtlCache V)
      → IsBounded c
      → 1 ≤ c.cap
      → IsBounded (evict_locked now c)
        × (suc (length (evict_locked now c).m) ≤ c.cap)
        × ((evict_locked now c).cap ≡ c.cap)
  unfolding evict_locked
  evict_locked-IsBounded now c (u, free, small) some_cap =
      let live = sweep now c.m in
      let live_u = sweep-NodupKeys now c.m u in
      let live_free = lookup-sweep now "" c.m free in
      let evicted = evict_times_bounded (quarter (length live)) live live_u live_free in
      ground (arith, length-sweep now c.m)

  -- For a cap of at least one and a key that is not empty, setting an entry keeps the cache well-
  -- formed and within its cap, whatever its entries are and in whatever order they are visited.
  pub set-IsBounded :
      (now ttl : ℕ) (key : String) (value : V) (c : TtlCache V)
      → IsBounded c
      → 1 ≤ c.cap
      → key ≢ ""
      → IsBounded (set now key value ttl c)
  unfolding set
  set-IsBounded now ttl key value c b some_cap named =
      let e : TtlEntry V = record { value = value; expires = now + ttl } in
      let (made_b, room, same) = evict_locked-IsBounded now c b some_cap in
      elim (Bool-cases (ltb (length c.m) c.cap)) [
        | inl fits ↦ rw fits (
          insert-NodupKeys key e c.m b.0,
          rw (lookup-insert "" key e c.m) (ground arith),
          ground (arith, length-insert key e c.m),
        )
        | inr full ↦ rw full (
          insert-NodupKeys key e _ made_b.0,
          rw (lookup-insert "" key e (evict_locked now c).m) (ground arith),
          ground (arith, length-insert key e (evict_locked now c).m),
        )
      ]

  -- What is set is given under its key until its expiry has passed, and not after that, whatever
  -- was evicted for it.
  pub get-set :
      (now later ttl : ℕ) (key : String) (value : V) (c : TtlCache V)
      → (get later key (set now key value ttl c)).0
        ≡ (if ltb (now + ttl) later then none else some value)
  unfolding set get
  get-set now later ttl key value c =
      let e : TtlEntry V = record { value = value; expires = now + ttl } in
      elim (Bool-cases (ltb (length c.m) c.cap)) [
        | inl fits ↦ rw (fits, lookup-insert key key e c.m, ==_refl key) (ground arith)
        | inr full ↦
            rw (full, lookup-insert key key e (evict_locked now c).m, ==_refl key) (ground arith)
      ]
